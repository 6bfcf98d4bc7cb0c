-- ===== src/Extract.antt =====
-- palaver/extract: the gate that admits a model's claim only with a quote that its evidence holds,
-- and the writing of an extraction.
pub mod Channels
pub mod QuoteGate
pub mod Grounded
pub mod Admitted
pub mod TierOne
pub mod State
pub mod Scopes
pub mod Upsert
pub mod Persist
pub mod Writes
pub mod Keeps
