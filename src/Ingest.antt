-- ===== src/Ingest.antt =====
-- palaver/ingest and the observer's loop over what it finds: the reading of appended records, the
-- durable cursors with the backoff after failures, and one tick of palaver/observer/daemon.py.
pub mod Tail
pub mod Resume
pub mod Keyed
pub mod Tick
pub mod Plan
pub mod Verdicts
pub mod Delivery
pub mod Backoff
