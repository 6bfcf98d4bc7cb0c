-- ===== src/TurnBoundary.antt =====
-- palaver/observer/turn_boundary.py. `Walk` has the backwards walk over a transcript's records,
-- `Corroboration` the evidence beside it, `Reading` the signals of a session; the other children
-- hold what is proved of them.
pub mod Walk
pub mod Corroboration
pub mod Reading
pub mod Settled
pub mod Settling
pub mod Ended
pub mod Injection
pub mod Window
pub mod Evidence
