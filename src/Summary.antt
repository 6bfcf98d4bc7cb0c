-- ===== src/Summary.antt =====
-- palaver/summary: the panel's summary of one session, reduced from its events, and the reducer that
-- keeps it up to date while the transcript grows.
pub mod Sanitize
pub mod Model
pub mod Recent
pub mod Collections
pub mod ClaudeCode
pub mod Records
pub mod Reduce
pub mod Likeness
pub mod Blind
pub mod Resumed
pub mod Filed
pub mod Preserved
pub mod Reasons
pub mod Sound
pub mod Resume
pub mod CodexRecords
pub mod Codex
pub mod CodexReduce
pub mod Reducer
pub mod Fed
pub mod Readable
pub mod Bounds
pub mod Bounded
pub mod Limits
pub mod Displayed
pub mod Tailing
pub mod Following
pub mod Panel
pub mod Companion
