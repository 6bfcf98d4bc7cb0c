-- ===== src/Mcp.antt =====
-- palaver/mcp: the read tools, paged.
pub mod Cursor
pub mod Pages
pub mod Recall
pub mod Describe
pub mod RoundTrip
pub mod Order
pub mod Fitting
pub mod Collect
pub mod Drained
pub mod Recorded
