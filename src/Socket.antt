-- ===== src/Socket.antt =====
-- palaver/observer/socket: the observer's write path, one request at a time.
pub mod Connection
pub mod Correct
pub mod Query
pub mod Protocol
pub mod Ids
pub mod Recorded
pub mod Refines
pub mod Accepted
pub mod Stored
pub mod Serve
pub mod Chunks
