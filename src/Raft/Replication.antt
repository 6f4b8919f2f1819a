-- ===== src/Raft/Replication.antt =====
-- What `HandleAppendEntries` does to the log: the modules below.
pub mod Merge
pub mod Handler
pub mod Stale
pub mod Conflict
