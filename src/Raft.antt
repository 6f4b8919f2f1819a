-- ===== src/Raft.antt =====
-- pkg/raft: the consensus module.
pub mod Types
pub mod Log
pub mod Fsm
pub mod Node
pub mod Ballots
pub mod Replication
pub mod Commit
pub mod Election
pub mod Proposals
pub mod Snapshots
pub mod Applying
pub mod Target
pub mod Discovery
pub mod Examples
