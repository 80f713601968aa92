-- ===== src/Raft.antt =====
-- raft/raft.go and the files beside it: a Raft node, in the modules below.
pub mod Log
pub mod Node
pub mod Vote
pub mod Append
pub mod Leader
pub mod Snapshot
pub mod Apply
pub mod Sync
pub mod Ticker
pub mod Transport
pub mod Round
