-- ===== src/Storage.antt =====
-- storage/wal.go: the journal's file and the snapshot's file.
pub mod Wal
pub mod Snapshot
