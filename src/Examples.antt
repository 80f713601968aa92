-- ===== src/Examples.antt =====
-- Runs of the models, and the theorems at them.
mod Store
mod Election
mod Replication
mod Serving
mod Locks
mod Disk
mod Restart
mod Submitting
mod Expiring
mod Rounds
mod Watching
mod Clients
mod Startup
mod Transport
