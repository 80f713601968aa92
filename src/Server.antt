-- ===== src/Server.antt =====
-- server/server.go: the replicated server, in the modules below.
pub mod State
pub mod Recovery
pub mod Decode
pub mod Loop
mod Agree
mod Revisions
pub mod Persist
pub mod Startup
mod Stores
mod Invariant
mod Health
pub mod Submit
pub mod Cleanup
pub mod Deliver
pub mod Handler
pub mod Journal
pub mod Replay
pub mod Callers
pub mod Progress
