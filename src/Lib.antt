-- ===== src/Lib.antt =====
-- A model of wjetcd, a replicated key-value store with leases, locks and watches.
--
-- A server (server/server.go) hands the commands of its clients to a Raft node (raft/). Committed
-- commands come back in order through `applyCh`, and `applyLoop` applies each to a store of versions
-- (kv/store.go) and a lease manager, after writing it to a journal. A restart replays the journal
-- into the same two. Watchers are told of writes, and locks are leases under a name.
--
-- The files, and the code that they model:
--   Command.antt             kv/command.go
--   Kv.antt                  kv/store.go, every operation; proofs in Kv/
--   Lease.antt, Lease/Heap   LeaseManager of server/server.go, with its heap as a list; proofs about
--                            the heap in Lease/Heap/, about the heap and the table in
--                            Lease/Schedule, Lease/Table and Lease/Expiry, about snapshots in
--                            Lease/Checkpoint
--   Lock.antt                server/lock.go; proofs in Lock/
--   Watch.antt               WatchManager and the notifying loops of server/server.go
--   Server/State             the server's state, notifyWatchers and notifyReply
--   Server/Loop              applyLoop, one message at a time
--   Server/Recovery          applyRecoveredCommand and replayEntries
--   Server/Persist           restorePersistentState, savePersistentState and Shutdown, and the start
--                            of cmd/server/server.go; proofs in Server/Persist/
--   Server/Startup           NewServer up to the goroutines that it starts
--   Server/Submit            Submit, Get, GetPrefix, IsLeader and GetStats; proofs in Server/Submit/
--   Server/Cleanup           cleanupExpiredLeases and cleanupLoop; proofs in Server/Cleanup/
--   Server/Deliver           what watchers are sent over many events
--   Server/Handler           the handlers of server/handler.go, up to the texts of the responses;
--                            those for watches and Wait in Server/Handler/Watching
--   Server/Invariant, Stores, Health, Journal    a server over many commands, and its journal
--   Server/Progress, Callers  who is answered when a command is applied
--   Storage/Wal              WAL of storage/wal.go; proofs in Storage/Wal/
--   Storage/Snapshot         Snapshot of storage/wal.go; a proof in Storage/Snapshot/
--   Server/Decode            commandFromValue, toString, toInt64, toBool
--   Raft/Log                 raft/log.go
--   Raft/Node                the state of raft/raft.go, persist, readPersist, Make
--   Raft/Vote                raft/leader_election.go; proofs in Raft/Vote/, where Keeps is about all
--                            code of raft/ that sets a term or a vote
--   Raft/Append              handleAppendEntriesRPC of raft/rpc.go
--   Raft/Leader              Start and AppendEntries of raft/raft.go, tryCommitL of
--                            raft/log_replication.go
--   Raft/Round               a round of replication between a leader and a follower
--   Raft/Ticker              ticker and the timers of raft/, the targets of requests, quorumActive
--   Raft/Sync                HandleAppendEntriesRPC of raft/log_replication.go and HandleHeartbeatRPC
--                            of raft/leader_election.go
--   Raft/Transport           the handlers and the senders of raft/rpc.go, sendRequestVote, and the
--                            table of addresses; an election over HTTP in Raft/Transport/Election
--   Raft/Snapshot            raft/snapshot.go
--   Raft/Apply               sendMsgToTester of raft/raft.go and tryApply of raft/util.go
--   Client.antt              cmd/client/client.go; proofs in Client/. The texts that it reads are in
--                            Server/Handler/Texts
--   Common/                  integers, lists, byte strings, maps and tests
--   Examples/                runs at concrete inputs
--
-- A method that changes an object is a function from its state to the new one, in the order of the
-- source. What a method reads from the clock, and whether a journal write succeeds, are arguments.
-- A run-time panic of raft/ is the result `panic`; an error is a value; a call that waits for ever
-- for a lock is an outcome of its own. `int64` values are integers whose increments and sums wrap
-- around; the indices and terms of raft/ are unbounded, but for the candidate's increment. Strings
-- are lists of bytes. A map is a list of keys and values, and a loop over a map runs in that order,
-- which stands for any that Go may take.
--
-- Fuel: the loops of the heap get the index plus one, or the heap's length, which the index passes
-- in at most as many swaps; the loop that steps back over a term gets the number of entries plus
-- one; the loops that hand entries to the service and that revoke expired leases take their fuel as
-- an argument, and for each there is a theorem on how much is enough.
--
-- What a file operation does is an argument: it succeeds, fails before or after it changed the file,
-- or stops after some bytes. A process that dies leaves a file as one of these does. A file that was
-- synced keeps its bytes, one that was not may be empty after a rename, and a rename replaces a file
-- whole.
--
-- JSON and base64 are parameters where a theorem is about them. labgob is a parameter of reading: of
-- what `persist` saved the model keeps the values that were handed to the encoder, and `Gob` says what
-- decoding makes of their bytes. The journal of `Server` is the list of its commands, and that of
-- Storage/Wal a file of records; Server/Persist/Crash and Server/Persist/Replays put the two together.
-- Not modelled: the HTTP server and the JSON of the service, the texts of its responses but those of a
-- put and a get, the running of tickers and goroutines, the draining in `Shutdown`, the RPC client
-- and the other commands, the test harness of raft/, labrpc/ and labgob/, which are another
-- project's.
pub mod Common
pub mod Command
pub mod Kv
pub mod Lease
pub mod Lock
pub mod Raft
pub mod Watch
pub mod Client
pub mod Storage
pub mod Server
mod Examples
