-- ===== src/Server/Startup.antt =====
-- server/server.go: `NewServer` up to the goroutines that it starts, and `MakePersister` of
-- raft/persister.go.
pub mod Forgets
use wjetcd.Common.{ℕ, Bool, false, Option, none, some, List, [], ByteString, ℤ, pos}
use wjetcd.Command.{Command}
use wjetcd.Raft.Log.{ok, panic}
use wjetcd.Raft.Node.{Raft, Gob, Persister, make, read_persist}
use wjetcd.Watch.{new_watch_manager}
use wjetcd.Server.State.{Machine, Server, new_machine}
use wjetcd.Server.Recovery.{recovered, failed, stuck}
use wjetcd.Server.Persist.{Codecs, Durable, restore_persistent_state}
use wjetcd.Server.Submit.{Node}

-- `MakePersister`
unfoldable pub make_persister : Persister Command
make_persister = record { raft_state = none; saved_snapshot = [] }

-- The fields of a server around its machine; `journal` is what its journal holds, and the last
-- index is `rf.LastApplied`.
unfoldable pub server_with : Option (List Command) → ℤ → Machine → Server
unfolding new_watch_manager
server_with journal last m = record {
  machine = m;
  watchers = new_watch_manager;
  wal = journal;
  persistence_failed = false;
  pending = [];
  replies = [];
  last_applied = last;
}

module _ (codecs : Codecs) (gob : Gob Command) where
  -- The node that runs, or none after an error of the restore, with which `main` ends, or a panic.
  unfoldable pub new_server :
      Bool → Bool → (ℕ → ℤ) → ℤ → List ByteString → Option (List Command) → Durable → Option Node
  unfolding restore_persistent_state server_with make_persister make
  new_server stats reads clock id peers journal d =
      elim (restore_persistent_state codecs stats reads clock new_machine d) [
        | recovered m ↦ elim (make gob peers id make_persister []) [
          | panic ↦ none
          | ok rf ↦ some (record {
            server = server_with journal rf.last_applied m;
            rf = some rf;
            startup_failed = false;
          })
        ]
        | _ ↦ none
      ]
