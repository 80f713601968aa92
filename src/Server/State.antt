-- ===== src/Server/State.antt =====
-- server/server.go: the state of a server, its replies and its notifications.
-- The state machine that the replicas agree on is the record `Machine`. `pending` lists the indices
-- in `replyCh`, and `replies` what was sent on their channels. `wal` is `none` for a nil journal,
-- else the commands written so far; `persistence_failed` says that `persistenceErr` is set.
use wjetcd.Common.{
  Bool, true, false, Option, none, some, List, [], ◌∷◌, ◌++◌, if◌then◌else◌, ByteString, bytes, ℤ,
  pos, eqb_ℤ,
}
use wjetcd.Command.{CommandType, Command, cmd_put, cmd_delete, cmd_delete_prefix}
use wjetcd.Kv.{KvStore, new_kv_store}
use wjetcd.Lease.{LeaseManager, new_lease_manager}
use wjetcd.Watch.{Event, WatchManager, notify_exact, notify_prefix}

pub record Machine : Type 0 where
  pub store : KvStore
  pub lease_mgr : LeaseManager
  pub current_rev : ℤ

-- What a client is told. `decimal` is the text that `%d` prints of the number, and `listing` the
-- text that `%v` prints of the map.
pub data Reply : Type 0 where
  text : ByteString → Reply
  decimal : ℤ → Reply
  persistence_error : Reply

pub record Server : Type 0 where
  pub machine : Machine
  pub open machine use *
  pub watchers : WatchManager
  pub wal : Option (List Command)
  pub persistence_failed : Bool
  pub pending : List ℤ
  pub replies : List (ℤ × Reply)
  -- `rf.LastApplied` as the apply loop writes it. The node's own loop writes the same field.
  pub last_applied : ℤ

unfoldable pub new_machine : Machine
unfolding new_kv_store new_lease_manager
new_machine = record { store = new_kv_store; lease_mgr = new_lease_manager; current_rev = pos 0 }

abbrev pub with_machine : Server → Machine → Server
with_machine s m = record s { machine = m }

-- The type of the event of a command, if it has one.
unfoldable pub event_type : CommandType → Option ByteString
event_type cmd_put = some (bytes "PUT")
event_type cmd_delete = some (bytes "DELETE")
event_type cmd_delete_prefix = some (bytes "DELETE")
event_type _ = none

unfoldable pub announce : WatchManager → Event → WatchManager
announce wa event =
    let logged = record wa { event_log = wa.event_log ++ event ∷ [] } in
    notify_prefix (notify_exact logged event.key event) event.key event

unfoldable pub notify_watchers : Server → Command → Server
unfolding announce event_type
notify_watchers s cmd = elim (event_type cmd.type) [
  | none ↦ s
  | some type ↦ record s {
    watchers =
        announce s.watchers
          (record { key = cmd.key; value = cmd.value; type = type; revision = cmd.revision });
  }
]

abbrev pub awaits : ℤ → List ℤ → Bool
awaits index [] = false
awaits index (i ∷ rest) = if eqb_ℤ i index then true else awaits index rest

abbrev pub forget : ℤ → List ℤ → List ℤ
forget index [] = []
forget index (i ∷ rest) = if eqb_ℤ i index then forget index rest else i ∷ forget index rest

-- `notifyReply`, where the caller does not hold `s.mu`.
unfoldable pub notify_reply : Server → ℤ → Reply → Server
notify_reply s index reply =
    if awaits index s.pending
    then record s { pending = forget index s.pending; replies = s.replies ++ (index, reply) ∷ [] }
    else s
