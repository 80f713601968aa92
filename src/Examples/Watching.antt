-- ===== src/Examples/Watching.antt =====
-- Watchers of server/server.go over a few events, and a cancelled `Wait` of server/handler.go.
use wjetcd.Common.{
  ◌≡◌, refl, arith, true, false, ByteString, bytes, List, [], ◌∷◌, Option, some, none, ℤ, pos, ◌+◌,
  ◌%◌,
}
use wjetcd.Watch.{Event, WatcherInfo, WatchManager, watchers_of}
use wjetcd.Server.Deliver.{watching}
use wjetcd.Server.Deliver.Runs.{
  announce_all, events_of, buffered, Fired, persistent-sees, one_shot-fires,
}
use wjetcd.Server.Submit.{Node}
use wjetcd.Server.Handler.{Request, get_method, query_get}
use wjetcd.Server.Handler.Watching.{
  http_wait, waits, rpc_cancel_watch, receive_watcher, wait_select, happened, zero_event,
}
use wjetcd.Server.Handler.Watching.Cancelled.{wait-cancelled}
use wjetcd.Examples.Submitting.{node}

abbrev event_at : ByteString → ℤ → Event
event_at key revision = record {
  key = key;
  value = bytes "v";
  type = bytes "PUT";
  revision = revision;
}

-- Two events of the key and one of another.
abbrev events : List Event
events =
    event_at (bytes "a") (pos 1) ∷ event_at (bytes "b") (pos 2) ∷ event_at (bytes "a") (pos 3) ∷ []

abbrev lasting : WatcherInfo
lasting = record { id = 1; buffer = []; persistent = true; expire_at = pos 0; from_rev = pos 0 }

abbrev one_shot : WatcherInfo
one_shot = record { id = 2; buffer = []; persistent = false; expire_at = pos 0; from_rev = pos 0 }

abbrev manager : WatchManager
manager = record {
  watchers = (bytes "a", lasting ∷ one_shot ∷ []) ∷ [];
  prefix_watchers = [];
  next_id = 2;
  event_log = [];
  closed = [];
}

persistent-sees_example :
    watching 1 (watchers_of (bytes "a") (announce_all manager events).watchers)
    ≡ some (record lasting { buffer = buffered [] (events_of (bytes "a") events) })
unfolding wjetcd.Common.lookup wjetcd.Common.bytes_eq
persistent-sees_example =
    persistent-sees events manager (bytes "a") 1 lasting refl refl (omega arith) (omega arith)

one_shot-fires_example :
    Fired 2 (bytes "a") one_shot (announce_all manager events) (events_of (bytes "a") events)
unfolding wjetcd.Common.lookup wjetcd.Common.bytes_eq
one_shot-fires_example =
    one_shot-fires events manager (bytes "a") 2 one_shot refl refl refl (omega arith) refl

-- A request to wait for a key.
abbrev wait_a : Request
wait_a = record { method = get_method; query = (bytes "key", bytes "a") ∷ [] }

abbrev parse : ByteString → Option ℤ
parse s = none

wait-cancelled_example :
    (n' : Node) × (timeout : ℤ) × (http_wait parse (pos 9) node wait_a ≡ (n', waits 1 timeout))
    × (wait_select false true
          (receive_watcher (rpc_cancel_watch n' (bytes "a") 1).server.watchers (bytes "a") 1)
        ≡ some (happened zero_event))
unfolding query_get wjetcd.Common.lookup wjetcd.Common.bytes_eq wjetcd.Server.Submit.is_node_leader
wait-cancelled_example = wait-cancelled parse (pos 9) node wait_a true refl refl refl refl refl
