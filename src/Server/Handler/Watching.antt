-- ===== src/Server/Handler/Watching.antt =====
-- server/handler.go: the handlers for watches and for waiting, and the health check. Adding a
-- watcher to the server is all that the first ones do; `Wait` then waits on the watcher's channel.
pub mod Cancelled
use wjetcd.Common.{
  ℕ, ◌==◌, Bool, true, false, not, ◌&&◌, ◌||◌, if◌then◌else◌, Option, none, some, List, [], ◌∷◌,
  ◌++◌, ByteString, bytes, bytes_eq, ℤ, pos, ltb_ℤ, eqb_ℤ, ◌+ℤ◌, ◌*ℤ◌, wrap64, Map,
}
use wjetcd.Watch.{
  Event, WatcherInfo, WatchManager, add_watcher, add_prefix_watcher, remove_watcher, watchers_of,
}
use wjetcd.Server.State.{Server}
use wjetcd.Server.Deliver.{watching}
use wjetcd.Server.Submit.{Node, is_node_leader}
use wjetcd.Server.Handler.{Request, is_get, query_get}

-- `time.Duration(ms) * time.Millisecond`, in `int64` arithmetic.
unfoldable pub milliseconds : ℤ → ℤ
milliseconds ms = wrap64 (ms *ℤ pos 1000000)

-- The expiry of a watcher that is added now: none for a timeout that is not positive.
unfoldable pub watcher_expiry : ℤ → ℤ → ℤ
watcher_expiry now timeout = if ltb_ℤ (pos 0) timeout then wrap64 (now +ℤ timeout) else pos 0

abbrev with_watchers : Node → WatchManager → Node
with_watchers n wa = record n { server = record n.server { watchers = wa } }

-- The RPC handlers, which do not ask who leads.
unfoldable pub rpc_watch : ℤ → Node → ByteString → Bool → ℤ → ℤ → Node × ℕ
unfolding milliseconds watcher_expiry
rpc_watch now n key persistent timeout from_rev =
    let lasting = if eqb_ℤ timeout (pos 0) then pos 0 else milliseconds timeout in
    let (wa, id) =
      add_watcher n.server.watchers key persistent (watcher_expiry now lasting) from_rev in
    (with_watchers n wa, id)

-- `CancelWatcher`
unfoldable pub rpc_cancel_watch : Node → ByteString → ℕ → Node
rpc_cancel_watch n key id = with_watchers n (remove_watcher n.server.watchers key id)

pub data WatchResponse : Type 0 where
  watch_not_allowed watch_not_leader watch_bad_request : WatchResponse
  watching_as : ℕ → WatchResponse

-- `Wait` is refused, or waits for a watcher with a timeout.
pub data Waiting : Type 0 where
  wait_not_allowed wait_not_leader wait_bad_request : Waiting
  waits : ℕ → ℤ → Waiting

module _ (scan : ByteString → Option ℤ) where
  -- `n := default; fmt.Sscanf(s, "%d", &n)`
  number : ByteString → ℤ → ℤ
  number s default = elim (scan s) [ none ↦ default | some n ↦ n ]

  -- The timeout of a watch: none unless the request names one.
  watch_timeout : Request → ℤ
  unfolding number query_get milliseconds
  watch_timeout r =
      let timeout = query_get r (bytes "timeout") in
      if bytes_eq timeout [] then pos 0 else milliseconds (number timeout (pos 0))

  unfoldable pub http_watch : ℤ → Node → Request → Node × WatchResponse
  unfolding number watch_timeout query_get watcher_expiry is_node_leader
  http_watch now n r =
      let key = query_get r (bytes "key") in
      let persistent = bytes_eq (query_get r (bytes "persistent")) (bytes "true") in
      let from_rev = number (query_get r (bytes "from_rev")) (pos 0) in
      let (wa, id) =
        add_watcher n.server.watchers key persistent (watcher_expiry now (watch_timeout r))
          from_rev in
      if not (is_get r.method)
      then (n, watch_not_allowed)
      else if not (is_node_leader n)
      then (n, watch_not_leader)
      else if bytes_eq key []
      then (n, watch_bad_request)
      else (with_watchers n wa, watching_as id)

  unfoldable pub http_watch_prefix : ℤ → Node → Request → Node × WatchResponse
  unfolding number watch_timeout query_get watcher_expiry is_node_leader
  http_watch_prefix now n r =
      let prefix = query_get r (bytes "prefix") in
      let persistent = bytes_eq (query_get r (bytes "persistent")) (bytes "true") in
      let from_rev = number (query_get r (bytes "from_rev")) (pos 0) in
      let (wa, id) =
        add_prefix_watcher n.server.watchers prefix persistent
          (watcher_expiry now (watch_timeout r)) from_rev in
      if not (is_get r.method)
      then (n, watch_not_allowed)
      else if not (is_node_leader n)
      then (n, watch_not_leader)
      else if bytes_eq prefix []
      then (n, watch_bad_request)
      else (with_watchers n wa, watching_as id)

  -- Five seconds unless the request names a positive timeout.
  wait_timeout : Request → ℤ
  unfolding number query_get milliseconds
  wait_timeout r =
      let timeout = query_get r (bytes "timeout") in
      let ms = if bytes_eq timeout [] then pos 0 else number timeout (pos 0) in
      if ltb_ℤ (pos 0) ms then milliseconds ms else pos 5000000000

  -- `Wait` up to its `select`.
  unfoldable pub http_wait : ℤ → Node → Request → Node × Waiting
  unfolding number wait_timeout query_get watcher_expiry is_node_leader
  http_wait now n r =
      let key = query_get r (bytes "key") in
      let persistent = bytes_eq (query_get r (bytes "persistent")) (bytes "true") in
      let from_rev = number (query_get r (bytes "from_rev")) (pos 0) in
      let timeout = wait_timeout r in
      let (wa, id) =
        add_watcher n.server.watchers key persistent (watcher_expiry now timeout) from_rev in
      if not (is_get r.method)
      then (n, wait_not_allowed)
      else if not (is_node_leader n)
      then (n, wait_not_leader)
      else if bytes_eq key []
      then (n, wait_bad_request)
      else (with_watchers n wa, waits id timeout)

-- `Event{}`, which a closed channel gives when it is empty.
abbrev pub zero_event : Event
zero_event = record { key = bytes ""; value = bytes ""; type = bytes ""; revision = pos 0 }

-- A receive on a channel that is open or closed: an event, or `none` where it blocks.
unfoldable pub receive : Bool → List Event → Option Event
receive open_still (event ∷ rest) = some event
receive true [] = none
receive false [] = some zero_event

-- What the channel of the key's watcher gives, open or closed.
unfoldable pub receive_watcher : WatchManager → ByteString → ℕ → Option Event
unfolding receive
receive_watcher wa key id = elim (watching id (watchers_of key wa.watchers)) [
  | some info ↦ receive true info.buffer
  | none ↦ elim (watching id wa.closed) [ some info ↦ receive false info.buffer | none ↦ none ]
]

pub data WaitResponse : Type 0 where
  happened : Event → WaitResponse
  wait_timed_out : WaitResponse

-- The `select`: the timer may have fired, and of two ready cases either is taken, as `timer_first`
-- says. `none` stands for waiting on.
unfoldable pub wait_select : Bool → Bool → Option Event → Option WaitResponse
wait_select fired timer_first none = if fired then some wait_timed_out else none
wait_select fired timer_first (some event) =
    if fired && timer_first then some wait_timed_out else some (happened event)

-- `Health`, without the server's id: whether the status is "leader".
unfoldable pub health : Node → Bool
unfolding is_node_leader
health n = is_node_leader n
