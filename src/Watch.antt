-- ===== src/Watch.antt =====
-- The watch manager of server/server.go. A map from watcher ids is the list of its watchers, and a
-- watcher holds the buffer of its channel; what a receiver takes from it is not modelled. A watcher
-- whose channel was closed moves to `closed`, with the events still in its buffer.
pub mod Resend
use wjetcd.Common.{
  ℕ, ◌+◌, ◌%◌, Bool, true, false, not, ◌&&◌, Option, none, some, List, [], ◌∷◌, ◌++◌, if◌then◌else◌,
  ltb, ◌==◌, ByteString, bytes, bytes_eq, bytes_key, has_prefix, ℤ, pos, ltb_ℤ, leb_ℤ, Map, lookup,
  insert, delete, length,
}

-- `Event` and `kv.WatchEvent`.
pub record Event : Type 0 where
  pub key : ByteString
  pub value : ByteString
  pub type : ByteString
  pub revision : ℤ

pub record WatcherInfo : Type 0 where
  pub id : ℕ
  pub buffer : List Event
  pub persistent : Bool
  pub expire_at : ℤ
  pub from_rev : ℤ

pub record WatchManager : Type 0 where
  pub watchers : Map ByteString (List WatcherInfo)
  pub prefix_watchers : Map ByteString (List WatcherInfo)
  pub next_id : ℕ
  pub event_log : List Event
  pub closed : List WatcherInfo

unfoldable pub new_watch_manager : WatchManager
new_watch_manager = record {
  watchers = [];
  prefix_watchers = [];
  next_id = 0;
  event_log = [];
  closed = [];
}

-- The channel of a watcher is made for 100 events.
abbrev pub channel_cap : ℕ
channel_cap = 100

abbrev pub watchers_of : ByteString → Map ByteString (List WatcherInfo) → List WatcherInfo
watchers_of key m = elim (lookup key m) [ none ↦ [] | some infos ↦ infos ]

-- `addWatcherInternal`; `expire_at` is 0 for no timeout, or the time now with the timeout added.
unfoldable pub add_watcher_internal :
    WatchManager → ByteString → ByteString → Bool → ℤ → ℤ → WatchManager × ℕ
add_watcher_internal wa key prefix persistent expire_at from_rev =
    let id = (wa.next_id + 1) % 18446744073709551616 in
    let info : WatcherInfo = record {
      id = id;
      buffer = [];
      persistent = persistent;
      expire_at = expire_at;
      from_rev = from_rev;
    } in
    (
      if not (bytes_eq prefix (bytes ""))
          then record wa {
            next_id = id;
            prefix_watchers =
                insert prefix (watchers_of prefix wa.prefix_watchers ++ info ∷ [])
                  wa.prefix_watchers;
          }
          else record wa {
            next_id = id;
            watchers = insert key (watchers_of key wa.watchers ++ info ∷ []) wa.watchers;
          },
      id,
    )

unfoldable pub add_watcher : WatchManager → ByteString → Bool → ℤ → ℤ → WatchManager × ℕ
add_watcher wa key persistent expire_at from_rev =
    add_watcher_internal wa key (bytes "") persistent expire_at from_rev

unfoldable pub add_prefix_watcher : WatchManager → ByteString → Bool → ℤ → ℤ → WatchManager × ℕ
add_prefix_watcher wa prefix persistent expire_at from_rev =
    add_watcher_internal wa (bytes "") prefix persistent expire_at from_rev

-- The watchers that pass a test, and the others.
unfoldable pub partition :
    (WatcherInfo → Bool) → List WatcherInfo → List WatcherInfo × List WatcherInfo
partition test [] = ([], [])
partition test (info ∷ rest) =
    let (passed, failed) = partition test rest in
    if test info then (info ∷ passed, failed) else (passed, info ∷ failed)

unfoldable pub remove_watcher : WatchManager → ByteString → ℕ → WatchManager
remove_watcher wa key id = elim (lookup key wa.watchers) [
  | none ↦ wa
  | some infos ↦
      let (gone, left) = partition (λ info. info.id == id) infos in
      record wa { watchers = insert key left wa.watchers; closed = wa.closed ++ gone }
]

unfoldable pub remove_prefix_watcher : WatchManager → ByteString → ℕ → WatchManager
remove_prefix_watcher wa prefix id = elim (lookup prefix wa.prefix_watchers) [
  | none ↦ wa
  | some infos ↦
      let (gone, left) = partition (λ info. info.id == id) infos in
      record wa {
        prefix_watchers = insert prefix left wa.prefix_watchers;
        closed = wa.closed ++ gone;
      }
]

-- An entry of the map, without one for a key that has no watcher left.
abbrev pub keep_nonempty :
    ByteString
    → List WatcherInfo
    → Map ByteString (List WatcherInfo)
    → Map ByteString (List WatcherInfo)
keep_nonempty key [] others = others
keep_nonempty key (info ∷ more) others = (key, info ∷ more) ∷ others

abbrev pub set_nonempty :
    ByteString
    → List WatcherInfo
    → Map ByteString (List WatcherInfo)
    → Map ByteString (List WatcherInfo)
set_nonempty key [] m = delete key m
set_nonempty key (info ∷ more) m = insert key (info ∷ more) m

abbrev pub has_expired : ℤ → WatcherInfo → Bool
has_expired now info = ltb_ℤ (pos 0) info.expire_at && ltb_ℤ info.expire_at now

-- The watchers left under each key, without the keys that have none left, and those closed.
unfoldable pub expire_watchers :
    ℤ → Map ByteString (List WatcherInfo) → Map ByteString (List WatcherInfo) × List WatcherInfo
expire_watchers now [] = ([], [])
expire_watchers now ((key, infos) ∷ rest) =
    let (others, gone) = expire_watchers now rest in
    let (expired, left) = partition (has_expired now) infos in
    (keep_nonempty key left others, expired ++ gone)

-- `CleanupExpired` looks at the watchers of exact keys only.
unfoldable pub cleanup_expired : ℤ → WatchManager → WatchManager
cleanup_expired now wa =
    let (left, gone) = expire_watchers now wa.watchers in
    record wa { watchers = left; closed = wa.closed ++ gone }

-- A send that does not block: a full buffer drops the event. The flag says whether it was taken.
unfoldable pub send : WatcherInfo → Event → WatcherInfo × Bool
send info event =
    if ltb (length info.buffer) channel_cap
    then (record info { buffer = info.buffer ++ event ∷ [] }, true)
    else (info, false)

-- The event of the log as it is sent again: its revision is left at 0.
abbrev pub historic : Event → Event
historic event = record event { revision = pos 0 }

-- The loop over the event log, before an event with revision `before` is sent.
unfoldable pub replay : (ByteString → Bool) → WatcherInfo → List Event → ℤ → WatcherInfo
unfolding send
replay matches info [] before = info
replay matches info (event ∷ rest) before =
    replay matches
      (if matches event.key && leb_ℤ info.from_rev event.revision && ltb_ℤ event.revision before
        then (send info (historic event)).0
        else info)
      rest before

unfoldable pub catch_up : (ByteString → Bool) → WatcherInfo → List Event → ℤ → WatcherInfo
unfolding replay
catch_up matches info log before =
    if ltb_ℤ (pos 0) info.from_rev then replay matches info log before else info

-- The rounds of a notifying loop: the watchers that stay, and those that were closed.
unfoldable pub notify_infos :
    (ByteString → Bool)
    → List Event
    → Event
    → List WatcherInfo
    → List WatcherInfo × List WatcherInfo
unfolding send catch_up
notify_infos matches log event [] = ([], [])
notify_infos matches log event (info ∷ rest) =
    let (left, gone) = notify_infos matches log event rest in
    let (told, taken) = send (catch_up matches info log event.revision) event in
    if taken && not told.persistent then (left, told ∷ gone) else (told ∷ left, gone)

unfoldable pub notify_exact : WatchManager → ByteString → Event → WatchManager
unfolding notify_infos
notify_exact wa key event = elim (lookup key wa.watchers) [
  | none ↦ wa
  | some infos ↦
      let (left, gone) = notify_infos (λ k. bytes_eq k key) wa.event_log event infos in
      record wa { watchers = set_nonempty key left wa.watchers; closed = wa.closed ++ gone }
]

unfoldable pub notify_prefixes :
    List Event
    → ByteString
    → Event
    → Map ByteString (List WatcherInfo)
    → Map ByteString (List WatcherInfo) × List WatcherInfo
unfolding notify_infos
notify_prefixes log key event [] = ([], [])
notify_prefixes log key event ((prefix, infos) ∷ rest) =
    let (others, closed) = notify_prefixes log key event rest in
    let (left, gone) = notify_infos (λ k. has_prefix prefix k) log event infos in
    if has_prefix prefix key
    then (keep_nonempty prefix left others, gone ++ closed)
    else ((prefix, infos) ∷ others, closed)

unfoldable pub notify_prefix : WatchManager → ByteString → Event → WatchManager
unfolding notify_prefixes
notify_prefix wa key event =
    let (left, gone) = notify_prefixes wa.event_log key event wa.prefix_watchers in
    record wa { prefix_watchers = left; closed = wa.closed ++ gone }
