-- ===== src/Server/Handler/Watching/Cancelled.antt =====
-- server/handler.go: what `Wait` answers when another client cancels its watcher.
use wjetcd.Common.{
  ℕ, ◌+◌, ◌%◌, ◌≡◌, refl, ap, ◌∙◌, arith, Bool, true, false, inl, inr, Bool-cases, ◌==◌, ==_iff,
  Option, none, some, List, [], ◌∷◌, ◌++◌, ByteString, bytes, bytes_eq, bytes_eq_refl, bytes_key, ℤ,
  pos, lookup, insert, lookup-insert,
}
use wjetcd.Watch.{
  WatcherInfo, WatchManager, watchers_of, partition, add_watcher, add_watcher_internal,
  remove_watcher,
}
use wjetcd.Server.Deliver.{watching}
use wjetcd.Server.Submit.{Node, is_node_leader}
use wjetcd.Server.Handler.{Request, is_get, query_get}
use wjetcd.Server.Handler.Watching.{
  http_wait, with_watchers, wait_timeout, watcher_expiry, number, waits, rpc_cancel_watch, receive,
  receive_watcher, wait_select, happened, zero_event,
}

watching-append :
    (id : ℕ) (xs ys : List WatcherInfo)
    → watching id xs ≡ none
    → watching id (xs ++ ys) ≡ watching id ys
watching-append id [] ys e = refl
watching-append id (info ∷ xs) ys e = elim (Bool-cases (info.id == id)) [
  | inl this ↦ cc (rw this at e)
  | inr other ↦ rw other (watching-append id xs ys (rw other at e))
]

-- The watchers with the id, and the others.
abbrev split : ℕ → List WatcherInfo → List WatcherInfo × List WatcherInfo
split id infos = partition (λ info. info.id == id) infos

split-left : (id : ℕ) (infos : List WatcherInfo) → watching id (split id infos).1 ≡ none
unfolding partition
split-left id [] = refl
split-left id (info ∷ rest) = elim (Bool-cases (info.id == id)) [
  | inl this ↦ rw this (split-left id rest)
  | inr other ↦ rw (other, other) (split-left id rest)
]

split-gone :
    (id : ℕ) (infos : List WatcherInfo) → watching id (split id infos).0 ≡ watching id infos
unfolding partition
split-gone id [] = refl
split-gone id (info ∷ rest) = elim (Bool-cases (info.id == id)) [
  | inl this ↦ rw (this, this) refl
  | inr other ↦ rw other (split-gone id rest)
]

receive-closed :
    (wa : WatchManager) (key : ByteString) (id : ℕ) (info : WatcherInfo)
    → watching id (watchers_of key wa.watchers) ≡ none
    → watching id wa.closed ≡ some info
    → info.buffer ≡ []
    → receive_watcher wa key id ≡ some zero_event
unfolding receive_watcher receive
receive-closed wa key id info gone closed empty =
    ap
      (λ o. elim o [
        | some there ↦ receive true there.buffer
        | none ↦ elim (watching id wa.closed) [
          | some there ↦ receive false there.buffer
          | none ↦ none
        ]
      ])
      gone
    ∙ ap (λ o. elim o [ some there ↦ receive false there.buffer | none ↦ none ]) closed
    ∙ ap (receive false) empty

-- The last watcher of a key is cancelled before it was sent anything.
module _ (wa : WatchManager) (key : ByteString) (info : WatcherInfo)
    (new : watching info.id (watchers_of key wa.watchers) ≡ none)
    (unused : watching info.id wa.closed ≡ none) (empty : info.buffer ≡ []) where
  abbrev added : WatchManager
  added = record wa { watchers = insert key (watchers_of key wa.watchers ++ info ∷ []) wa.watchers }

  abbrev infos : List WatcherInfo
  infos = watchers_of key wa.watchers ++ info ∷ []

  infos-last : watching info.id infos ≡ some info
  infos-last =
      watching-append info.id (watchers_of key wa.watchers) (info ∷ []) new
      ∙ ground (arith, ==_iff info.id info.id)

  found : lookup key added.watchers ≡ some infos
  found = lookup-insert key key infos wa.watchers ∙ rw (bytes_eq_refl key) refl

  removed : remove_watcher added key info.id ≡ record added {
    watchers = insert key (split info.id infos).1 added.watchers;
    closed = wa.closed ++ (split info.id infos).0;
  }
  unfolding remove_watcher
  removed = rw (remove_watcher, found) refl

  pub receive-removed :
      receive_watcher (remove_watcher added key info.id) key info.id ≡ some zero_event
  receive-removed =
      let left : watchers_of key (insert key (split info.id infos).1 added.watchers)
          ≡ (split info.id infos).1 =
        ground (
          arith,
          lookup-insert key key (split info.id infos).1 added.watchers,
          bytes_eq_refl key,
        ) in
      let gone = ap (watching info.id) left ∙ split-left info.id infos in
      let closed : watching info.id (wa.closed ++ (split info.id infos).0) ≡ some info =
        watching-append info.id wa.closed (split info.id infos).0 unused
        ∙ split-gone info.id infos
        ∙ infos-last in
      ap (λ w. receive_watcher w key info.id) removed
      ∙ receive-closed _ key info.id info gone closed empty

-- A client waits for the first event of a key with a watcher of its own. If another client cancels
-- that watcher before there is an event, then the one that waits is answered at once with success
-- and an empty event, as if it had happened.
pub wait-cancelled :
    (scan : ByteString → Option ℤ) (now : ℤ) (n : Node) (r : Request) (timer_first : Bool)
    → let key = query_get r (bytes "key") in
      let id = (n.server.watchers.next_id + 1) % 18446744073709551616 in
      is_get r.method ≡ true
      → is_node_leader n ≡ true
      → bytes_eq key [] ≡ false
      → watching id (watchers_of key n.server.watchers.watchers) ≡ none
      → watching id n.server.watchers.closed ≡ none
      → (n' : Node) × (timeout : ℤ) × (http_wait scan now n r ≡ (n', waits id timeout))
        × (wait_select false timer_first
              (receive_watcher (rpc_cancel_watch n' key id).server.watchers key id)
            ≡ some (happened zero_event))
unfolding http_wait add_watcher add_watcher_internal rpc_cancel_watch wait_select bytes_eq
wait-cancelled scan now n r timer_first gets leads named new unused = (
  with_watchers n
      (add_watcher n.server.watchers (query_get r (bytes "key"))
        (bytes_eq (query_get r (bytes "persistent")) (bytes "true"))
        (watcher_expiry now (wait_timeout scan r))
        (number scan (query_get r (bytes "from_rev")) (pos 0))).0,
  wait_timeout scan r,
  rw (gets, leads, named) refl,
  ap (wait_select false timer_first) (
      receive-removed
        (record n.server.watchers {
          next_id = (n.server.watchers.next_id + 1) % 18446744073709551616;
        })
        (query_get r (bytes "key"))
        (record {
          id = (n.server.watchers.next_id + 1) % 18446744073709551616;
          buffer = [];
          persistent = bytes_eq (query_get r (bytes "persistent")) (bytes "true");
          expire_at = watcher_expiry now (wait_timeout scan r);
          from_rev = number scan (query_get r (bytes "from_rev")) (pos 0);
        })
        new unused refl),
)
