-- ===== src/Server/Deliver/Manager.antt =====
-- `notifyWatchers` of server/server.go on the watchers of each key.
use mathlib.Core.Path.{subst}
use mathlib.Core.List.{Mem, mem-append_left, mem-append_right}
use wjetcd.Common.{
  ◌≡◌, refl, sym, ap, ◌∙◌, arith, inl, inr, Bool-cases, if◌then◌else◌, Option, Option-cases, none,
  some, List, [], ◌∷◌, ◌++◌, append_empty, ByteString, bytes_eq, bytes_eq_iff, bytes_key, Map,
  lookup, lookup-insert, lookup-delete,
}
use wjetcd.Watch.{
  Event, WatcherInfo, WatchManager, watchers_of, set_nonempty, notify_infos, notify_exact,
  notify_prefix,
}
use wjetcd.Server.State.{announce}

watchers_of-set_nonempty :
    (k j : ByteString) (left : List WatcherInfo) (m : Map ByteString (List WatcherInfo))
    → watchers_of j (set_nonempty k left m) ≡ (if bytes_eq k j then left else watchers_of j m)
watchers_of-set_nonempty k j [] m = ground (arith, lookup-delete k j m)
watchers_of-set_nonempty k j (info ∷ more) m = ground (arith, lookup-insert k j (info ∷ more) m)

-- A watcher of the key, served with an event of it.
abbrev pub served :
    ByteString → List Event → Event → List WatcherInfo → List WatcherInfo × List WatcherInfo
served key log event infos = notify_infos (λ k. bytes_eq k key) log event infos

none_there :
    (key : ByteString) (m : Map ByteString (List WatcherInfo))
    → lookup key m ≡ none
    → watchers_of key m ≡ []
none_there key m absent =
    ap (λ (o : Option (List WatcherInfo)). elim o [ none ↦ [] | some infos ↦ infos ]) absent

some_there :
    (key : ByteString) (m : Map ByteString (List WatcherInfo)) (infos : List WatcherInfo)
    → lookup key m ≡ some infos
    → watchers_of key m ≡ infos
some_there key m infos found =
    ap (λ (o : Option (List WatcherInfo)). elim o [ none ↦ [] | some infos ↦ infos ]) found

notify_exact-watchers :
    (wa : WatchManager) (key j : ByteString) (event : Event)
    → watchers_of j (notify_exact wa key event).watchers ≡ (
        if bytes_eq key j
        then (served key wa.event_log event (watchers_of key wa.watchers)).0
        else watchers_of j wa.watchers)
unfolding notify_exact notify_infos
notify_exact-watchers wa key j event = elim (Option-cases (lookup key wa.watchers)) [
  | inl absent ↦ elim (Bool-cases (bytes_eq key j)) [
    | inl this ↦
        rw (notify_exact, absent, this)
          (ap (λ k. watchers_of k wa.watchers) (sym ((bytes_eq_iff key j).0 this))
            ∙ none_there key wa.watchers absent
            ∙ sym
                (ap (λ l. (served key wa.event_log event l).0) (none_there key wa.watchers absent)))
    | inr other ↦ rw (notify_exact, absent, other) refl
  ]
  | inr (infos, found) ↦
      rw (notify_exact, found)
        (watchers_of-set_nonempty key j (served key wa.event_log event infos).0 wa.watchers
          ∙ ap
              (λ l.
                if bytes_eq key j
                then (served key wa.event_log event l).0
                else watchers_of j wa.watchers)
              (sym (some_there key wa.watchers infos found)))
]

notify_exact-closed :
    (wa : WatchManager) (key : ByteString) (event : Event)
    → (notify_exact wa key event).closed
      ≡ wa.closed ++ (served key wa.event_log event (watchers_of key wa.watchers)).1
unfolding notify_exact notify_infos
notify_exact-closed wa key event = elim (Option-cases (lookup key wa.watchers)) [
  | inl absent ↦
      rw (notify_exact, absent)
        (sym (append_empty wa.closed)
          ∙ ap (λ l. wa.closed ++ (served key wa.event_log event l).1)
              (sym (none_there key wa.watchers absent)))
  | inr (infos, found) ↦
      rw (notify_exact, found)
        (ap (λ l. wa.closed ++ (served key wa.event_log event l).1)
          (sym (some_there key wa.watchers infos found)))
]

-- The watchers of a key after an event, which is in the log already.
pub announce-watchers :
    (wa : WatchManager) (j : ByteString) (event : Event)
    → watchers_of j (announce wa event).watchers ≡ (
        if bytes_eq event.key j
        then (served event.key
            (wa.event_log ++ event ∷ [])
            event
            (watchers_of event.key wa.watchers)).0
        else watchers_of j wa.watchers)
unfolding announce notify_prefix
announce-watchers wa j event =
    notify_exact-watchers (record wa { event_log = wa.event_log ++ event ∷ [] }) event.key j event

pub announce-closed :
    (wa : WatchManager) (event : Event) (info : WatcherInfo)
    → (Mem info wa.closed → Mem info (announce wa event).closed)
      × (Mem info
            (served event.key
              (wa.event_log ++ event ∷ [])
              event
              (watchers_of event.key wa.watchers)).1
          → Mem info (announce wa event).closed)
unfolding announce notify_prefix
announce-closed wa event info =
    let logged = record wa { event_log = wa.event_log ++ event ∷ [] } in
    let same = sym (notify_exact-closed logged event.key event) in
    (
      (λ old. mem-append_left _ (subst (Mem info) same (mem-append_left _ old))),
      (λ new. mem-append_left _ (subst (Mem info) same (mem-append_right wa.closed new))),
    )
