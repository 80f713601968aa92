-- ===== src/Server/Deliver/Runs.antt =====
-- What a watcher of one key is sent over any sequence of events (`notifyWatchers` of
-- server/server.go).
use mathlib.Core.Path.{subst}
use mathlib.Core.List.{Mem}
use wjetcd.Common.{
  ℕ, zero, suc, ◌≤◌, ◌≡◌, refl, sym, ap, ◌∙◌, arith, Bool, true, false, inl, inr, Bool-cases,
  if◌then◌else◌, ltb, none, some, List, [], ◌∷◌, ◌++◌, length, take, length-append, append_empty,
  ++-assoc, length-take, ByteString, bytes_eq, bytes_eq_iff, bytes_key, pos, ◌≤ℤ◌, ltb_ℤ,
}
use wjetcd.Watch.{Event, WatcherInfo, WatchManager, watchers_of, send, catch_up, channel_cap}
use wjetcd.Server.State.{announce}
use wjetcd.Server.Deliver.Manager.{served, announce-watchers, announce-closed}
use wjetcd.Server.Deliver.{
  told, leaves, settings-send, watching, tally, tally-none, watching-notify_infos,
  leaving-notify_infos, tally-notify_infos,
}

take-short {ℓ} : {A : Type ℓ} (n : ℕ) (l : List A) → length l ≤ n → take n l ≡ l
take-short zero [] h = refl
take-short zero (x ∷ l) h = absurd (omega arith)
take-short (suc n) [] h = refl
take-short (suc n) (x ∷ l) h = ap (λ t. x ∷ t) (take-short n l (omega arith))

take-long {ℓ} : {A : Type ℓ} (n : ℕ) (l m : List A) → length l ≡ n → take n (l ++ m) ≡ l
take-long zero [] m h = refl
take-long zero (x ∷ l) m h = absurd (omega arith)
take-long (suc n) [] m h = absurd (omega arith)
take-long (suc n) (x ∷ l) m h = ap (λ t. x ∷ t) (take-long n l m (omega arith))

take-append {ℓ} : {A : Type ℓ} (n : ℕ) (l m : List A) → take n (take n l ++ m) ≡ take n (l ++ m)
take-append zero l m = refl
take-append (suc n) [] m = refl
take-append (suc n) (x ∷ l) m = ap (λ t. x ∷ t) (take-append n l m)

-- One event after another.
abbrev pub announce_all : WatchManager → List Event → WatchManager
announce_all wa [] = wa
announce_all wa (event ∷ rest) = announce_all (announce wa event) rest

-- The events of the key.
abbrev pub events_of : ByteString → List Event → List Event
events_of key [] = []
events_of key (event ∷ rest) =
    if bytes_eq event.key key then event ∷ events_of key rest else events_of key rest

-- A watcher that asks for no earlier event is sent the event alone.
told_now :
    (matches : ByteString → Bool) (log : List Event) (event : Event) (info : WatcherInfo)
    → info.from_rev ≤ℤ pos 0
    → told matches log event info ≡ send info event
unfolding catch_up
told_now matches log event info now =
    let fresh : ltb_ℤ (pos 0) info.from_rev ≡ false = ground arith in rw fresh refl

-- The buffer takes an event if it has room.
abbrev pub buffered : List Event → List Event → List Event
buffered buffer events = take channel_cap (buffer ++ events)

send-buffered :
    (info : WatcherInfo) (event : Event)
    → length info.buffer ≤ channel_cap
    → (send info event).0 ≡ record info { buffer = buffered info.buffer (event ∷ []) }
unfolding send
send-buffered info event room = elim (Bool-cases (ltb (length info.buffer) channel_cap)) [
  | inl free ↦ rw free (
      ap (λ b. record info { buffer = b })
        (sym (
          take-short channel_cap (info.buffer ++ event ∷ [])
            (ground (arith, length-append info.buffer (event ∷ []))))))
  | inr full ↦ rw full (
      ap (λ b. record info { buffer = b })
        (sym (take-long channel_cap info.buffer (event ∷ []) (ground arith))))
]

buffered-step :
    (buffer rest : List Event) (event : Event)
    → buffered (buffered buffer (event ∷ [])) rest ≡ buffered buffer (event ∷ rest)
buffered-step buffer rest event =
    take-append channel_cap (buffer ++ event ∷ []) rest
    ∙ ap (take channel_cap) (++-assoc buffer (event ∷ []) rest)

length-buffered : (buffer events : List Event) → length (buffered buffer events) ≤ channel_cap
length-buffered buffer events = omega (arith, length-take channel_cap (buffer ++ events))

watched_at :
    (wa : WatchManager) (key k : ByteString) (id : ℕ) (info : WatcherInfo)
    → bytes_eq k key ≡ true
    → watching id (watchers_of key wa.watchers) ≡ some info
    → watching id (watchers_of k wa.watchers) ≡ some info
watched_at wa key k id info same e =
    ap (λ j. watching id (watchers_of j wa.watchers)) ((bytes_eq_iff k key).0 same) ∙ e

-- An empty buffer has room.
send-empty :
    (info : WatcherInfo) (event : Event)
    → info.buffer ≡ []
    → send info event ≡ (record info { buffer = event ∷ [] }, true)
unfolding send
send-empty info event empty = ground (arith, empty)

-- A watcher of the key that is not a one-shot, and asks for no earlier event, is sent all events of
-- its key in order, as far as its buffer has room.
pub persistent-sees :
    (es : List Event) (wa : WatchManager) (key : ByteString) (id : ℕ) (info : WatcherInfo)
    → watching id (watchers_of key wa.watchers) ≡ some info
    → info.persistent ≡ true
    → info.from_rev ≤ℤ pos 0
    → length info.buffer ≤ channel_cap
    → watching id (watchers_of key (announce_all wa es).watchers)
      ≡ some (record info { buffer = buffered info.buffer (events_of key es) })
persistent-sees [] wa key id info e kind now room =
    e
    ∙ ap (λ b. some (record info { buffer = b }))
        (sym (
          take-short channel_cap (info.buffer ++ []) (rw (append_empty info.buffer) room)
          ∙ append_empty info.buffer))
persistent-sees (event ∷ rest) wa key id info e kind now room =
    let after = announce-watchers wa key event in
    elim (Bool-cases (bytes_eq event.key key)) [
      | inl this ↦
          let matches = λ (k : ByteString). bytes_eq k event.key in
          let log = wa.event_log ++ event ∷ [] in
          let sent = told_now matches log event info now in
          let fixed : (send info event).0.persistent ≡ true =
            ap (λ t. t.1) (settings-send info event) ∙ kind in
          let stays : leaves matches log event info ≡ false = rw sent (ground (arith, fixed)) in
          let grown = record info { buffer = buffered info.buffer (event ∷ []) } in
          let here : watching id (watchers_of key (announce wa event).watchers) ≡ some grown =
            ap (watching id) (after ∙ rw this refl)
            ∙ watching-notify_infos matches log event (watchers_of event.key wa.watchers) id info
                (watched_at wa key event.key id info this e) stays
            ∙ ap (λ t. some t.0) sent
            ∙ ap some (send-buffered info event room) in
          rw this (
            persistent-sees rest (announce wa event) key id grown here kind now
              (length-buffered info.buffer (event ∷ []))
            ∙ ap (λ b. some (record info { buffer = b }))
                (buffered-step info.buffer (events_of key rest) event))
      | inr other ↦ rw other (
          persistent-sees rest (announce wa event) key id info
            (ap (watching id) (after ∙ rw other refl) ∙ e) kind now room)
    ]

tally-announce :
    (wa : WatchManager) (key : ByteString) (event : Event) (id : ℕ)
    → tally id (watchers_of key (announce wa event).watchers)
      ≤ tally id (watchers_of key wa.watchers)
tally-announce wa key event id =
    let after = announce-watchers wa key event in
    elim (Bool-cases (bytes_eq event.key key)) [
      | inl this ↦
          rw (after, this)
            (rw (sym ((bytes_eq_iff event.key key).0 this)) (
              tally-notify_infos (λ k. bytes_eq k event.key) (wa.event_log ++ event ∷ []) event
                (watchers_of event.key wa.watchers) id))
      | inr other ↦ rw (after, other) (omega arith)
    ]

-- A watcher that is gone stays gone, and a closed one closed.
stays_gone :
    (es : List Event) (wa : WatchManager) (key : ByteString) (id : ℕ) (info : WatcherInfo)
    → tally id (watchers_of key wa.watchers) ≡ 0
    → Mem info wa.closed
    → (watching id (watchers_of key (announce_all wa es).watchers) ≡ none)
      × Mem info (announce_all wa es).closed
stays_gone [] wa key id info t m = (tally-none id (watchers_of key wa.watchers) t, m)
stays_gone (event ∷ rest) wa key id info t m =
    stays_gone rest (announce wa event) key id info
      (omega (arith, t, tally-announce wa key event id)) ((announce-closed wa event info).0 m)

-- What a one-shot watcher of the key has become after events: it waits as before, or it was closed
-- with the first event of its key and is gone.
abbrev pub Fired : ℕ → ByteString → WatcherInfo → WatchManager → List Event → Type 0
Fired id key info wa [] = watching id (watchers_of key wa.watchers) ≡ some info
Fired id key info wa (event ∷ rest) =
    (watching id (watchers_of key wa.watchers) ≡ none)
    × Mem (record info { buffer = event ∷ [] }) wa.closed

-- A one-shot watcher that alone has its id, with nothing in its buffer, and that asks for no
-- earlier event, is sent the first event of its key and no other: then its channel is closed.
pub one_shot-fires :
    (es : List Event) (wa : WatchManager) (key : ByteString) (id : ℕ) (info : WatcherInfo)
    → watching id (watchers_of key wa.watchers) ≡ some info
    → tally id (watchers_of key wa.watchers) ≡ 1
    → info.persistent ≡ false
    → info.from_rev ≤ℤ pos 0
    → info.buffer ≡ []
    → Fired id key info (announce_all wa es) (events_of key es)
one_shot-fires [] wa key id info e t kind now empty = e
one_shot-fires (event ∷ rest) wa key id info e t kind now empty =
    let after = announce-watchers wa key event in
    elim (Bool-cases (bytes_eq event.key key)) [
      | inl this ↦
          let matches = λ (k : ByteString). bytes_eq k event.key in
          let log = wa.event_log ++ event ∷ [] in
          let there = watchers_of event.key wa.watchers in
          let sent = told_now matches log event info now in
          let taken = send-empty info event empty in
          let goes : leaves matches log event info ≡ true = rw (sent, taken) (rw kind refl) in
          let (fewer, closed) =
            leaving-notify_infos matches log event there id info
              (watched_at wa key event.key id info this e) goes in
          let same : tally id there ≡ 1 =
            ap (λ k. tally id (watchers_of k wa.watchers)) ((bytes_eq_iff event.key key).0 this)
            ∙ t in
          let loop : watchers_of key (announce wa event).watchers
              ≡ (served event.key log event there).0 =
            after ∙ rw this refl in
          let left : tally id (watchers_of key (announce wa event).watchers) ≡ 0 =
            ap (tally id) loop ∙ omega (arith, fewer, same) in
          let kept =
            subst (λ x. Mem x (served event.key log event there).1) (ap (λ s. s.0) (sent ∙ taken))
              closed in
          rw this (
            stays_gone rest (announce wa event) key id (record info { buffer = event ∷ [] }) left
              ((announce-closed wa event (record info { buffer = event ∷ [] })).1 kept))
      | inr other ↦ rw other (
          one_shot-fires rest (announce wa event) key id info
            (ap (watching id) (after ∙ rw other refl) ∙ e)
            (ap (tally id) (after ∙ rw other refl) ∙ t) kind now empty)
    ]
