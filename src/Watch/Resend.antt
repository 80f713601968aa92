-- ===== src/Watch/Resend.antt =====
-- The event log that the notifying loops of server/server.go send again to a watcher with a start
-- revision.
use mathlib.Core.List.{append-nil, append_assoc}
use native.Mathlib.Numerals.{unary_clauses}
use wjetcd.Common.{
  ℕ, zero, suc, ◌+◌, ◌-◌, ◌≤◌, ◌<◌, ◌≡◌, refl, ◌∙◌, sym, ap, arith, Bool, true, false, ◌&&◌,
  if◌then◌else◌, List, [], ◌∷◌, ◌++◌, length, length-append, take, ltb, ByteString, ℤ, pos, ltb_ℤ,
  leb_ℤ, Bool-cases, inl, inr,
}
use wjetcd.Watch.{Event, WatcherInfo, channel_cap, historic, send, replay, catch_up}

-- The part of the log that a watcher from the revision `from` on is owed before an event of
-- revision `before`.
pub owed : (ByteString → Bool) → ℤ → ℤ → List Event → List Event
owed matches from before [] = []
owed matches from before (event ∷ rest) =
    if matches event.key && leb_ℤ from event.revision && ltb_ℤ event.revision before
    then historic event ∷ owed matches from before rest
    else owed matches from before rest

-- What a buffer that has room for `room` more events takes of a list of them.
abbrev pub filled : List Event → List Event → List Event
filled buffer events = buffer ++ take (channel_cap - length buffer) events

send-room :
    (info : WatcherInfo) (event : Event)
    → length info.buffer < channel_cap
    → (send info event).0 ≡ record info { buffer = info.buffer ++ event ∷ [] }
unfolding send
send-room info event h = ground arith

send-full :
    (info : WatcherInfo) (event : Event)
    → channel_cap ≤ length info.buffer
    → (send info event).0 ≡ info
unfolding send
send-full info event h = ground arith

take-step :
    (n m : ℕ) (event : Event) (events : List Event)
    → n ≡ m + 1
    → take n (event ∷ events) ≡ event ∷ take m events
take-step n m event events e = rw e (simp unary_clauses refl)

filled-room :
    (buffer events : List Event) (event : Event)
    → length buffer < channel_cap
    → filled (buffer ++ event ∷ []) events ≡ filled buffer (event ∷ events)
filled-room buffer events event room =
    let left = channel_cap - length (buffer ++ event ∷ []) in
    let longer = length-append buffer (event ∷ []) in
    append_assoc buffer (event ∷ []) (take left events)
    ∙ ap (λ l. buffer ++ l)
        (sym (take-step (channel_cap - length buffer) left event events (omega (arith, longer))))

take-none : (n : ℕ) (events : List Event) → n ≡ 0 → take n events ≡ []
take-none n events e = rw e refl

filled-full :
    (buffer events more : List Event)
    → channel_cap ≤ length buffer
    → filled buffer events ≡ filled buffer more
filled-full buffer events more full =
    let left = channel_cap - length buffer in
    let nothing : left ≡ 0 = omega arith in
    ap (λ l. buffer ++ l) (take-none left events nothing ∙ sym (take-none left more nothing))

filled-send :
    (info : WatcherInfo) (event : Event) (events : List Event)
    → filled (send info event).0.buffer events ≡ filled info.buffer (event ∷ events)
filled-send info event events = elim (Bool-cases (ltb (length info.buffer) channel_cap)) [
  | inl room ↦
      ap (λ w. filled w.buffer events) (send-room info event (ground arith))
      ∙ filled-room info.buffer events event (ground arith)
  | inr full ↦
      ap (λ w. filled w.buffer events) (send-full info event (ground arith))
      ∙ filled-full info.buffer events (event ∷ events) (ground arith)
]

from_rev-send : (info : WatcherInfo) (event : Event) → (send info event).0.from_rev ≡ info.from_rev
unfolding send
from_rev-send info event = ground arith

take-nil : (n : ℕ) → take {A = Event} n [] ≡ []
take-nil zero = refl
take-nil (suc n) = refl

-- The two tests that decide whether an event of the log is sent again.
abbrev is_owed : (ByteString → Bool) → ℤ → ℤ → Event → Bool
is_owed matches from before event =
    matches event.key && leb_ℤ from event.revision && ltb_ℤ event.revision before

replay-test :
    (matches : ByteString → Bool) (info : WatcherInfo) (event : Event) (rest : List Event)
    (before : ℤ) (b : Bool)
    → is_owed matches info.from_rev before event ≡ b
    → (replay matches info (event ∷ rest) before
        ≡ replay matches (if b then (send info (historic event)).0 else info) rest before)
      × (owed matches info.from_rev before (event ∷ rest) ≡ (
          if b
          then historic event ∷ owed matches info.from_rev before rest
          else owed matches info.from_rev before rest))
unfolding replay owed
replay-test matches info event rest before b e = (
  ap (λ c. replay matches (if c then (send info (historic event)).0 else info) rest before) e,
  ap
      (λ c.
        if c
        then historic event ∷ owed matches info.from_rev before rest
        else owed matches info.from_rev before rest)
      e,
)

replay-filled :
    (matches : ByteString → Bool) (info : WatcherInfo) (log : List Event) (before : ℤ)
    → ((replay matches info log before).buffer
        ≡ filled info.buffer (owed matches info.from_rev before log))
      × ((replay matches info log before).from_rev ≡ info.from_rev)
unfolding replay owed
replay-filled matches info [] before = (
  sym (
      ap (λ l. info.buffer ++ l) (take-nil (channel_cap - length info.buffer))
      ∙ append-nil info.buffer),
  refl,
)
replay-filled matches info (event ∷ rest) before =
    elim (Bool-cases (is_owed matches info.from_rev before event)) [
      | inl hit ↦
          let told = (send info (historic event)).0 in
          let same = from_rev-send info (historic event) in
          let (filling, kept) = replay-filled matches told rest before in
          let (run, list) = replay-test matches info event rest before true hit in
          (
            ap (λ w. w.buffer) run
                ∙ filling
                ∙ ap (λ from. filled told.buffer (owed matches from before rest)) same
                ∙ filled-send info (historic event) (owed matches info.from_rev before rest)
                ∙ ap (filled info.buffer) (sym list),
            ap (λ w. w.from_rev) run ∙ kept ∙ same,
          )
      | inr miss ↦
          let (filling, kept) = replay-filled matches info rest before in
          let (run, list) = replay-test matches info event rest before false miss in
          (
            ap (λ w. w.buffer) run ∙ filling ∙ ap (filled info.buffer) (sym list),
            ap (λ w. w.from_rev) run ∙ kept,
          )
    ]

-- Before every event, a watcher with a positive start revision is sent all the events of the log
-- that match, from that revision on and before the event's, as far as its buffer has room; since
-- the start revision stays, the next event sends them again.
pub catch_up-resends :
    (matches : ByteString → Bool) (info : WatcherInfo) (log : List Event) (before : ℤ)
    → ltb_ℤ (pos 0) info.from_rev ≡ true
    → ((catch_up matches info log before).buffer
        ≡ filled info.buffer (owed matches info.from_rev before log))
      × ((catch_up matches info log before).from_rev ≡ info.from_rev)
unfolding catch_up
catch_up-resends matches info log before started =
    rw started (replay-filled matches info log before)
