-- ===== src/Server/Deliver.antt =====
-- What the watchers of one key are sent by `notifyWatchers` of server/server.go.
pub mod Manager
pub mod Runs
use mathlib.Core.List.{Mem, mem-cons_self, mem-cons_of_mem}
use wjetcd.Common.{
  ℕ, ◌+◌, ◌≤◌, ◌<◌, ◌≡◌, refl, sym, ap, ◌∙◌, arith, Bool, true, false, ◌&&◌, not, inl, inr,
  Bool-cases, if◌then◌else◌, ltb, ◌==◌, ==_iff, Option, Option-cases, none, some, List, [], ◌∷◌,
  ◌++◌, length, ByteString, bytes_eq, bytes_eq_iff, bytes_key, ℤ, pos, ◌≤ℤ◌, ltb_ℤ, leb_ℤ, Map,
  lookup, insert, delete, lookup-insert, lookup-delete,
}
use wjetcd.Watch.{
  Event, WatcherInfo, WatchManager, watchers_of, set_nonempty, send, historic, replay, catch_up,
  notify_infos, notify_exact, notify_prefix, channel_cap,
}
use wjetcd.Server.State.{announce}

-- The first watcher with the id.
abbrev pub watching : ℕ → List WatcherInfo → Option WatcherInfo
watching id [] = none
watching id (info ∷ rest) = if info.id == id then some info else watching id rest

-- What identifies a watcher, and how it is served.
abbrev pub settings : WatcherInfo → ℕ × Bool × ℤ × ℤ
settings info = (info.id, info.persistent, info.expire_at, info.from_rev)

pub settings-send :
    (info : WatcherInfo) (event : Event) → settings (send info event).0 ≡ settings info
unfolding send
settings-send info event = ground arith

settings-if :
    (b : Bool) (info : WatcherInfo) (event : Event)
    → settings (if b then (send info event).0 else info) ≡ settings info
settings-if true info event = settings-send info event
settings-if false info event = refl

settings-replay :
    (matches : ByteString → Bool) (info : WatcherInfo) (log : List Event) (before : ℤ)
    → settings (replay matches info log before) ≡ settings info
unfolding replay
settings-replay matches info [] before = refl
settings-replay matches info (event ∷ rest) before =
    let sent =
      matches event.key && leb_ℤ info.from_rev event.revision && ltb_ℤ event.revision before in
    settings-replay matches (if sent then (send info (historic event)).0 else info) rest before
    ∙ settings-if sent info (historic event)

settings-catch_up :
    (matches : ByteString → Bool) (info : WatcherInfo) (log : List Event) (before : ℤ)
    → settings (catch_up matches info log before) ≡ settings info
unfolding catch_up
settings-catch_up matches info log before = elim (Bool-cases (ltb_ℤ (pos 0) info.from_rev)) [
  | inl from ↦ rw from (settings-replay matches info log before)
  | inr now ↦ rw now refl
]

-- A watcher as a round of the loop leaves it, and whether it stays.
abbrev pub told : (ByteString → Bool) → List Event → Event → WatcherInfo → WatcherInfo × Bool
told matches log event info = send (catch_up matches info log event.revision) event

settings-told :
    (matches : ByteString → Bool) (log : List Event) (event : Event) (info : WatcherInfo)
    → settings (told matches log event info).0 ≡ settings info
settings-told matches log event info =
    settings-send (catch_up matches info log event.revision) event
    ∙ settings-catch_up matches info log event.revision

-- Whether the loop lets go of the watcher.
abbrev pub leaves : (ByteString → Bool) → List Event → Event → WatcherInfo → Bool
leaves matches log event info =
    (told matches log event info).1 && not (told matches log event info).0.persistent

-- After the loop the watcher is there as it was served, or no more.
pub watching-notify_infos :
    (matches : ByteString → Bool) (log : List Event) (event : Event) (infos : List WatcherInfo)
    (id : ℕ) (info : WatcherInfo)
    → watching id infos ≡ some info
    → leaves matches log event info ≡ false
    → watching id (notify_infos matches log event infos).0 ≡ some (told matches log event info).0
unfolding notify_infos
watching-notify_infos matches log event [] id info e stays = cc
watching-notify_infos matches log event (other ∷ rest) id info e stays =
    let same : (told matches log event other).0.id ≡ other.id =
      ap (λ t. t.0) (settings-told matches log event other) in
    elim (Bool-cases (other.id == id)) [
      | inl this ↦
          let is : other ≡ info = ground (arith, this, e) in
          rw is (rw stays (ground (arith, is, same, this)))
      | inr another ↦
          let later =
            watching-notify_infos matches log event rest id info (rw another at e) stays in
          elim (Bool-cases (leaves matches log event other)) [
            | inl gone ↦ rw gone later
            | inr kept ↦ rw (kept, same, another) later
          ]
    ]

-- How many watchers have the id.
abbrev pub tally : ℕ → List WatcherInfo → ℕ
tally id [] = 0
tally id (info ∷ rest) = (if info.id == id then 1 else 0) + tally id rest

pub tally-none : (id : ℕ) (infos : List WatcherInfo) → tally id infos ≡ 0 → watching id infos ≡ none
tally-none id [] e = refl
tally-none id (info ∷ rest) e = elim (Bool-cases (info.id == id)) [
  | inl this ↦ let counted = rw this at e in absurd (omega (arith, counted))
  | inr another ↦
      let counted = rw another at e in rw another (tally-none id rest (omega (arith, counted)))
]

pub tally-notify_infos :
    (matches : ByteString → Bool) (log : List Event) (event : Event) (infos : List WatcherInfo)
    (id : ℕ)
    → tally id (notify_infos matches log event infos).0 ≤ tally id infos
unfolding notify_infos
tally-notify_infos matches log event [] id = omega arith
tally-notify_infos matches log event (other ∷ rest) id =
    let same : (told matches log event other).0.id ≡ other.id =
      ap (λ t. t.0) (settings-told matches log event other) in
    let later = tally-notify_infos matches log event rest id in
    elim (Bool-cases (leaves matches log event other)) [
      | inl gone ↦ rw gone (omega (arith, later))
      | inr kept ↦ rw (kept, same) (omega (arith, later))
    ]

-- A watcher that the loop lets go of is closed with what it was sent, and there is one less.
pub leaving-notify_infos :
    (matches : ByteString → Bool) (log : List Event) (event : Event) (infos : List WatcherInfo)
    (id : ℕ) (info : WatcherInfo)
    → watching id infos ≡ some info
    → leaves matches log event info ≡ true
    → (tally id (notify_infos matches log event infos).0 < tally id infos)
      × Mem (told matches log event info).0 (notify_infos matches log event infos).1
unfolding notify_infos
leaving-notify_infos matches log event [] id info e goes = cc
leaving-notify_infos matches log event (other ∷ rest) id info e goes =
    let same : (told matches log event other).0.id ≡ other.id =
      ap (λ t. t.0) (settings-told matches log event other) in
    elim (Bool-cases (other.id == id)) [
      | inl this ↦
          let is : other ≡ info = ground (arith, this, e) in
          let fewer = tally-notify_infos matches log event rest id in
          rw is (rw goes (ground (arith, fewer, is, this), mem-cons_self))
      | inr another ↦
          let (fewer, closed) =
            leaving-notify_infos matches log event rest id info (rw another at e) goes in
          elim (Bool-cases (leaves matches log event other)) [
            | inl gone ↦ rw (gone, another) (omega (arith, fewer), mem-cons_of_mem _ closed)
            | inr kept ↦ rw (kept, same, another) (omega (arith, fewer), closed)
          ]
    ]
