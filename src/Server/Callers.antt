-- ===== src/Server/Callers.antt =====
-- server/server.go: which code of `applyLoop` leaves the waiting callers alone.
use wjetcd.Common.{
  ℕ, ◌≡◌, refl, ◌∙◌, ltb_ℤ, inc64, ap, arith, false, inl, inr, List, [], ◌∷◌, ℤ, pos, eqb_ℤ,
  Bool-cases,
}
use wjetcd.Command.{Command}
use wjetcd.Server.State.{Server, Reply, with_machine, notify_watchers, notify_reply, awaits, forget}
use wjetcd.Kv.{apply}
use wjetcd.Server.Recovery.{deletion, revoked_keys}
use wjetcd.Server.Loop.{
  announce_deletions, delete_and_notify, live_revoke, live_attach, live_cas, live_write,
}

pub awaits-forget : (index : ℤ) (l : List ℤ) → awaits index (forget index l) ≡ false
awaits-forget index [] = refl
awaits-forget index (i ∷ rest) = elim (Bool-cases (eqb_ℤ i index)) [
  | inl same ↦ rw same (awaits-forget index rest)
  | inr other ↦ rw (other, other) (awaits-forget index rest)
]

pub notify_reply-answers :
    (s : Server) (index : ℤ) (reply : Reply)
    → awaits index (notify_reply s index reply).pending ≡ false
unfolding notify_reply
notify_reply-answers s index reply = elim (Bool-cases (awaits index s.pending)) [
  | inl waits ↦ rw waits (awaits-forget index s.pending)
  | inr idle ↦ rw idle idle
]

pub replies-notify_watchers :
    (s : Server) (cmd : Command)
    → ((notify_watchers s cmd).replies ≡ s.replies) × ((notify_watchers s cmd).pending ≡ s.pending)
unfolding notify_watchers
replies-notify_watchers s cmd = ground arith

-- Announcing changes the watchers alone.
pub replies-announce_deletions :
    (s : Server) (keys : List (List ℕ))
    → ((announce_deletions s keys).replies ≡ s.replies)
      × ((announce_deletions s keys).pending ≡ s.pending)
unfolding announce_deletions
replies-announce_deletions s [] = (refl, refl)
replies-announce_deletions s (key ∷ rest) =
    let told = replies-notify_watchers s (deletion key s.machine.current_rev) in
    let others =
      replies-announce_deletions (notify_watchers s (deletion key s.machine.current_rev)) rest in
    (others.0 ∙ told.0, others.1 ∙ told.1)

-- Neither who waits nor what was sent changes.
abbrev pub KeepsCallers : Server → Server → Type 0
KeepsCallers s s' = (s'.replies ≡ s.replies) × (s'.pending ≡ s.pending)

pub then_keeps : (a b c : Server) → KeepsCallers a b → KeepsCallers b c → KeepsCallers a c
then_keeps a b c p q = (q.0 ∙ p.0, q.1 ∙ p.1)

delete_and_notify-KeepsCallers :
    (s : Server) (keys : List (List ℕ)) → KeepsCallers s (delete_and_notify s keys)
unfolding delete_and_notify
delete_and_notify-KeepsCallers s [] = (refl, refl)
delete_and_notify-KeepsCallers s (key ∷ rest) =
    let rev = inc64 s.machine.current_rev in
    let m = record s.machine { store = (apply s.store (deletion key rev)).0; current_rev = rev } in
    let told = replies-notify_watchers (with_machine s m) (deletion key rev) in
    let others =
      delete_and_notify-KeepsCallers (notify_watchers (with_machine s m) (deletion key rev)) rest in
    (others.0 ∙ told.0, others.1 ∙ told.1)

pub live_revoke-KeepsCallers : (s : Server) (cmd : Command) → KeepsCallers s (live_revoke s cmd)
unfolding live_revoke
live_revoke-KeepsCallers s cmd = elim (Bool-cases (ltb_ℤ (pos 0) cmd.lease_id)) [
  | inl named ↦
      let (le, revoked) = revoked_keys s.lease_mgr cmd in
      rw (live_revoke, named)
        (delete_and_notify-KeepsCallers (with_machine s (record s.machine { lease_mgr = le }))
          revoked)
  | inr unnamed ↦ rw (live_revoke, unnamed) (refl, refl)
]

pub live_attach-KeepsCallers : (s : Server) (cmd : Command) → KeepsCallers s (live_attach s cmd)
unfolding live_attach
live_attach-KeepsCallers s cmd = ground arith

pub live_cas-KeepsCallers : (s : Server) (cmd : Command) → KeepsCallers s (live_cas s cmd).0
unfolding live_cas notify_watchers
live_cas-KeepsCallers s cmd = ground arith

pub live_write-KeepsCallers : (s : Server) (cmd : Command) → KeepsCallers s (live_write s cmd).0
unfolding live_write
live_write-KeepsCallers s cmd = replies-notify_watchers _ cmd

pub forget-idle : (index : ℤ) (l : List ℤ) → awaits index l ≡ false → forget index l ≡ l
forget-idle index [] h = refl
forget-idle index (i ∷ rest) h = elim (Bool-cases (eqb_ℤ i index)) [
  | inl same ↦ cc (rw same at h)
  | inr other ↦ rw other (ap (λ l. i ∷ l) (forget-idle index rest (rw other at h)))
]
