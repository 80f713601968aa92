-- ===== src/Server/Progress.antt =====
-- server/server.go: what becomes of a committed command's caller in `applyLoop`.
use wjetcd.Common.{
  ◌≡◌, refl, sym, ◌∙◌, ltb_ℤ, if◌then◌else◌, ap, arith, true, false, inl, inr, ◌⊎◌, Option, none,
  some, List, [], ◌∷◌, ◌++◌, ℤ, pos, ◌≤ℤ◌, leb_ℤ, Bool-cases,
}
use wjetcd.Command.{
  CommandType, Command, cmd_put, cmd_get, cmd_delete, cmd_lease_grant, cmd_lease_revoke,
  cmd_lease_attach, cmd_lease_keep_alive, cmd_cas, cmd_delete_prefix, cmd_get_prefix, cmd_other,
}
use wjetcd.Server.State.{
  Machine, Server, Reply, persistence_error, with_machine, notify_reply, awaits, forget,
}
use wjetcd.Kv.{delete_prefix}
use wjetcd.Server.Recovery.{catch_up_rev, revoke_each}
use wjetcd.Server.Loop.{
  Outcome, running, hung, stamp, finish, live_delete_prefix, live_revoke, live_attach, live_cas,
  live_write, live_grant, live_keep_alive, execute_typed, journal_and_execute, apply_command,
}
use wjetcd.Server.Callers.{
  KeepsCallers, then_keeps, notify_reply-answers, replies-announce_deletions,
  live_revoke-KeepsCallers, live_attach-KeepsCallers, live_cas-KeepsCallers,
  live_write-KeepsCallers, forget-idle,
}

-- What a server has become when it answered the caller of an index, if there is one: he was sent one
-- reply and no longer waits, nobody else was sent any, all others wait as before, and the index
-- counts as applied.
pub record IsAnswered (index : ℤ) (s s' : Server) : Type 0 where
  pub reply : Reply
  pub sent :
      s'.replies ≡ (if awaits index s.pending then s.replies ++ (index, reply) ∷ [] else s.replies)
  pub waiting : s'.pending ≡ forget index s.pending
  pub applied : index ≤ℤ s'.last_applied

abbrev pub Answers : ℤ → Server → Outcome → Type 0
Answers index s out = (s' : Server) × (out ≡ running s') × IsAnswered index s s'

replies-notify_reply :
    (s : Server) (index : ℤ) (reply : Reply)
    → ((notify_reply s index reply).replies
        ≡ (if awaits index s.pending then s.replies ++ (index, reply) ∷ [] else s.replies))
      × ((notify_reply s index reply).pending ≡ forget index s.pending)
unfolding notify_reply
replies-notify_reply s index reply = elim (Bool-cases (awaits index s.pending)) [
  | inl waits ↦ rw (notify_reply, waits) (refl, refl)
  | inr idle ↦ rw (notify_reply, idle) (refl, sym (forget-idle index s.pending idle))
]

-- The last index is then at least the one applied.
abbrev counted : ℤ → Server → Server
counted index s = record s {
  last_applied = if ltb_ℤ s.last_applied index then index else s.last_applied;
}

applied-counted : (index : ℤ) (s : Server) → index ≤ℤ (counted index s).last_applied
applied-counted index s = ground arith

finish-Answers :
    (index : ℤ) (s0 s : Server) (reply : Reply)
    → pos 0 ≤ℤ index
    → KeepsCallers s0 s
    → Answers index s0 (finish index s reply)
unfolding finish
finish-Answers index s0 s reply h (replies, pending) =
    let counts : leb_ℤ (pos 0) index ≡ true = ground arith in
    let (sent, waiting) = replies-notify_reply s index reply in
    (
      counted index (notify_reply s index reply),
      rw (finish, counts) refl,
      record {
        reply = reply;
        sent = rw (sym pending, sym replies) sent;
        waiting = waiting ∙ ap (forget index) pending;
        applied = applied-counted index (notify_reply s index reply);
      },
    )

-- The three kinds of command in whose branches the loop waits for a lock that it holds itself.
pub data Hangs : CommandType → Type 0 where
  get_hangs : Hangs cmd_get
  get_prefix_hangs : Hangs cmd_get_prefix
  delete_prefix_hangs : Hangs cmd_delete_prefix

execute_typed-Answers :
    (type : CommandType) (index : ℤ) (s0 s : Server) (cmd : Command)
    → pos 0 ≤ℤ index
    → KeepsCallers s0 s
    → Hangs type ⊎ Answers index s0 (execute_typed type index s cmd)
unfolding execute_typed live_grant live_keep_alive
execute_typed-Answers cmd_get index s0 s cmd h k = inl get_hangs
execute_typed-Answers cmd_get_prefix index s0 s cmd h k = inl get_prefix_hangs
execute_typed-Answers cmd_delete_prefix index s0 s cmd h k = inl delete_prefix_hangs
execute_typed-Answers cmd_lease_grant index s0 s cmd h k = inr (finish-Answers index s0 _ _ h k)
execute_typed-Answers cmd_lease_keep_alive index s0 s cmd h k =
    inr (finish-Answers index s0 _ _ h k)
execute_typed-Answers cmd_lease_revoke index s0 s cmd h k = inr (
    finish-Answers index s0 _ _ h
      (then_keeps s0 s (live_revoke s cmd) k (live_revoke-KeepsCallers s cmd)))
execute_typed-Answers cmd_lease_attach index s0 s cmd h k = inr (
    finish-Answers index s0 _ _ h
      (then_keeps s0 s (live_attach s cmd) k (live_attach-KeepsCallers s cmd)))
execute_typed-Answers cmd_cas index s0 s cmd h k = inr (
    finish-Answers index s0 _ _ h
      (then_keeps s0 s (live_cas s cmd).0 k (live_cas-KeepsCallers s cmd)))
execute_typed-Answers _ index s0 s cmd h k = inr (
    finish-Answers index s0 _ _ h
      (then_keeps s0 s (live_write s cmd).0 k (live_write-KeepsCallers s cmd)))

-- A message that is not refused, with its journal write done, reaches the switch.
reaches_switch :
    (wal : Option (List Command)) (index : ℤ) (s : Server) (cmd : Command)
    → s.persistence_failed ≡ false
    → (s' : Server) × (journal_and_execute true index (record s { wal = wal }) cmd
        ≡ execute_typed cmd.type index s' cmd)
      × (s'.replies ≡ s.replies)
      × (s'.pending ≡ s.pending)
unfolding journal_and_execute
reaches_switch none index s cmd healthy = (record s { wal = none }, rw healthy refl, refl, refl)
reaches_switch (some log) index s cmd healthy =
    (record s { wal = some (log ++ cmd ∷ []) }, rw healthy refl, refl, refl)

type-stamp : (now : ℤ) (m : Machine) (cmd : Command) → (stamp now m cmd).1.type ≡ cmd.type
unfolding stamp
type-stamp now m cmd = ground arith

pub apply_command-switch :
    (now index : ℤ) (s : Server) (cmd : Command)
    → s.persistence_failed ≡ false
    → (s' : Server) × (stamped : Command) × (apply_command now true index s cmd
        ≡ execute_typed cmd.type index s' stamped)
      × (s'.replies ≡ s.replies)
      × (s'.pending ≡ s.pending)
      × (stamped.type ≡ cmd.type)
unfolding apply_command
apply_command-switch now index s cmd healthy =
    let stamped = (stamp now s.machine cmd).1 in
    let (s', e, r, p) =
      reaches_switch s.wal index (with_machine s (stamp now s.machine cmd).0) stamped healthy in
    let same = type-stamp now s.machine cmd in
    (s', stamped, e ∙ ap (λ t. execute_typed t index s' stamped) same, r, p, same)

-- A healthy server whose journal takes the write answers every command with a valid index that is
-- not a read, a prefix read or a prefix deletion: the loop goes on, the caller of the index, if one
-- waits, was sent one reply and no longer waits, no other caller was sent any, all others wait as
-- before, and the loop counts the index as applied.
pub apply_command-Answers :
    (now index : ℤ) (s : Server) (cmd : Command)
    → s.persistence_failed ≡ false
    → pos 0 ≤ℤ index
    → Hangs cmd.type ⊎ Answers index s (apply_command now true index s cmd)
apply_command-Answers now index s cmd healthy h =
    let (s', stamped, e, r, p, t) = apply_command-switch now index s cmd healthy in
    rw e (execute_typed-Answers cmd.type index s s' stamped h (r, p))

execute_typed-hangs :
    (type : CommandType) (index : ℤ) (s : Server) (cmd : Command)
    → Hangs type
    → (s' : Server) × (execute_typed type index s cmd ≡ hung s')
      × (s'.replies ≡ s.replies)
      × (s'.pending ≡ s.pending)
unfolding execute_typed live_delete_prefix
execute_typed-hangs cmd_get index s cmd get_hangs = (s, refl, refl, refl)
execute_typed-hangs cmd_get_prefix index s cmd get_prefix_hangs = (s, refl, refl, refl)
execute_typed-hangs cmd_delete_prefix index s cmd delete_prefix_hangs =
    let (store, deleted) = delete_prefix s.store cmd.prefix in
    let m =
      catch_up_rev
        (record s.machine { store = store; lease_mgr = revoke_each s.lease_mgr deleted }) in
    let kept = replies-announce_deletions (with_machine s m) deleted in
    (live_delete_prefix s cmd, refl, kept.0, kept.1)
execute_typed-hangs cmd_put index s cmd h = elim h [ ]
execute_typed-hangs cmd_delete index s cmd h = elim h [ ]
execute_typed-hangs cmd_lease_grant index s cmd h = elim h [ ]
execute_typed-hangs cmd_lease_revoke index s cmd h = elim h [ ]
execute_typed-hangs cmd_lease_attach index s cmd h = elim h [ ]
execute_typed-hangs cmd_lease_keep_alive index s cmd h = elim h [ ]
execute_typed-hangs cmd_cas index s cmd h = elim h [ ]
execute_typed-hangs cmd_other index s cmd h = elim h [ ]

-- On a healthy server whose journal takes the write, a committed read, prefix read or prefix
-- deletion hangs the loop, and no reply was sent: every caller that waited still waits.
pub apply_command-hangs :
    (now index : ℤ) (s : Server) (cmd : Command)
    → s.persistence_failed ≡ false
    → Hangs cmd.type
    → (s' : Server) × (apply_command now true index s cmd ≡ hung s')
      × (s'.replies ≡ s.replies)
      × (s'.pending ≡ s.pending)
apply_command-hangs now index s cmd healthy h =
    let (s1, stamped, e, r, p, t) = apply_command-switch now index s cmd healthy in
    let (s2, f, r', p') = execute_typed-hangs cmd.type index s1 stamped h in
    (s2, e ∙ f, r' ∙ r, p' ∙ p)

pub stores-stamp :
    (now : ℤ) (m : Machine) (cmd : Command)
    → ((stamp now m cmd).0.store ≡ m.store) × ((stamp now m cmd).0.lease_mgr ≡ m.lease_mgr)
unfolding stamp
stores-stamp now m cmd = ground arith

-- A reply changes nothing but who waits and what was sent.
notify_reply-keeps :
    (s : Server) (index : ℤ) (reply : Reply)
    → ((notify_reply s index reply).machine ≡ s.machine)
      × ((notify_reply s index reply).wal ≡ s.wal)
      × ((notify_reply s index reply).last_applied ≡ s.last_applied)
      × ((notify_reply s index reply).persistence_failed ≡ s.persistence_failed)
unfolding notify_reply
notify_reply-keeps s index reply = ground arith

write_fails :
    (index : ℤ) (s : Server) (cmd : Command) (log : List Command)
    → s.persistence_failed ≡ false
    → s.wal ≡ some log
    → journal_and_execute false index s cmd
      ≡ running (notify_reply (record s { persistence_failed = true }) index persistence_error)
unfolding journal_and_execute
write_fails index s cmd log healthy kept = ground arith

-- A journal write that fails on a healthy server leaves the store, the leases, the journal and the
-- last applied index as they were, and from then on the server counts as failed and goes on.
apply_command-failed_write :
    (now index : ℤ) (s : Server) (cmd : Command) (log : List Command)
    → s.persistence_failed ≡ false
    → s.wal ≡ some log
    → (s' : Server) × (apply_command now false index s cmd ≡ running s')
      × (s'.machine.store ≡ s.machine.store)
      × (s'.machine.lease_mgr ≡ s.machine.lease_mgr)
      × (s'.wal ≡ some log)
      × (s'.last_applied ≡ s.last_applied)
      × (s'.persistence_failed ≡ true)
      × (awaits index s'.pending ≡ false)
unfolding apply_command
apply_command-failed_write now index s cmd log healthy kept =
    let m = (stamp now s.machine cmd).0 in
    let broken = record (with_machine s m) { persistence_failed = true } in
    let answered = notify_reply-answers broken index persistence_error in
    let (same, journal, index_kept, failure) = notify_reply-keeps broken index persistence_error in
    let (store, leases) = stores-stamp now s.machine cmd in
    (
      notify_reply broken index persistence_error,
      write_fails index (with_machine s m) (stamp now s.machine cmd).1 log healthy kept,
      ap (λ n. n.store) same ∙ store,
      ap (λ n. n.lease_mgr) same ∙ leases,
      journal ∙ kept,
      index_kept,
      failure,
      answered,
    )
