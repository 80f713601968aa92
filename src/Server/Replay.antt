-- ===== src/Server/Replay.antt =====
-- server/server.go: replaying a journalled command gives the state machine that `applyLoop` reached
-- when it journalled it.
use wjetcd.Common.{
  ◌+◌, ◌≡◌, ◌≢◌, refl, ◌∙◌, sym, ap, arith, true, false, inl, inr, ◌⊎◌, List, [], ◌∷◌, ◌++◌, length,
  Option, none, some, ℤ, pos, ◌≤ℤ◌, ◌<ℤ◌, inc64_nonneg, ltb_ℤ, leb_ℤ, Bool-cases,
}
use wjetcd.Command.{
  CommandType, Command, cmd_put, cmd_get, cmd_delete, cmd_lease_grant, cmd_lease_revoke,
  cmd_lease_attach, cmd_lease_keep_alive, cmd_cas, cmd_delete_prefix, cmd_get_prefix, cmd_other,
}
use wjetcd.Kv.Counter.{Spare}
use wjetcd.Lease.{LeaseManager, get_lease, revoke_lease, revoke_lease_if_matches}
use wjetcd.Server.State.{Machine, Server, with_machine}
use wjetcd.Server.Recovery.{
  recovered, caught_up, restamp, recover_typed, takes_revision, apply_recovered_command,
  revoked_keys, effective_expiry, revoke_recovered, grant_recovered, keep_alive_recovered,
  delete_revoked,
}
use wjetcd.Server.Loop.{
  server_of, stamp, execute_typed, journal_and_execute, apply_command, live_revoke,
}
use wjetcd.Server.Agree.{
  machine-finish, live_grant-agrees, live_keep_alive-agrees, live_attach-agrees, live_cas-agrees,
  live_write-agrees, live_delete_prefix-agrees, live_revoke-agrees,
}
use wjetcd.Server.Revisions.{
  InStep, Stamped, catch_up_rev-InStep, write_recovered-InStep, cas_recovered-InStep,
  attach_recovered-InStep, delete_revoked-InStep,
}

-- Lease ids are positive.
abbrev pub HasPositiveIds : LeaseManager → Type 0
HasPositiveIds le = (id : ℤ) → id ≤ℤ pos 0 → get_lease le id ≡ none

-- A revocation of an id that no lease can have does nothing.
revoked_keys-absent :
    (le : LeaseManager) (cmd : Command)
    → get_lease le cmd.lease_id ≡ none
    → revoked_keys le cmd ≡ (le, [])
unfolding revoked_keys get_lease revoke_lease revoke_lease_if_matches
revoked_keys-absent le cmd h = ground arith

live_revoke-idle :
    (s : Server) (cmd : Command)
    → ltb_ℤ (pos 0) cmd.lease_id ≡ false
    → revoked_keys s.lease_mgr cmd ≡ (s.lease_mgr, [])
    → (live_revoke s cmd).machine ≡ revoke_recovered s.machine cmd
unfolding live_revoke revoke_recovered delete_revoked
live_revoke-idle s cmd invalid absent = rw (invalid, absent)

live_revoke-all :
    (s : Server) (cmd : Command)
    → HasPositiveIds s.lease_mgr
    → (live_revoke s cmd).machine ≡ revoke_recovered s.machine cmd
live_revoke-all s cmd ids = elim (Bool-cases (ltb_ℤ (pos 0) cmd.lease_id)) [
  | inl valid ↦ live_revoke-agrees s cmd valid
  | inr invalid ↦
      live_revoke-idle s cmd invalid
        (revoked_keys-absent s.lease_mgr cmd (ids cmd.lease_id (ground arith)))
]

pub revoke_recovered-InStep :
    (m : Machine) (cmd : Command)
    → InStep m
    → Spare (length (revoked_keys m.lease_mgr cmd).1) m.current_rev
    → InStep (revoke_recovered m cmd)
unfolding revoke_recovered
revoke_recovered-InStep m cmd h spare =
    delete_revoked-InStep (revoked_keys m.lease_mgr cmd).1
      (record m { lease_mgr = (revoked_keys m.lease_mgr cmd).0 }) h spare

-- A branch of recovery that ends in step ends where the live branch does.
settled : (m live : Machine) → InStep m → live ≡ m → caught_up (recovered m) ≡ recovered live
settled m live h e = ap recovered (catch_up_rev-InStep m h ∙ sym e)

module _ (now : ℤ) (index : ℤ) (s : Server) (cmd : Command) where
  abbrev Agrees : CommandType → Type 0
  Agrees type =
      caught_up (recover_typed type now s.machine cmd)
      ≡ recovered (server_of (execute_typed type index s cmd)).machine

  -- The commands that take a revision, with the one that they were given.
  stamped_agrees :
      (type : CommandType)
      → takes_revision type ≡ true
      → cmd.type ≡ type
      → Stamped s.machine cmd
      → Agrees type
  unfolding recover_typed execute_typed takes_revision
  stamped_agrees cmd_put t e h =
      settled _ _ (write_recovered-InStep s.machine cmd h)
        (machine-finish index _ _ ∙ live_write-agrees s cmd (inl e))
  stamped_agrees cmd_delete t e h =
      settled _ _ (write_recovered-InStep s.machine cmd h)
        (machine-finish index _ _ ∙ live_write-agrees s cmd (inr e))
  stamped_agrees cmd_cas t e h =
      settled _ _ (cas_recovered-InStep s.machine cmd h)
        (machine-finish index _ _ ∙ live_cas-agrees s cmd)
  stamped_agrees cmd_lease_attach t e h =
      settled _ _ (attach_recovered-InStep s.machine cmd h)
        (machine-finish index _ _ ∙ live_attach-agrees s cmd)
  stamped_agrees cmd_delete_prefix t e h = ap recovered (sym (live_delete_prefix-agrees s cmd))
  stamped_agrees _ t e h = cc

  -- The other commands.
  unstamped_agrees :
      (type : CommandType)
      → takes_revision type ≡ false
      → type ≢ cmd_get
      → type ≢ cmd_other
      → InStep s.machine
      → Spare (length (revoked_keys s.lease_mgr cmd).1) s.current_rev
      → HasPositiveIds s.lease_mgr
      → ((type ≡ cmd_lease_grant) ⊎ (type ≡ cmd_lease_keep_alive)
          → leb_ℤ cmd.expire_at (pos 0) ≡ false)
      → Agrees type
  unfolding recover_typed execute_typed takes_revision grant_recovered keep_alive_recovered
  unstamped_agrees cmd_lease_grant t g o h spare ids expiry =
      settled _ _ h (machine-finish index _ _ ∙ live_grant-agrees now s cmd (expiry (inl refl)))
  unstamped_agrees cmd_lease_keep_alive t g o h spare ids expiry =
      settled _ _ h
        (machine-finish index _ _ ∙ live_keep_alive-agrees now s cmd (expiry (inr refl)))
  unstamped_agrees cmd_lease_revoke t g o h spare ids expiry =
      settled _ _ (revoke_recovered-InStep s.machine cmd h spare)
        (machine-finish index _ _ ∙ live_revoke-all s cmd ids)
  unstamped_agrees cmd_get_prefix t g o h spare ids expiry = settled s.machine s.machine h refl
  unstamped_agrees cmd_get t g o h spare ids expiry = absurd (g refl)
  unstamped_agrees cmd_other t g o h spare ids expiry = absurd (o refl)
  unstamped_agrees _ t g o h spare ids expiry = cc

abbrev pub after_write : Option (List Command) → Command → Option (List Command)
after_write none cmd = none
after_write (some log) cmd = some (log ++ cmd ∷ [])

-- Whether the server keeps a journal or not, a message that is not refused reaches the switch.
pub journalled :
    (wal : Option (List Command)) (index : ℤ) (s : Server) (cmd : Command)
    → s.persistence_failed ≡ false
    → server_of (journal_and_execute true index (record s { wal = wal }) cmd)
      ≡ server_of (execute_typed cmd.type index (record s { wal = after_write wal cmd }) cmd)
unfolding journal_and_execute
journalled none index s cmd healthy = rw healthy
journalled (some log) index s cmd healthy = rw healthy

-- The stamp that `applyLoop` puts into a command is kept by recovery.
pub restamp-stamp :
    (now : ℤ) (m : Machine) (cmd : Command)
    → Spare 1 m.current_rev
    → restamp m (stamp now m cmd).1 ≡ stamp now m cmd
unfolding restamp stamp takes_revision
restamp-stamp now m cmd spare =
    ground (arith, inc64_nonneg m.current_rev (omega arith) (omega arith))

pub type-stamp : (now : ℤ) (m : Machine) (cmd : Command) → (stamp now m cmd).1.type ≡ cmd.type
unfolding stamp takes_revision
type-stamp now m cmd = ground arith

pub stamp-Stamped :
    (now : ℤ) (m : Machine) (cmd : Command)
    → takes_revision cmd.type ≡ true
    → InStep m
    → Spare 2 m.current_rev
    → Stamped (stamp now m cmd).0 (stamp now m cmd).1
unfolding stamp
stamp-Stamped now m cmd t h spare =
    let next = inc64_nonneg m.current_rev (omega arith) (omega arith) in
    rw t (refl, h.0, omega (arith, next), omega (arith, next))

pub machine-stamp :
    (now : ℤ) (m : Machine) (cmd : Command)
    → takes_revision cmd.type ≡ false
    → (stamp now m cmd).0 ≡ m
unfolding stamp
machine-stamp now m cmd t = rw t

expire_at-stamp :
    (now : ℤ) (m : Machine) (cmd : Command)
    → pos 0 <ℤ effective_expiry now cmd
    → (cmd.type ≡ cmd_lease_grant) ⊎ (cmd.type ≡ cmd_lease_keep_alive)
    → leb_ℤ (stamp now m cmd).1.expire_at (pos 0) ≡ false
unfolding stamp takes_revision
expire_at-stamp now m cmd h t = ground arith

module _ (now now' index : ℤ) (s : Server) (cmd : Command) (healthy : s.persistence_failed ≡ false)
    (in_step : InStep s.machine)
    (spare : Spare
      (2 + length (revoked_keys s.lease_mgr (stamp now s.machine cmd).1).1)
      s.current_rev)
    (ids : HasPositiveIds s.lease_mgr) (expiry : pos 0 <ℤ effective_expiry now cmd)
    (not_get : cmd.type ≢ cmd_get) (known : cmd.type ≢ cmd_other) where
  abbrev m1 : Machine
  m1 = (stamp now s.machine cmd).0

  abbrev c1 : Command
  c1 = (stamp now s.machine cmd).1

  switch_agrees :
      (wal : Option (List Command))
      → caught_up (recover_typed c1.type now' m1 c1)
        ≡ recovered
            (server_of
              (execute_typed c1.type index (record s { machine = m1; wal = wal }) c1)).machine
  switch_agrees wal =
      let same = type-stamp now s.machine cmd in
      elim (Bool-cases (takes_revision cmd.type)) [
        | inl t ↦
            stamped_agrees now' index (record s { machine = m1; wal = wal }) c1 c1.type (rw same t)
              refl (stamp-Stamped now s.machine cmd t in_step (omega arith))
        | inr t ↦
            let kept = machine-stamp now s.machine cmd t in
            unstamped_agrees now' index (record s { machine = m1; wal = wal }) c1 c1.type
              (rw same t) (rw same not_get) (rw same known) (rw kept in_step)
              (rw kept (omega arith)) (rw kept ids)
              (λ k. expire_at-stamp now s.machine cmd expiry (rw same at k))
      ]

  -- A command that the loop journals and applies is applied alike when the journal is replayed:
  -- the store, the leases and the counter are those that the loop reached, whatever the times and
  -- the index. The conditions: no journal write has failed before, the store's counter is not ahead
  -- of the server's, revisions are left for the command, lease ids are positive, the expiry that
  -- the loop sets lies after the epoch, and the command is neither CmdGet nor of an unknown type.
  pub replay_agrees :
      apply_recovered_command now' s.machine c1
      ≡ recovered (server_of (apply_command now true index s cmd)).machine
  unfolding apply_recovered_command apply_command
  replay_agrees =
      ap (λ (p : Machine × Command). caught_up (recover_typed p.1.type now' p.0 p.1))
        (restamp-stamp now s.machine cmd (omega arith))
      ∙ switch_agrees (after_write s.wal c1)
      ∙ ap (λ t. recovered t.machine) (sym (journalled s.wal index (with_machine s m1) c1 healthy))
