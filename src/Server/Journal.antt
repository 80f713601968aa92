-- ===== src/Server/Journal.antt =====
-- server/server.go: a journal that `applyLoop` wrote over many commands, and its replay.
use mathlib.Core.Path.{subst}
use wjetcd.Common.{
  ℕ, suc, ◌+◌, ◌≡◌, ◌≢◌, refl, ◌∙◌, sym, ap, arith, true, false, inl, inr, ◌⊎◌, List, [], ◌∷◌, ◌++◌,
  length, none, some, ℤ, pos, ◌≤ℤ◌, ◌<ℤ◌, max_int64, Bool-cases, eqb_ℤ_iff, int_eq, lookup,
}
use wjetcd.Command.{Command, cmd_get, cmd_other}
use wjetcd.Kv.{doomed_keys}
use wjetcd.Kv.Counter.{Spare}
use wjetcd.Lease.{Lease, LeaseManager, get_lease}
use wjetcd.Server.State.{Machine, Server}
use wjetcd.Server.Recovery.{
  Recovered, recovered, failed, stuck, caught_up, catch_up_rev, takes_revision, effective_expiry,
  recover_typed, apply_recovered_command, replay_entries, revoked_keys,
}
use wjetcd.Server.Loop.{running, server_of, stamp, apply_command}
use wjetcd.Server.Revisions.{InStep}
use wjetcd.Server.Health.{journal_of-apply_command}
use wjetcd.Server.Progress.{stores-stamp}
use wjetcd.Lease.Entries.{Listed}
use wjetcd.Lease.Table.{HasLeases}
use wjetcd.Kv.Valid.{IsValid}
use wjetcd.Server.Stores.{Stores, revised-Stores, unrevised-Stores}
use wjetcd.Server.Invariant.{Leases, recover_typed-Leases}
use wjetcd.Server.Replay.{
  HasPositiveIds, restamp-stamp, stamp-Stamped, machine-stamp, type-stamp, replay_agrees,
}

Listed-absent :
    (top : ℤ) (m : List (ℤ × Lease)) (id : ℤ) → Listed top m → id ≤ℤ pos 0 → lookup id m ≡ none
unfolding lookup
Listed-absent top [] id h low = refl
Listed-absent top ((j, l) ∷ m) id h low =
    ground (arith, h.0.positive, Listed-absent top m id h.2 low, eqb_ℤ_iff j id)

HasLeases-HasPositiveIds : (le : LeaseManager) → HasLeases le → HasPositiveIds le
unfolding get_lease
HasLeases-HasPositiveIds le h id low = Listed-absent le.lease_id le.leases id h.listed low

-- The invariant of a server that runs: no journal write has failed, the counters are in step, the
-- leases can be restored from a snapshot, and the store is valid.
pub record IsSound (s : Server) : Type 0 where
  pub healthy : s.persistence_failed ≡ false
  pub in_step : InStep s.machine
  pub leases : HasLeases s.lease_mgr
  pub store : IsValid s.store

-- What a command asks for: a kind that is written to the journal and can be replayed, an expiry
-- after the epoch, and counters with room for the revisions and the lease id that it takes.
pub record IsPossible (now : ℤ) (s : Server) (cmd : Command) : Type 0 where
  pub not_get : cmd.type ≢ cmd_get
  pub known : cmd.type ≢ cmd_other
  pub expiry : pos 0 <ℤ effective_expiry now cmd
  pub spare :
      Spare (2 + length (revoked_keys s.lease_mgr (stamp now s.machine cmd).1).1) s.current_rev
  pub spare_prefix : Spare (length (doomed_keys s.store cmd.prefix)) s.machine.store.current_rev
  pub spare_lease : s.lease_mgr.lease_id <ℤ max_int64

recovered-injective : {a b : Machine} → recovered a ≡ recovered b → a ≡ b
recovered-injective e = cc

-- What is kept of a machine.
abbrev Kept : Machine → Type 0
Kept m = InStep m × HasLeases m.lease_mgr × IsValid m.store

catch_up_rev-Kept : (m : Machine) → IsValid m.store → HasLeases m.lease_mgr → Kept (catch_up_rev m)
unfolding catch_up_rev
catch_up_rev-Kept m v h = ground (arith, h, v, v.counted)

caught_up-Kept :
    (r : Recovered) (m : Machine) → Stores r → Leases r → caught_up r ≡ recovered m → Kept m
caught_up-Kept (recovered m0) m v l e =
    subst Kept (recovered-injective e) (catch_up_rev-Kept m0 v l)
caught_up-Kept failed m v l e = cc
caught_up-Kept stuck m v l e = cc

prefix-stamp : (now : ℤ) (m : Machine) (cmd : Command) → (stamp now m cmd).1.prefix ≡ cmd.prefix
unfolding stamp
prefix-stamp now m cmd = ground arith

expiry-stamp :
    (now : ℤ) (m : Machine) (cmd : Command)
    → pos 0 <ℤ effective_expiry now cmd
    → pos 0 <ℤ effective_expiry now (stamp now m cmd).1
unfolding stamp effective_expiry takes_revision
expiry-stamp now m cmd after = ground (arith, after)

module _ (now index : ℤ) (s : Server) (cmd : Command) (v : IsSound s)
    (p : IsPossible now s cmd) where
  abbrev reached : Server
  reached = server_of (apply_command now true index s cmd)

  -- Replayed at any time, the command gives the machine that the loop reached.
  replayed :
      (now' : ℤ)
      → apply_recovered_command now' s.machine (stamp now s.machine cmd).1
        ≡ recovered reached.machine
  replayed now' =
      replay_agrees now now' index s cmd v.healthy v.in_step p.spare
        (HasLeases-HasPositiveIds s.lease_mgr v.leases) p.expiry p.not_get p.known

  switched :
      let (m, stamped) = stamp now s.machine cmd in
      caught_up (recover_typed stamped.type now m stamped) ≡ recovered reached.machine
  unfolding apply_recovered_command
  switched =
      let spare = p.spare in
      sym (
        ap (λ (q : Machine × Command). caught_up (recover_typed q.1.type now q.0 q.1))
          (restamp-stamp now s.machine cmd (omega arith)))
      ∙ replayed now

  recovery_Stores :
      let (m, stamped) = stamp now s.machine cmd in
      Stores (recover_typed stamped.type now m stamped)
  recovery_Stores =
      let (m, stamped) = stamp now s.machine cmd in
      let same = type-stamp now s.machine cmd in
      let stores = stores-stamp now s.machine cmd in
      let spare = p.spare in
      elim (Bool-cases (takes_revision cmd.type)) [
        | inl t ↦
            revised-Stores stamped.type now m stamped (rw same t)
              (stamp-Stamped now s.machine cmd t v.in_step (omega arith))
              (rw (stores.0, prefix-stamp now s.machine cmd) p.spare_prefix) (rw stores.0 v.store)
        | inr t ↦
            let kept = machine-stamp now s.machine cmd t in
            unrevised-Stores stamped.type now m stamped (rw same t) (rw kept v.in_step)
              (rw kept (omega arith)) (rw kept v.store)
      ]

  -- The loop keeps the invariant.
  IsSound-step :
      (log : List Command)
      → s.wal ≡ some log
      → IsSound reached × (reached.wal ≡ some (log ++ (stamp now s.machine cmd).1 ∷ []))
  IsSound-step log kept =
      let (m, stamped) = stamp now s.machine cmd in
      let stores = stores-stamp now s.machine cmd in
      let journal = journal_of-apply_command now index s cmd log v.healthy kept in
      let keeps =
        caught_up-Kept (recover_typed stamped.type now m stamped) reached.machine recovery_Stores
          (recover_typed-Leases stamped.type now m stamped (expiry-stamp now s.machine cmd p.expiry)
            (rw stores.1 p.spare_lease) (rw stores.1 v.leases))
          switched in
      (
        record {
          healthy = ap (λ j. j.1) journal;
          in_step = keeps.0;
          leases = keeps.1;
          store = keeps.2;
        },
        ap (λ j. j.0) journal,
      )

-- The entries of a journal, each with the time at which it is replayed.
abbrev pub dated : (ℕ → ℤ) → ℕ → List Command → List (ℤ × Command)
dated clock n [] = []
dated clock n (cmd ∷ rest) = (clock n, cmd) ∷ dated clock (suc n) rest

dated-append :
    (clock : ℕ → ℤ) (n : ℕ) (log : List Command) (cmd : Command)
    → (now : ℤ) × (dated clock n (log ++ cmd ∷ []) ≡ dated clock n log ++ (now, cmd) ∷ [])
dated-append clock n [] cmd = (clock n, refl)
dated-append clock n (c ∷ rest) cmd =
    let (now, e) = dated-append clock (suc n) rest cmd in (now, ap (λ l. (clock n, c) ∷ l) e)

pub Recovered-cases :
    (r : Recovered) → (r ≡ failed) ⊎ (r ≡ stuck) ⊎ ((m : Machine) × (r ≡ recovered m))
Recovered-cases (recovered m) = inr (inr (m, refl))
Recovered-cases failed = inl refl
Recovered-cases stuck = inr (inl refl)

replay_entries-append :
    (entries more : List (ℤ × Command)) (m m' : Machine)
    → replay_entries m entries ≡ recovered m'
    → replay_entries m (entries ++ more) ≡ replay_entries m' more
unfolding replay_entries
replay_entries-append [] more m m' e = ap (λ n. replay_entries n more) (recovered-injective e)
replay_entries-append ((now, cmd) ∷ rest) more m m' e =
    elim (Recovered-cases (apply_recovered_command now m cmd)) [
      | inl f ↦ cc (rw (f, replay_entries) at e)
      | inr (inl f) ↦ cc (rw (f, replay_entries) at e)
      | inr (inr (m1, f)) ↦
          rw (replay_entries, f)
            (replay_entries-append rest more m1 m' (rw (replay_entries, f) at e))
    ]

-- The commands of the server's journal, replayed from the machine `m0`, gives the server's machine.
pub record IsRecorded (clock : ℕ → ℤ) (m0 : Machine) (s : Server) : Type 0 where
  pub log : List Command
  pub written : s.wal ≡ some log
  pub replays : replay_entries m0 (dated clock 0 log) ≡ recovered s.machine

-- The loop goes through any number of possible commands, after each of which it goes on.
pub data Run (s : Server) : Server → Type 0 where
  here : Run s s
  next :
      {t u : Server} (now index : ℤ) (cmd : Command)
      → Run s t
      → IsPossible now t cmd
      → apply_command now true index t cmd ≡ running u
      → Run s u

pub replays-step :
    (clock : ℕ → ℤ) (m0 : Machine) (now index : ℤ) (s : Server) (cmd : Command)
    → IsSound s
    → IsPossible now s cmd
    → (r : IsRecorded clock m0 s)
    → replay_entries m0 (dated clock 0 (r.log ++ (stamp now s.machine cmd).1 ∷ []))
      ≡ recovered (server_of (apply_command now true index s cmd)).machine
unfolding replay_entries
replays-step clock m0 now index s cmd v p r =
    let stamped = (stamp now s.machine cmd).1 in
    let (now', last) = dated-append clock 0 r.log stamped in
    ap (replay_entries m0) last
    ∙ replay_entries-append (dated clock 0 r.log) ((now', stamped) ∷ []) m0 s.machine r.replays
    ∙ rw (replay_entries, replayed now index s cmd v p now') refl

IsRecorded-step :
    (clock : ℕ → ℤ) (m0 : Machine) (now index : ℤ) (s : Server) (cmd : Command)
    → IsSound s
    → IsPossible now s cmd
    → IsRecorded clock m0 s
    → IsSound (server_of (apply_command now true index s cmd))
      × IsRecorded clock m0 (server_of (apply_command now true index s cmd))
IsRecorded-step clock m0 now index s cmd v p r =
    let stamped = (stamp now s.machine cmd).1 in
    let (sound, wal) = IsSound-step now index s cmd v p r.log r.written in
    (
      sound,
      record {
        log = r.log ++ stamped ∷ [];
        written = wal;
        replays = replays-step clock m0 now index s cmd v p r;
      },
    )

pub Run-IsRecorded :
    {s t : Server} (clock : ℕ → ℤ) (m0 : Machine)
    → IsSound s
    → IsRecorded clock m0 s
    → Run s t
    → IsSound t × IsRecorded clock m0 t
Run-IsRecorded clock m0 v r here = (v, r)
Run-IsRecorded clock m0 v r (next now index cmd before p e) =
    let (sound, recorded) = Run-IsRecorded clock m0 v r before in
    let (sound', recorded') = IsRecorded-step clock m0 now index _ cmd sound p recorded in
    (subst IsSound (ap server_of e) sound', subst (IsRecorded clock m0) (ap server_of e) recorded')

-- From a sound server whose journal replays to its machine, the loop goes through any number of
-- possible commands and then one more, after which it may hang. The server is then still sound, and
-- the commands of its journal, the decoding of their records aside, replay from the same start to the
-- machine that the loop reached, whatever times the replay reads from the clock.
pub journal_replays :
    (clock : ℕ → ℤ) (m0 : Machine) (s t : Server) (now index : ℤ) (cmd : Command)
    → IsSound s
    → IsRecorded clock m0 s
    → Run s t
    → IsPossible now t cmd
    → IsSound (server_of (apply_command now true index t cmd))
      × IsRecorded clock m0 (server_of (apply_command now true index t cmd))
journal_replays clock m0 s t now index cmd v r run p =
    let (sound, recorded) = Run-IsRecorded clock m0 v r run in
    IsRecorded-step clock m0 now index t cmd sound p recorded
