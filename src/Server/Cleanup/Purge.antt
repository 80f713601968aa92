-- ===== src/Server/Cleanup/Purge.antt =====
-- server/server.go: the cleanup loop ends, and the expired leases are gone then.
use wjetcd.Common.{
  ℕ, zero, suc, ◌<◌, ◌≡◌, refl, arith, inl, inr, Bool, true, false, Bool-cases, Option, some,
  length, ℤ, ltb_ℤ, int_eq, lookup,
}
use wjetcd.Command.{Command}
use wjetcd.Lease.{get_expiring_lease}
use wjetcd.Lease.Heap.{LeaseItem}
use wjetcd.Lease.Table.{HasLeases, revoke_lease-HasLeases}
use wjetcd.Lease.Expiry.{Reports, idle, first, HasLeases-Reports}
use wjetcd.Server.State.{Server}
use wjetcd.Server.Loop.{server_of, apply_command}
use wjetcd.Server.Cleanup.Round.{IsDue, applied}
use wjetcd.Server.Submit.{register}
use wjetcd.Server.Cleanup.{revocation, cleanup_expired_leases}
use wjetcd.Server.Cleanup.Left.{
  Cleaned, stopped, ltb_ℤ-lt, after_revoke, length-delete, revoke_lease-leases,
}

-- A call of `Submit` that the loop answers: whatever the time and the index, the journal takes the
-- command and the loop applies it.
abbrev pub Answered : (Server → Command → Server × Bool) → Type 0
Answered submit =
    (s : Server) (cmd : Command)
    → (now : ℤ) × (index : ℤ) × (submit s cmd
        ≡ (server_of (apply_command now true index (register index s) cmd), true))

abbrev pub CleansUp : (ℕ → ℤ) → Server → Option Server → Type 0
CleansUp clock s out = (s' : Server) × (out ≡ some s') × Cleaned clock s s'

module _ (submit : Server → Command → Server × Bool) (clock : ℕ → ℤ)
    (answered : Answered submit) where
  abbrev Loops : ℕ → Type 0
  Loops fuel =
      (round : ℕ) (s : Server)
      → length s.lease_mgr.leases < fuel
      → s.persistence_failed ≡ false
      → HasLeases s.lease_mgr
      → CleansUp clock s (cleanup_expired_leases submit clock fuel round s)

  goes_on :
      (fuel round : ℕ) (s : Server) (item : LeaseItem)
      → Loops fuel
      → length s.lease_mgr.leases < suc fuel
      → s.persistence_failed ≡ false
      → HasLeases s.lease_mgr
      → IsDue s.lease_mgr item
      → get_expiring_lease s.lease_mgr ≡ some item
      → ltb_ℤ (clock round) item.expire_at ≡ false
      → CleansUp clock s (cleanup_expired_leases submit clock (suc fuel) round s)
  unfolding cleanup_expired_leases
  goes_on fuel round s item rest f healthy h due e late =
      let (now, index, told) = answered s (revocation item) in
      let s1 = server_of (apply_command now true index (register index s) (revocation item)) in
      let revoked = applied now index s item healthy h due in
      let table = revoke_lease-leases s.lease_mgr item.id due.lease due.found in
      let fewer = length-delete s.lease_mgr.leases item.id due.lease due.found in
      let shorter : length s1.lease_mgr.leases < fuel =
        rw (revoked.leases, table) (omega (arith, fewer)) in
      let leases : HasLeases s1.lease_mgr =
        rw revoked.leases (revoke_lease-HasLeases s.lease_mgr item.id h) in
      let (s', run, c) = rest (suc round) s1 shorter revoked.healthy leases in
      (
        s',
        rw (cleanup_expired_leases, e, told, late) run,
        after_revoke item s s1 s' due revoked clock round (ground arith) c,
      )

  round-Cleaned :
      (fuel round : ℕ) (s : Server) (report : Option LeaseItem)
      → Loops fuel
      → length s.lease_mgr.leases < suc fuel
      → s.persistence_failed ≡ false
      → HasLeases s.lease_mgr
      → get_expiring_lease s.lease_mgr ≡ report
      → Reports s.lease_mgr.leases report
      → CleansUp clock s (cleanup_expired_leases submit clock (suc fuel) round s)
  unfolding cleanup_expired_leases lookup
  round-Cleaned fuel round s report rest f healthy h e (idle none_left) = (
    s,
    rw (cleanup_expired_leases, e) refl,
    stopped clock s healthy h (λ now id lease low found. cc (rw none_left at found)),
  )
  round-Cleaned fuel round s report rest f healthy h e (first item lease found same least) =
      elim (Bool-cases (ltb_ℤ (clock round) item.expire_at)) [
        | inl later ↦ (
          s,
          rw (cleanup_expired_leases, e, later) refl,
          stopped clock s healthy h (λ now id other low other_found.
              let after = least id other other_found in
              omega (arith, low round, ltb_ℤ-lt (clock round) item.expire_at later)),
        )
        | inr late ↦
            goes_on fuel round s item rest f healthy h
              (record { lease = lease; found = found; same = same }) e late
      ]

  -- The loop ends before the fuel does, which is more than there are leases, if its calls of
  -- `Submit` are answered, no journal write has failed and the leases are consistent, as they are
  -- then too. No lease is left whose expiry lies at or before a time that no reading of the clock
  -- precedes; a lease that expires after all readings is left as it was; and there is no other. The
  -- keys attached to the leases that went have no value, and any other key has the value that it
  -- had.
  pub cleanup_expired_leases-Cleaned :
      (fuel round : ℕ) (s : Server)
      → length s.lease_mgr.leases < fuel
      → s.persistence_failed ≡ false
      → HasLeases s.lease_mgr
      → CleansUp clock s (cleanup_expired_leases submit clock fuel round s)
  cleanup_expired_leases-Cleaned zero round s f healthy h = absurd (omega arith)
  cleanup_expired_leases-Cleaned (suc fuel) round s f healthy h =
      round-Cleaned fuel round s (get_expiring_lease s.lease_mgr)
        (cleanup_expired_leases-Cleaned fuel) f healthy h refl (HasLeases-Reports s.lease_mgr h)
