-- ===== src/Server/Invariant.antt =====
-- What every replayed command of server/server.go keeps: lease ids are positive, and the counters
-- of the server and its store are in step.
use wjetcd.Common.{
  ◌≡◌, refl, arith, inl, inr, ByteString, bytes_key, List, [], ◌∷◌, Bool-cases, ltb_ℤ, ℤ, pos, ◌<ℤ◌,
  max_int64, int_eq,
}
use wjetcd.Command.{
  CommandType, Command, cmd_put, cmd_get, cmd_delete, cmd_lease_grant, cmd_lease_revoke,
  cmd_lease_attach, cmd_lease_keep_alive, cmd_cas, cmd_delete_prefix, cmd_get_prefix, cmd_other,
}
use wjetcd.Kv.{get_key_lease}
use wjetcd.Lease.{LeaseManager, revoke}
use wjetcd.Lease.Table.{
  HasLeases, revoke-HasLeases, attach-HasLeases, keep_alive_until-HasLeases, grant_until-HasLeases,
  revoke_lease-HasLeases, revoke_lease_if_matches-HasLeases,
}
use wjetcd.Server.State.{Machine}
use wjetcd.Server.Recovery.{
  Recovered, recovered, failed, stuck, revoked_keys, revoke_each, delete_revoked, effective_expiry,
  effective_ttl, recover_typed, grant_recovered, keep_alive_recovered, revoke_recovered,
  attach_recovered, delete_prefix_recovered, write_recovered, cas_recovered,
}

revoked_keys-HasLeases :
    (le : LeaseManager) (cmd : Command) → HasLeases le → HasLeases (revoked_keys le cmd).0
unfolding revoked_keys
revoked_keys-HasLeases le cmd h = elim (Bool-cases (ltb_ℤ (pos 0) cmd.expire_at)) [
  | inl dated ↦ rw dated (revoke_lease_if_matches-HasLeases le cmd.lease_id cmd.expire_at h)
  | inr undated ↦ rw undated (revoke_lease-HasLeases le cmd.lease_id h)
]

revoke_each-HasLeases :
    (le : LeaseManager) (keys : List ByteString) → HasLeases le → HasLeases (revoke_each le keys)
unfolding revoke_each
revoke_each-HasLeases le [] h = h
revoke_each-HasLeases le (key ∷ rest) h =
    revoke_each-HasLeases (revoke le key).0 rest (revoke-HasLeases le key h)

delete_revoked-leases :
    (keys : List ByteString) (m : Machine) → (delete_revoked m keys).lease_mgr ≡ m.lease_mgr
unfolding delete_revoked
delete_revoked-leases [] m = refl
delete_revoked-leases (key ∷ rest) m = delete_revoked-leases rest _

abbrev pub Leases : Recovered → Type 0
Leases (recovered m) = HasLeases m.lease_mgr
Leases failed = Unit {0}
Leases stuck = Unit {0}

write_recovered-HasLeases :
    (m : Machine) (cmd : Command)
    → HasLeases m.lease_mgr
    → HasLeases (write_recovered m cmd).lease_mgr
unfolding write_recovered
write_recovered-HasLeases m cmd h =
    let detached = revoke-HasLeases m.lease_mgr cmd.key h in
    ground (
      arith,
      detached,
      attach-HasLeases (revoke m.lease_mgr cmd.key).0 cmd.lease_id cmd.key cmd.value detached,
    )

effective_ttl-positive : (cmd : Command) → pos 0 <ℤ effective_ttl cmd
effective_ttl-positive cmd = ground arith

pub recover_typed-Leases :
    (type : CommandType) (now : ℤ) (m : Machine) (cmd : Command)
    → pos 0 <ℤ effective_expiry now cmd
    → m.lease_mgr.lease_id <ℤ max_int64
    → HasLeases m.lease_mgr
    → Leases (recover_typed type now m cmd)
unfolding recover_typed grant_recovered keep_alive_recovered revoke_recovered attach_recovered
    delete_prefix_recovered write_recovered cas_recovered
recover_typed-Leases cmd_lease_grant now m cmd after room h =
    grant_until-HasLeases m.lease_mgr (effective_ttl cmd) (effective_expiry now cmd)
      (effective_ttl-positive cmd) after room h
recover_typed-Leases cmd_lease_keep_alive now m cmd after room h =
    keep_alive_until-HasLeases m.lease_mgr cmd.lease_id (effective_ttl cmd)
      (effective_expiry now cmd) (effective_ttl-positive cmd) after h
recover_typed-Leases cmd_lease_revoke now m cmd after room h =
    rw
      (delete_revoked-leases (revoked_keys m.lease_mgr cmd).1
        (record m { lease_mgr = (revoked_keys m.lease_mgr cmd).0 }))
      (revoked_keys-HasLeases m.lease_mgr cmd h)
recover_typed-Leases cmd_lease_attach now m cmd after room h = ground (
  arith,
  h,
  attach-HasLeases (revoke m.lease_mgr cmd.key).0 cmd.lease_id cmd.key cmd.value
      (revoke-HasLeases m.lease_mgr cmd.key h),
)
recover_typed-Leases cmd_delete_prefix now m cmd after room h =
    revoke_each-HasLeases m.lease_mgr _ h
recover_typed-Leases cmd_get_prefix now m cmd after room h = h
recover_typed-Leases cmd_cas now m cmd after room h =
    ground
      (arith, h, attach-HasLeases m.lease_mgr (get_key_lease m.store cmd.key) cmd.key cmd.value h)
recover_typed-Leases cmd_put now m cmd after room h = write_recovered-HasLeases m cmd h
recover_typed-Leases cmd_delete now m cmd after room h = write_recovered-HasLeases m cmd h
recover_typed-Leases cmd_get now m cmd after room h = tt
recover_typed-Leases cmd_other now m cmd after room h = tt
