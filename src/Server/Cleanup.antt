-- ===== src/Server/Cleanup.antt =====
-- server/server.go: `cleanupExpiredLeases` and the tick of `cleanupLoop`. The clock gives a reading
-- for every round. `Submit` up to its answer is an argument: the server as it is when the call
-- returns, and whether it returned without an error.
pub mod Round
pub mod Left
pub mod Purge
use wjetcd.Common.{ℕ, zero, suc, Bool, Option, none, some, if◌then◌else◌, ℤ, ltb_ℤ}
use wjetcd.Command.{Command, zero_command, cmd_lease_revoke}
use wjetcd.Lease.{get_expiring_lease}
use wjetcd.Lease.Heap.{LeaseItem}
use wjetcd.Watch.{cleanup_expired}
use wjetcd.Server.State.{Server}

-- `kv.Command{Type: kv.CmdLeaseRevoke, LeaseID: item.ID, ExpireAt: item.expireAt}`
abbrev pub revocation : LeaseItem → Command
revocation item = record zero_command {
  type = cmd_lease_revoke;
  lease_id = item.id;
  expire_at = item.expire_at;
}

-- `none` where the fuel ends before the loop does.
unfoldable pub cleanup_expired_leases :
    (Server → Command → Server × Bool) → (ℕ → ℤ) → ℕ → ℕ → Server → Option Server
cleanup_expired_leases submit clock zero round s = none
cleanup_expired_leases submit clock (suc fuel) round s = elim (get_expiring_lease s.lease_mgr) [
  | none ↦ some s
  | some item ↦
      let (s', accepted) = submit s (revocation item) in
      let more = cleanup_expired_leases submit clock fuel (suc round) s' in
      if ltb_ℤ (clock round) item.expire_at then some s else if accepted then more else some s'
]

unfoldable pub cleanup_tick :
    (Server → Command → Server × Bool) → (ℕ → ℤ) → ℤ → ℕ → Server → Option Server
unfolding cleanup_expired_leases
cleanup_tick submit clock now fuel s = elim (cleanup_expired_leases submit clock fuel 0 s) [
  | none ↦ none
  | some s' ↦ some (record s' { watchers = cleanup_expired now s'.watchers })
]
