-- ===== src/Lock/Release.antt =====
-- `Release` of server/lock.go on a lock whose lease has no keys attached, as `Acquire` leaves it.
use wjetcd.Common.{
  ◌≡◌, ap, arith, false, some, [], ByteString, bytes_eq, bytes_eq_refl, bytes_key, sort_strings, ℤ,
  eqb_ℤ, int_eq, lookup, lookup-delete, keys, ◌⊎◌,
}
use wjetcd.Lease.{LeaseManager, Lease, get_lease, revoke_lease}
use wjetcd.Lock.{
  LockManager, LockInfo, lock_not_held, lock_expired, lease_lives, release, release_entry, is_held,
}

revoke_lease-gone : (le : LeaseManager) (id : ℤ) → lease_lives (revoke_lease le id).0 id ≡ false
unfolding revoke_lease get_lease
revoke_lease-gone le id = ground (arith, lookup-delete id id le.leases)

revoke_lease-keys :
    (le : LeaseManager) (id : ℤ) (lease : Lease)
    → get_lease le id ≡ some lease
    → lease.attached ≡ []
    → (revoke_lease le id).1 ≡ []
unfolding revoke_lease get_lease sort_strings
revoke_lease-keys le id lease h empty =
    ground (arith, h, ap (λ attached. sort_strings (keys attached)) empty)

-- The holder of a live lock whose lease has no keys attached is told that the lock has expired, and
-- the lock's entry stays in the table; the lease is gone, so the lock is free for the next caller.
pub release_reports_expired :
    (lm : LockManager) (key : ByteString) (info : LockInfo) (lease : Lease)
    → lookup key lm.locks ≡ some info
    → get_lease lm.lease_mgr info.lease_id ≡ some lease
    → lease.attached ≡ []
    → ((release lm key info.lease_id info.owner_id).1 ≡ some lock_expired)
      × (lookup key (release lm key info.lease_id info.owner_id).0.locks ≡ some info)
      × (is_held (release lm key info.lease_id info.owner_id).0 key ≡ false)
unfolding release release_entry is_held
release_reports_expired lm key info lease entry alive empty =
    let found = revoke_lease-keys lm.lease_mgr info.lease_id lease alive empty in
    let gone = revoke_lease-gone lm.lease_mgr info.lease_id in
    ground (arith, entry, found, gone, bytes_eq_refl info.owner_id)

-- Only the owner's name and the lease of the entry release a lock: any other call changes nothing
-- and reports that the lock is not held.
pub release_needs_owner :
    (lm : LockManager) (key : ByteString) (info : LockInfo) (lease_id : ℤ) (owner : ByteString)
    → lookup key lm.locks ≡ some info
    → (eqb_ℤ info.lease_id lease_id ≡ false) ⊎ (bytes_eq info.owner_id owner ≡ false)
    → release lm key lease_id owner ≡ (lm, some lock_not_held)
unfolding release
release_needs_owner lm key info lease_id owner entry other = ground (arith, entry)
