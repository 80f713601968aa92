-- ===== src/Lock/Exclusion.antt =====
-- Mutual exclusion of the locks of server/lock.go.
use wjetcd.Common.{
  ◌≡◌, refl, arith, true, false, if◌then◌else◌, none, ByteString, bytes_eq_refl, bytes_key, ℤ, pos,
  [], ◌≤ℤ◌, ◌<ℤ◌, eqb_ℤ, inc64, inc64_nonneg, max_int64, int_eq, lookup-insert, Bool-cases, inl,
  inr,
}
use wjetcd.Lease.{LeaseManager, Lease, grant, grant_until, get_lease}
use wjetcd.Lock.{
  LockManager, LockInfo, ok, err, lock_already_held, is_held, lease_lives, take_lock, acquire,
  lock_ttl,
}

pub grant-id : (now : ℤ) (le : LeaseManager) (ttl : ℤ) → (grant now le ttl).1 ≡ inc64 le.lease_id
unfolding grant grant_until
grant-id now le ttl = refl

pub grant-lives :
    (now : ℤ) (le : LeaseManager) (ttl id : ℤ)
    → lease_lives (grant now le ttl).0 id
      ≡ (if eqb_ℤ (inc64 le.lease_id) id then true else lease_lives le id)
unfolding grant grant_until get_lease
grant-lives now le ttl id = ground (
  arith,
  lookup-insert (inc64 le.lease_id) id
      (record {
        id = inc64 le.lease_id;
        ttl = ttl;
        expire_at = wjetcd.Lease.expiry_after now ttl;
        attached = [];
      })
      le.leases,
)

-- The lease counter is in range and not at its top.
abbrev pub HasLeaseRoom : LockManager → Type 0
HasLeaseRoom lm = (pos 0 ≤ℤ lm.lease_mgr.lease_id) × (lm.lease_mgr.lease_id <ℤ max_int64)

-- The entry that `Acquire` makes.
abbrev pub entry_of : ℤ → LockManager → ByteString → ByteString → LockInfo
entry_of now lm key owner = record {
  key = key;
  lease_id = inc64 lm.lease_mgr.lease_id;
  owner_id = owner;
  acquired_at = now;
  watcher = none;
}

take_lock-held :
    (now : ℤ) (lm : LockManager) (key : ByteString) (ttl : ℤ) (owner : ByteString)
    → HasLeaseRoom lm
    → is_held (take_lock now lm key ttl owner).0 key ≡ true
unfolding is_held take_lock
take_lock-held now lm key ttl owner room = ground (
  arith,
  grant-id now lm.lease_mgr (lock_ttl ttl),
  lookup-insert key key
      (record (entry_of now lm key owner) { lease_id = (grant now lm.lease_mgr (lock_ttl ttl)).1 })
      lm.locks,
  bytes_eq_refl key,
  grant-lives now lm.lease_mgr (lock_ttl ttl) (inc64 lm.lease_mgr.lease_id),
  inc64_nonneg lm.lease_mgr.lease_id,
)

pub acquire-held :
    (now : ℤ) (lm : LockManager) (key : ByteString) (ttl : ℤ) (owner : ByteString)
    → is_held lm key ≡ true
    → acquire now lm key ttl owner ≡ (lm, err lock_already_held)
unfolding acquire
acquire-held now lm key ttl owner held = rw held

pub acquire-free :
    (now : ℤ) (lm : LockManager) (key : ByteString) (ttl : ℤ) (owner : ByteString)
    → is_held lm key ≡ false
    → acquire now lm key ttl owner
      ≡ ((take_lock now lm key ttl owner).0, ok (take_lock now lm key ttl owner).1)
unfolding acquire
acquire-free now lm key ttl owner free = rw free

-- After any call of `Acquire`, whether it gave the lock out or was refused, a further `Acquire` of
-- the same key by anyone is refused and changes nothing, if the lease counter was not at its top.
acquire_excludes :
    (now now' : ℤ) (lm : LockManager) (key : ByteString) (ttl ttl' : ℤ) (owner owner' : ByteString)
    → HasLeaseRoom lm
    → acquire now' (acquire now lm key ttl owner).0 key ttl' owner'
      ≡ ((acquire now lm key ttl owner).0, err lock_already_held)
acquire_excludes now now' lm key ttl ttl' owner owner' room = elim (Bool-cases (is_held lm key)) [
  | inl held ↦
      rw (acquire-held now lm key ttl owner held) (acquire-held now' lm key ttl' owner' held)
  | inr free ↦
      rw (acquire-free now lm key ttl owner free)
        (acquire-held now' _ key ttl' owner' (take_lock-held now lm key ttl owner room))
]
