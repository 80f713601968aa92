-- ===== src/Examples/Locks.antt =====
-- Runs of the locks of server/lock.go.
use wjetcd.Common.{
  true, refl, lookup, bytes_eq, inc64, ◌≡◌, refl, arith, Bool, true, false, inl, inr, ByteString,
  bytes, bytes_key, [], ◌∷◌, Option, none, some, lookup, ℤ, pos,
}
use wjetcd.Lease.{grant, grant_until, Lease, get_lease, new_lease_manager}
use wjetcd.Lock.{
  ok, try_acquire, release, take_lock, is_held, LockManager, LockInfo, lock_already_held,
  lock_expired, err, acquire, is_held, release,
}
use wjetcd.Lock.Holder.{Holds}
use wjetcd.Lock.Runs.{Calls, here, next, tried, released, IsCounted, lock_excludes}
use wjetcd.Lock.Release.{release_reports_expired}

abbrev empty_table : LockManager
empty_table = record { locks = []; lease_mgr = new_lease_manager }

-- Ann takes the lock, Bob waits for it, and Carol tries to release it.
abbrev taken : LockManager
taken = (acquire (pos 100) empty_table (bytes "job") (pos 10) (bytes "ann")).0

abbrev waited : LockManager
waited = (try_acquire (pos 101) taken (bytes "job") (pos 5) (bytes "bob") true).0

abbrev later : LockManager
later = (release waited (bytes "job") (pos 1) (bytes "carol")).0

counted : IsCounted empty_table
unfolding lookup
counted k info found = cc

calls : Calls (bytes "job") (pos 1) (bytes "ann") taken later
unfolding acquire take_lock grant grant_until is_held lookup bytes_eq inc64 wjetcd.Common.wrap64
    wjetcd.Common.◌+ℤ◌ new_lease_manager
calls =
    next
      (next here
        (tried (pos 101) (pos 5) (bytes "job") (bytes "bob") true (omega arith, omega arith)))
      (released (bytes "job") (pos 1) (bytes "carol") refl)

lock_excludes_example :
    ((acquire (pos 100) empty_table (bytes "job") (pos 10) (bytes "ann")).1
      ≡ ok (record { key = bytes "job"; lease_id = pos 1; owner_id = bytes "ann" }))
    × Holds (bytes "job") (pos 1) (bytes "ann") later
    × (acquire (pos 105) later (bytes "job") (pos 5) (bytes "bob") ≡ (later, err lock_already_held))
unfolding inc64 new_lease_manager is_held lookup wjetcd.Common.wrap64 wjetcd.Common.◌+ℤ◌
lock_excludes_example =
    lock_excludes (pos 100) (pos 105) empty_table later (bytes "job") (pos 10) (pos 5) (bytes "ann")
      (bytes "bob") (omega arith, omega arith) counted refl calls

abbrev ann : LockInfo
ann = record {
  key = bytes "job";
  lease_id = pos 1;
  owner_id = bytes "ann";
  acquired_at = pos 100;
  watcher = none;
}

abbrev lease_one : Lease
lease_one = record { id = pos 1; ttl = pos 10; expire_at = pos 110; attached = [] }

-- A table in which Ann holds the lock by a live lease without keys.
abbrev table : LockManager
table = record {
  locks = (bytes "job", ann) ∷ [];
  lease_mgr = record {
    leases = (pos 1, lease_one) ∷ [];
    lease_id = pos 1;
    heap = record { id = pos 1; expire_at = pos 110 } ∷ [];
  };
}

release_reports_expired_example :
    ((release table (bytes "job") (pos 1) (bytes "ann")).1 ≡ some lock_expired)
    × (lookup (bytes "job") (release table (bytes "job") (pos 1) (bytes "ann")).0.locks ≡ some ann)
    × (is_held (release table (bytes "job") (pos 1) (bytes "ann")).0 (bytes "job") ≡ false)
unfolding lookup wjetcd.Common.bytes_eq get_lease
release_reports_expired_example =
    release_reports_expired table (bytes "job") ann lease_one refl refl refl
