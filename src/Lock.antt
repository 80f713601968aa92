-- ===== src/Lock.antt =====
-- server/lock.go: locks that are held as long as a lease lives. The manager shares the server's
-- lease manager, which is therefore part of the state here; its `store` is never used, and
-- `cancelFn` never set. A channel that a waiter is given is the name of its owner; `watcher` is the
-- one kept in `watcherCh`.
pub mod Exclusion
pub mod Holder
mod Leases
mod Calls
pub mod Runs
pub mod Release
use wjetcd.Common.{
  ℕ, Bool, true, false, not, ◌&&◌, ◌||◌, Option, none, some, List, [], ◌∷◌, if◌then◌else◌,
  ByteString, bytes_eq, bytes_key, ℤ, pos, ltb_ℤ, leb_ℤ, eqb_ℤ, Map, keys, lookup, insert, delete,
}
use wjetcd.Lease.{LeaseManager, Lease, grant, get_lease, revoke_lease, keep_alive}

pub data LockError : Type 0 where
  lock_not_held lock_already_held lock_expired : LockError

pub record LockInfo : Type 0 where
  pub key : ByteString
  pub lease_id : ℤ
  pub owner_id : ByteString
  pub acquired_at : ℤ
  pub watcher : Option ByteString

pub record LockHandle : Type 0 where
  pub key : ByteString
  pub lease_id : ℤ
  pub owner_id : ByteString

pub record LockManager : Type 0 where
  pub locks : Map ByteString LockInfo
  pub lease_mgr : LeaseManager

-- The result of a call that returns a value or an error.
pub data Result {ℓ} (A : Type ℓ) : Type ℓ where
  ok : A → Result A
  err : LockError → Result A

unfoldable pub new_lock_manager : LeaseManager → LockManager
new_lock_manager le = record { locks = []; lease_mgr = le }

-- A time to live that is not positive is replaced by 10 seconds.
abbrev pub lock_ttl : ℤ → ℤ
lock_ttl ttl = if leb_ℤ ttl (pos 0) then pos 10 else ttl

abbrev pub lease_lives : LeaseManager → ℤ → Bool
lease_lives le id = elim (get_lease le id) [ none ↦ false | some lease ↦ true ]

-- The first `if` of `Acquire`.
unfoldable pub is_held : LockManager → ByteString → Bool
is_held lm key = elim (lookup key lm.locks) [
  | none ↦ false
  | some info ↦ ltb_ℤ (pos 0) info.lease_id && lease_lives lm.lease_mgr info.lease_id
]

unfoldable pub take_lock : ℤ → LockManager → ByteString → ℤ → ByteString → LockManager × LockHandle
take_lock now lm key ttl owner =
    let (le, id) = grant now lm.lease_mgr (lock_ttl ttl) in
    (
      record {
        locks =
            insert key
              (record {
                key = key;
                lease_id = id;
                owner_id = owner;
                acquired_at = now;
                watcher = none;
              })
              lm.locks;
        lease_mgr = le;
      },
      record { key = key; lease_id = id; owner_id = owner },
    )

unfoldable pub acquire :
    ℤ → LockManager → ByteString → ℤ → ByteString → LockManager × Result LockHandle
unfolding take_lock
acquire now lm key ttl owner =
    if is_held lm key
    then (lm, err lock_already_held)
    else let (lm', handle) = take_lock now lm key ttl owner in (lm', ok handle)

-- `Release` from the entry on: the lease is revoked, and then asked for.
unfoldable pub release_entry : LockManager → ByteString → ℤ → LockManager × Option LockError
release_entry lm key lease_id =
    let (le, attached) = revoke_lease lm.lease_mgr lease_id in
    let revoked = record lm { lease_mgr = le } in
    elim attached [
      | [] ↦
          if lease_lives le lease_id
          then (record revoked { locks = delete key lm.locks }, none)
          else (revoked, some lock_expired)
      | k ∷ rest ↦ (record revoked { locks = delete key lm.locks }, none)
    ]

unfoldable pub release : LockManager → ByteString → ℤ → ByteString → LockManager × Option LockError
release lm key lease_id owner = elim (lookup key lm.locks) [
  | none ↦ (lm, some lock_not_held)
  | some info ↦
      if not (eqb_ℤ info.lease_id lease_id)
      then (lm, some lock_not_held)
      else if not (bytes_eq info.owner_id owner)
      then (lm, some lock_not_held)
      else release_entry lm key lease_id
]

unfoldable pub keep_lock :
    ℤ → LockManager → ByteString → ℤ → ByteString → ℤ → LockManager × Option LockError
keep_lock now lm key lease_id owner ttl = elim (lookup key lm.locks) [
  | none ↦ (lm, some lock_not_held)
  | some info ↦
      if not (eqb_ℤ info.lease_id lease_id) || not (bytes_eq info.owner_id owner)
      then (lm, some lock_not_held)
      else (let (le, kept) = keep_alive now lm.lease_mgr lease_id (lock_ttl ttl) in
          (record lm { lease_mgr = le }, if kept then none else some lock_expired))
]

unfoldable pub get_lock_status : LockManager → ByteString → LockManager × Bool × ℤ
get_lock_status lm key = elim (lookup key lm.locks) [
  | none ↦ (lm, false, pos 0)
  | some info ↦
      if lease_lives lm.lease_mgr info.lease_id
      then (lm, true, info.lease_id)
      else (record lm { locks = delete key lm.locks }, false, pos 0)
]

unfoldable pub list_locks : LockManager → List ByteString
list_locks lm = keys lm.locks

unfoldable pub on_lease_expired : LockManager → ℤ → List ByteString → LockManager
on_lease_expired lm lease_id [] = lm
on_lease_expired lm lease_id (key ∷ rest) =
    on_lease_expired
      (elim (lookup key lm.locks) [
        | none ↦ lm
        | some info ↦
            if eqb_ℤ info.lease_id lease_id then record lm { locks = delete key lm.locks } else lm
      ])
      lease_id rest

-- `TryLockResult` with the `LockWithWatch` that is returned; a waiter's has no lease.
pub data TryLockResult : Type 0 where
  try_lock_success : LockHandle → TryLockResult
  try_lock_contended : Option ByteString → TryLockResult
  try_lock_error : TryLockResult

unfoldable pub wait_for : LockManager → ByteString → ByteString → LockManager
wait_for lm key owner = elim (lookup key lm.locks) [
  | none ↦ lm
  | some info ↦ record lm { locks = insert key (record info { watcher = some owner }) lm.locks }
]

unfoldable pub try_acquire :
    ℤ → LockManager → ByteString → ℤ → ByteString → Bool → LockManager × TryLockResult
try_acquire now lm key ttl owner wait =
    let (lm', result) = acquire now lm key ttl owner in
    elim result [
      | ok handle ↦ (lm', try_lock_success handle)
      | err lock_already_held ↦
          if wait
          then (wait_for lm' key owner, try_lock_contended (some owner))
          else (lm', try_lock_contended none)
      | err lock_not_held ↦ (lm', try_lock_error)
      | err lock_expired ↦ (lm', try_lock_error)
    ]

unfoldable pub get_lock_info : LockManager → ByteString → Option LockInfo
get_lock_info lm key = lookup key lm.locks
