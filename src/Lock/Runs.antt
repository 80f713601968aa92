-- ===== src/Lock/Runs.antt =====
-- Mutual exclusion of the locks of server/lock.go over any sequence of calls.
use mathlib.Core.Path.{subst}
use wjetcd.Common.{
  ◌≡◌, refl, sym, ap, ◌∙◌, arith, Bool, true, false, ◌&&◌, Bool-cases, inl, inr, none, some, List,
  ByteString, bytes_eq, bytes_eq_iff, bytes_eq_refl, bytes_key, ℤ, ◌≤ℤ◌, eqb_ℤ, eqb_ℤ_iff, int_eq,
  inc64, inc64_nonneg, lookup, lookup-insert,
}
use wjetcd.Lease.{LeaseManager, grant}
use wjetcd.Lock.{
  LockManager, LockInfo, ok, err, lock_already_held, lease_lives, is_held, lock_ttl, acquire,
  take_lock, try_acquire, release, keep_lock, get_lock_status, on_lease_expired,
}
use wjetcd.Lock.Exclusion.{HasLeaseRoom, acquire-held, acquire-free, grant-id, grant-lives}
use wjetcd.Lock.Holder.{Holds, Holds-is_held, Holds-leases}
use wjetcd.Lock.Leases.{grant-counter}
use wjetcd.Lock.Calls.{
  Held, acquire-Held, try_acquire-Held, release-Held, keep_lock-Held, get_lock_status-Held,
  on_lease_expired-Held,
}

module _ (key : ByteString) (id : ℤ) (owner : ByteString) where
  -- A call of the lock manager by anyone, and a change of the leases elsewhere, but for the holder's
  -- own release and for what ends the lock's lease.
  pub data Call (lm : LockManager) : LockManager → Type 0 where
    acquired :
        (now ttl : ℤ) (k o : ByteString) → HasLeaseRoom lm → Call lm (acquire now lm k ttl o).0
    tried :
        (now ttl : ℤ) (k o : ByteString) (wait : Bool)
        → HasLeaseRoom lm
        → Call lm (try_acquire now lm k ttl o wait).0
    released :
        (k : ByteString) (i : ℤ) (o : ByteString)
        → (bytes_eq k key && (eqb_ℤ i id && bytes_eq o owner)) ≡ false
        → Call lm (release lm k i o).0
    prolonged :
        (now : ℤ) (k : ByteString) (i : ℤ) (o : ByteString) (ttl : ℤ)
        → Call lm (keep_lock now lm k i o ttl).0
    asked : (k : ByteString) → Call lm (get_lock_status lm k).0
    told_expired :
        (i : ℤ) (ks : List ByteString) → eqb_ℤ i id ≡ false → Call lm (on_lease_expired lm i ks)
    leases_changed :
        (le : LeaseManager)
        → lm.lease_mgr.lease_id ≤ℤ le.lease_id
        → lease_lives le id ≡ true
        → Call lm (record lm { lease_mgr = le })

  pub data Calls (lm : LockManager) : LockManager → Type 0 where
    here : Calls lm lm
    next : {lm' lm'' : LockManager} → Calls lm lm' → Call lm' lm'' → Calls lm lm''

  Call-Held : {lm lm' : LockManager} → Call lm lm' → Held key id owner lm → Held key id owner lm'
  Call-Held {lm} (acquired now ttl k o room) h = acquire-Held key id owner now lm k ttl o room h
  Call-Held {lm} (tried now ttl k o wait room) h =
      try_acquire-Held key id owner now lm k ttl o wait room h
  Call-Held {lm} (released k i o other) h = release-Held key id owner lm k i o other h
  Call-Held {lm} (prolonged now k i o ttl) h = keep_lock-Held key id owner now lm k i o ttl h
  Call-Held {lm} (asked k) h = get_lock_status-Held key id owner lm k h
  Call-Held {lm} (told_expired i ks other) h = on_lease_expired-Held key id owner ks lm i other h
  Call-Held {lm} (leases_changed le later lives) h = Holds-leases key id owner lm le later lives h

  Calls-Held : {lm lm' : LockManager} → Calls lm lm' → Held key id owner lm → Held key id owner lm'
  Calls-Held here h = h
  Calls-Held (next run call) h = Call-Held call (Calls-Held run h)

-- No entry has a lease id that the lease manager has yet to give out.
abbrev pub IsCounted : LockManager → Type 0
IsCounted lm =
    (k : ByteString) (info : LockInfo)
    → lookup k lm.locks ≡ some info
    → info.lease_id ≤ℤ lm.lease_mgr.lease_id

take_lock-Holds :
    (now : ℤ) (lm : LockManager) (key : ByteString) (ttl : ℤ) (owner : ByteString)
    → HasLeaseRoom lm
    → IsCounted lm
    → Holds key (inc64 lm.lease_mgr.lease_id) owner (take_lock now lm key ttl owner).0
unfolding take_lock
take_lock-Holds now lm key ttl owner room counted =
    let id = inc64 lm.lease_mgr.lease_id in
    let (le, given) = grant now lm.lease_mgr (lock_ttl ttl) in
    let new : LockInfo = record {
      key = key;
      lease_id = given;
      owner_id = owner;
      acquired_at = now;
      watcher = none;
    } in
    let up = inc64_nonneg lm.lease_mgr.lease_id in
    let same : given ≡ id = grant-id now lm.lease_mgr (lock_ttl ttl) in
    record {
      info = new;
      entry = lookup-insert key key new lm.locks ∙ rw (bytes_eq_refl key) refl;
      by_lease = same;
      by_owner = refl;
      positive = ground (arith, up, room);
      alive = grant-lives now lm.lease_mgr (lock_ttl ttl) id ∙ ground (arith, eqb_ℤ_iff id id);
      issued = ground (arith, grant-counter now lm.lease_mgr (lock_ttl ttl));
      alone = λ k other found its. elim (Bool-cases (bytes_eq key k)) [
        | inl this ↦ rw ((bytes_eq_iff key k).0 this) (bytes_eq_refl k)
        | inr apart ↦
            let old =
              counted k other (sym (lookup-insert key k new lm.locks ∙ rw apart refl) ∙ found) in
            absurd (ground (arith, old, up, room))
      ];
    }

take_lock-handle :
    (now : ℤ) (lm : LockManager) (key : ByteString) (ttl : ℤ) (owner : ByteString)
    → (take_lock now lm key ttl owner).1
      ≡ record { key = key; lease_id = inc64 lm.lease_mgr.lease_id; owner_id = owner }
unfolding take_lock
take_lock-handle now lm key ttl owner =
    ap (λ id. record { key = key; lease_id = id; owner_id = owner })
      (grant-id now lm.lease_mgr (lock_ttl ttl))

-- A call of `Acquire` gives a lock out, where no lease id of the table is ahead of the counter. After
-- any calls by anyone, but for a release by the owner with the lock's lease, and for what ends that
-- lease, the owner holds the lock still, and an `Acquire` of the key is refused and changes nothing.
pub lock_excludes :
    (now now' : ℤ) (lm lm' : LockManager) (key : ByteString) (ttl ttl' : ℤ)
    (owner owner' : ByteString)
    → HasLeaseRoom lm
    → IsCounted lm
    → is_held lm key ≡ false
    → let (lm1, result) = acquire now lm key ttl owner in
      let id = inc64 lm.lease_mgr.lease_id in
      Calls key id owner lm1 lm'
      → (result ≡ ok (record { key = key; lease_id = id; owner_id = owner }))
        × Holds key id owner lm'
        × (acquire now' lm' key ttl' owner' ≡ (lm', err lock_already_held))
lock_excludes now now' lm lm' key ttl ttl' owner owner' room counted free run =
    let gives = acquire-free now lm key ttl owner free in
    let id = inc64 lm.lease_mgr.lease_id in
    let taken : Holds key id owner (acquire now lm key ttl owner).0 =
      subst (Holds key id owner) (ap (λ x. x.0) (sym gives))
        (take_lock-Holds now lm key ttl owner room counted) in
    let held = Calls-Held key id owner run taken in
    (
      ap (λ x. x.1) gives ∙ ap ok (take_lock-handle now lm key ttl owner),
      held,
      acquire-held now' lm' key ttl' owner' (Holds-is_held key id owner lm' held),
    )
