-- ===== src/Lock/Calls.antt =====
-- Every call of server/lock.go leaves a lock with its holder, but for the holder's own release.
use mathlib.Core.Path.{subst}
use wjetcd.Common.{
  ◌≡◌, ◌≢◌, sym, ap, ◌∙◌, arith, Bool, true, false, not, ◌&&◌, ◌||◌, if◌then◌else◌, Bool-cases,
  Option-cases, inl, inr, Option, none, some, List, [], ◌∷◌, ByteString, bytes_eq, bytes_eq_iff,
  bytes_key, ℤ, eqb_ℤ, eqb_ℤ_iff, int_eq, inc64_nonneg, lookup, insert, delete,
}
use wjetcd.Lease.{grant, revoke_lease, keep_alive}
use wjetcd.Lock.{
  LockManager, LockInfo, LockError, lock_expired, lease_lives, is_held, lock_ttl, acquire,
  take_lock, TryLockResult, try_lock_contended, try_acquire, wait_for, release, release_entry,
  keep_lock, get_lock_status, on_lease_expired,
}
use wjetcd.Lock.Exclusion.{HasLeaseRoom, acquire-held, acquire-free, grant-id, grant-lives}
use wjetcd.Lock.Holder.{
  Holds, Holds-is_held, Holds-there, Holds-leases, Holds-delete, Holds-insert, Holds-wait,
}
use wjetcd.Lock.Leases.{
  revoke_lease-lives, keep_alive-lives, keep_alive-counter, revoke_lease-counter, grant-counter,
}

module _ (key : ByteString) (id : ℤ) (owner : ByteString) where
  abbrev pub Held : LockManager → Type 0
  Held = Holds key id owner

  take_lock-Held :
      (now : ℤ) (lm : LockManager) (k : ByteString) (ttl : ℤ) (o : ByteString)
      → HasLeaseRoom lm
      → bytes_eq k key ≡ false
      → Held lm
      → Held (take_lock now lm k ttl o).0
  unfolding take_lock
  take_lock-Held now lm k ttl o room other h =
      let le = grant now lm.lease_mgr (lock_ttl ttl) in
      let count = grant-counter now lm.lease_mgr (lock_ttl ttl) in
      let up = inc64_nonneg lm.lease_mgr.lease_id in
      let new : LockInfo = record {
        key = k;
        lease_id = le.1;
        owner_id = o;
        acquired_at = now;
        watcher = none;
      } in
      let fresh : new.lease_id ≢ id =
        λ same. ground (arith, up, h.issued, room, grant-id now lm.lease_mgr (lock_ttl ttl)) in
      let lives : lease_lives le.0 id ≡ true =
        ground (arith, grant-lives now lm.lease_mgr (lock_ttl ttl) id, h.alive) in
      Holds-leases key id owner (record lm { locks = insert k new lm.locks }) le.0
        (ground (arith, count, up, room)) lives (Holds-insert key id owner lm k new other fresh h)

  pub acquire-Held :
      (now : ℤ) (lm : LockManager) (k : ByteString) (ttl : ℤ) (o : ByteString)
      → HasLeaseRoom lm
      → Held lm
      → Held (acquire now lm k ttl o).0
  acquire-Held now lm k ttl o room h = elim (Bool-cases (is_held lm k)) [
    | inl held ↦ subst Held (ap (λ x. x.0) (sym (acquire-held now lm k ttl o held))) h
    | inr free ↦
        subst Held (ap (λ x. x.0) (sym (acquire-free now lm k ttl o free)))
          (elim (Bool-cases (bytes_eq k key)) [
            | inl this ↦
                let same = (bytes_eq_iff k key).0 this in
                let held = Holds-is_held key id owner lm h in absurd (cc)
            | inr other ↦ take_lock-Held now lm k ttl o room other h
          ])
  ]

  wait_for-Held : (lm : LockManager) (k o : ByteString) → Held lm → Held (wait_for lm k o)
  unfolding wait_for
  wait_for-Held lm k o h = elim (Option-cases (lookup k lm.locks)) [
    | inl none_there ↦ rw (wait_for, none_there) h
    | inr (there, found) ↦ rw (wait_for, found) (Holds-wait key id owner lm k o there found h)
  ]

  waits-Held :
      (k o : ByteString) (wait : Bool) (lm : LockManager)
      → Held lm
      → Held
          (if◌then◌else◌ {A = LockManager × TryLockResult} wait
            (wait_for lm k o, try_lock_contended (some o))
            (lm, try_lock_contended none)).0
  waits-Held k o true lm h = wait_for-Held lm k o h
  waits-Held k o false lm h = h

  pub try_acquire-Held :
      (now : ℤ) (lm : LockManager) (k : ByteString) (ttl : ℤ) (o : ByteString) (wait : Bool)
      → HasLeaseRoom lm
      → Held lm
      → Held (try_acquire now lm k ttl o wait).0
  unfolding try_acquire
  try_acquire-Held now lm k ttl o wait room h = elim (Bool-cases (is_held lm k)) [
    | inl held ↦
        rw (try_acquire, acquire-held now lm k ttl o held)
          (waits-Held k o wait (acquire now lm k ttl o).0 (acquire-Held now lm k ttl o room h))
    | inr free ↦
        rw (try_acquire, acquire-free now lm k ttl o free) (acquire-Held now lm k ttl o room h)
  ]

  -- `Release` after it revoked the lease, which had keys or not and lives or not.
  outcome-Held :
      (lm : LockManager) (k : ByteString) (attached : List ByteString) (lives : Bool)
      → Held lm
      → Held (record lm { locks = delete k lm.locks })
      → let removed = record lm { locks = delete k lm.locks } in
        Held
          (elim attached as (λ x. LockManager × Option LockError) [
            | [] ↦ if lives then (removed, none) else (lm, some lock_expired)
            | attached_key ∷ rest ↦ (removed, none)
          ]).0
  outcome-Held lm k [] true h gone = gone
  outcome-Held lm k [] false h gone = h
  outcome-Held lm k (attached_key ∷ rest) lives h gone = gone

  release_entry-Held :
      (lm : LockManager) (k : ByteString) (i : ℤ)
      → bytes_eq k key ≡ false
      → eqb_ℤ i id ≡ false
      → Held lm
      → Held (release_entry lm k i).0
  unfolding release_entry
  release_entry-Held lm k i apart other h =
      let le = (revoke_lease lm.lease_mgr i).0 in
      let lives = revoke_lease-lives lm.lease_mgr id i other ∙ h.alive in
      let revoked =
        Holds-leases key id owner lm le (ground (arith, revoke_lease-counter lm.lease_mgr i)) lives
          h in
      let gone = Holds-delete key id owner (record lm { lease_mgr = le }) k apart revoked in
      outcome-Held (record lm { lease_mgr = le }) k (revoke_lease lm.lease_mgr i).1
        (lease_lives le i) revoked gone

  pub release-Held :
      (lm : LockManager) (k : ByteString) (i : ℤ) (o : ByteString)
      → (bytes_eq k key && (eqb_ℤ i id && bytes_eq o owner)) ≡ false
      → Held lm
      → Held (release lm k i o).0
  unfolding release
  release-Held lm k i o other h = elim (Option-cases (lookup k lm.locks)) [
    | inl none_there ↦ rw (release, none_there) h
    | inr (there, found) ↦ elim (Bool-cases (eqb_ℤ there.lease_id i)) [
      | inr differs ↦ rw (release, found, differs) h
      | inl same ↦ elim (Bool-cases (bytes_eq there.owner_id o)) [
        | inr differs ↦ rw (release, found, same, differs) h
        | inl by ↦ elim (Bool-cases (bytes_eq k key)) [
          | inl this ↦
              let mine = Holds-there key id owner lm k there found this h in
              absurd (
                ground (
                  arith,
                  other,
                  mine,
                  eqb_ℤ_iff there.lease_id i,
                  eqb_ℤ_iff i id,
                  bytes_eq_iff there.owner_id o,
                  bytes_eq_iff o owner,
                ))
          | inr apart ↦
              rw (release, found, same, by)
                (release_entry-Held lm k i apart
                  (elim (Bool-cases (eqb_ℤ i id)) [
                    | inl its ↦ absurd (
                        ground (
                          arith,
                          eqb_ℤ_iff there.lease_id i,
                          eqb_ℤ_iff i id,
                          h.alone k there found,
                        ))
                    | inr differs ↦ differs
                  ])
                  h)
        ]
      ]
    ]
  ]

  pub keep_lock-Held :
      (now : ℤ) (lm : LockManager) (k : ByteString) (i : ℤ) (o : ByteString) (ttl : ℤ)
      → Held lm
      → Held (keep_lock now lm k i o ttl).0
  unfolding keep_lock
  keep_lock-Held now lm k i o ttl h = elim (Option-cases (lookup k lm.locks)) [
    | inl none_there ↦ rw (keep_lock, none_there) h
    | inr (there, found) ↦
        elim (Bool-cases (not (eqb_ℤ there.lease_id i) || not (bytes_eq there.owner_id o))) [
          | inl differs ↦ rw (keep_lock, found, differs) h
          | inr same ↦
              rw (keep_lock, found, same)
                (Holds-leases key id owner lm (keep_alive now lm.lease_mgr i (lock_ttl ttl)).0
                  (ground (arith, keep_alive-counter now lm.lease_mgr i (lock_ttl ttl)))
                  (keep_alive-lives now lm.lease_mgr id i (lock_ttl ttl) h.alive) h)
        ]
  ]

  pub get_lock_status-Held :
      (lm : LockManager) (k : ByteString) → Held lm → Held (get_lock_status lm k).0
  unfolding get_lock_status
  get_lock_status-Held lm k h = elim (Option-cases (lookup k lm.locks)) [
    | inl none_there ↦ rw (get_lock_status, none_there) h
    | inr (there, found) ↦ elim (Bool-cases (lease_lives lm.lease_mgr there.lease_id)) [
      | inl lives ↦ rw (get_lock_status, found, lives) h
      | inr gone ↦ elim (Bool-cases (bytes_eq k key)) [
        | inl this ↦
            let mine = Holds-there key id owner lm k there found this h in
            absurd (ground (arith, mine, h.alive))
        | inr apart ↦ rw (get_lock_status, found, gone) (Holds-delete key id owner lm k apart h)
      ]
    ]
  ]

  pub on_lease_expired-Held :
      (ks : List ByteString) (lm : LockManager) (i : ℤ)
      → eqb_ℤ i id ≡ false
      → Held lm
      → Held (on_lease_expired lm i ks)
  unfolding on_lease_expired
  on_lease_expired-Held [] lm i other h = h
  on_lease_expired-Held (k ∷ rest) lm i other h =
      on_lease_expired-Held rest _ i other (elim (Option-cases (lookup k lm.locks)) [
        | inl none_there ↦ rw none_there h
        | inr (there, found) ↦ elim (Bool-cases (eqb_ℤ there.lease_id i)) [
          | inr differs ↦ rw (found, differs) h
          | inl same ↦ elim (Bool-cases (bytes_eq k key)) [
            | inl this ↦
                let mine = Holds-there key id owner lm k there found this h in
                absurd (ground (arith, mine, eqb_ℤ_iff there.lease_id i, eqb_ℤ_iff i id))
            | inr apart ↦ rw (found, same) (Holds-delete key id owner lm k apart h)
          ]
        ]
      ])
