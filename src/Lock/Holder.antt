-- ===== src/Lock/Holder.antt =====
-- What a holder of a lock of server/lock.go has, and which changes of the table and of the leases
-- leave it to him.
use wjetcd.Common.{
  ◌≡◌, ◌≢◌, refl, sym, ap, ◌∙◌, arith, true, false, Bool-cases, inl, inr, some, ByteString,
  bytes_eq, bytes_eq_iff, bytes_key, ℤ, pos, ◌≤ℤ◌, ◌<ℤ◌, lookup, insert, delete, lookup-insert,
  lookup-delete,
}
use wjetcd.Lease.{LeaseManager}
use wjetcd.Lock.{LockManager, LockInfo, lease_lives, is_held}

some-injective {ℓ} : {A : Type ℓ} {a b : A} → some a ≡ some b → a ≡ b
some-injective e = cc

module _ (key : ByteString) (id : ℤ) (owner : ByteString) where
  -- The owner has the lock of the key by the lease, which lives and is that of no other lock.
  pub record Holds (lm : LockManager) : Type 0 where
    pub info : LockInfo
    pub entry : lookup key lm.locks ≡ some info
    pub by_lease : info.lease_id ≡ id
    pub by_owner : info.owner_id ≡ owner
    pub positive : pos 0 <ℤ id
    pub alive : lease_lives lm.lease_mgr id ≡ true
    pub issued : id ≤ℤ lm.lease_mgr.lease_id
    pub alone :
        (k : ByteString) (other : LockInfo)
        → lookup k lm.locks ≡ some other
        → other.lease_id ≡ id
        → bytes_eq k key ≡ true

  pub Holds-is_held : (lm : LockManager) → Holds lm → is_held lm key ≡ true
  unfolding is_held
  Holds-is_held lm h = ground (arith, h.entry, h.by_lease, h.alive, h.positive)

  -- An entry of the key is the holder's.
  pub Holds-there :
      (lm : LockManager) (k : ByteString) (there : LockInfo)
      → lookup k lm.locks ≡ some there
      → bytes_eq k key ≡ true
      → Holds lm
      → (there.lease_id ≡ id) × (there.owner_id ≡ owner)
  Holds-there lm k there at this h =
      let same_key = (bytes_eq_iff k key).0 this in
      let same : there ≡ h.info =
        some-injective (sym at ∙ ap (λ x. lookup x lm.locks) same_key ∙ h.entry) in
      (ap (λ x. x.lease_id) same ∙ h.by_lease, ap (λ x. x.owner_id) same ∙ h.by_owner)

  pub Holds-leases :
      (lm : LockManager) (le : LeaseManager)
      → lm.lease_mgr.lease_id ≤ℤ le.lease_id
      → lease_lives le id ≡ true
      → Holds lm
      → Holds (record lm { lease_mgr = le })
  Holds-leases lm le later lives h = record {
    info = h.info;
    entry = h.entry;
    by_lease = h.by_lease;
    by_owner = h.by_owner;
    positive = h.positive;
    alive = lives;
    issued = omega (arith, h.issued);
    alone = h.alone;
  }

  pub Holds-delete :
      (lm : LockManager) (k : ByteString)
      → bytes_eq k key ≡ false
      → Holds lm
      → Holds (record lm { locks = delete k lm.locks })
  Holds-delete lm k other h = record {
    info = h.info;
    entry = lookup-delete k key lm.locks ∙ rw other h.entry;
    by_lease = h.by_lease;
    by_owner = h.by_owner;
    positive = h.positive;
    alive = h.alive;
    issued = h.issued;
    alone = λ j info found same.
        h.alone j info (ground (arith, lookup-delete k j lm.locks, found)) same;
  }

  pub Holds-insert :
      (lm : LockManager) (k : ByteString) (new : LockInfo)
      → bytes_eq k key ≡ false
      → new.lease_id ≢ id
      → Holds lm
      → Holds (record lm { locks = insert k new lm.locks })
  Holds-insert lm k new other fresh h = record {
    info = h.info;
    entry = lookup-insert k key new lm.locks ∙ rw other h.entry;
    by_lease = h.by_lease;
    by_owner = h.by_owner;
    positive = h.positive;
    alive = h.alive;
    issued = h.issued;
    alone = λ j info found same. elim (Bool-cases (bytes_eq k j)) [
      | inl this ↦ absurd (fresh (ground (arith, lookup-insert k j new lm.locks)))
      | inr that ↦ h.alone j info (rw that at (sym (lookup-insert k j new lm.locks) ∙ found)) same
    ];
  }

  -- A waiter is noted in an entry.
  pub Holds-wait :
      (lm : LockManager) (k waiter : ByteString) (there : LockInfo)
      → lookup k lm.locks ≡ some there
      → Holds lm
      → Holds (record lm { locks = insert k (record there { watcher = some waiter }) lm.locks })
  Holds-wait lm k waiter there at h =
      let new = record there { watcher = some waiter } in
      elim (Bool-cases (bytes_eq k key)) [
        | inl this ↦
            let (by_lease, by_owner) = Holds-there lm k there at this h in
            record {
              info = new;
              entry = lookup-insert k key new lm.locks ∙ rw this refl;
              by_lease = by_lease;
              by_owner = by_owner;
              positive = h.positive;
              alive = h.alive;
              issued = h.issued;
              alone = λ j info found same. elim (Bool-cases (bytes_eq k j)) [
                | inl here ↦ rw (sym ((bytes_eq_iff k j).0 here)) this
                | inr that ↦
                    h.alone j info (rw that at (sym (lookup-insert k j new lm.locks) ∙ found)) same
              ];
            }
        | inr other ↦
            Holds-insert lm k new other (λ same. let same_key = h.alone k there at same in cc) h
      ]
