-- ===== src/Server/Cleanup/Left.antt =====
-- server/server.go: what the cleanup loop takes away, and that it adds up over the rounds.
use wjetcd.Common.{
  ℕ, ◌≤◌, ◌<◌, ◌≡◌, refl, ap, ◌∙◌, arith, inl, inr, true, false, Bool-cases, if◌then◌else◌,
  Option-cases, none, some, [], ◌∷◌, ByteString, keys, length, ℤ, ◌≤ℤ◌, ◌<ℤ◌, ltb_ℤ, eqb_ℤ,
  eqb_ℤ_iff, int_eq, Map, lookup, delete, lookup-delete,
}
use wjetcd.Lease.{Lease, LeaseManager, revoke_lease}
use wjetcd.Lease.Heap.{LeaseItem}
use wjetcd.Lease.Table.{HasLeases}
use wjetcd.Server.State.{Server}
use wjetcd.Kv.Prefix.{live, contains}
use wjetcd.Server.Cleanup.Round.{IsDue, Revoked}

length-delete-le : (m : Map ℤ Lease) (id : ℤ) → length (delete id m) ≤ length m
unfolding delete
length-delete-le [] id = omega arith
length-delete-le ((j, l) ∷ m) id = ground (arith, length-delete-le m id)

pub length-delete :
    (m : Map ℤ Lease) (id : ℤ) (lease : Lease)
    → lookup id m ≡ some lease
    → length (delete id m) < length m
unfolding delete lookup
length-delete [] id lease e = cc
length-delete ((j, l) ∷ m) id lease e =
    ground (arith, length-delete-le m id, length-delete m id lease)

pub revoke_lease-leases :
    (le : LeaseManager) (id : ℤ) (lease : Lease)
    → lookup id le.leases ≡ some lease
    → (revoke_lease le id).0.leases ≡ delete id le.leases
unfolding revoke_lease
revoke_lease-leases le id lease found = rw (revoke_lease, found) refl

-- From one table to the next only leases that some reading of the clock had passed are lost, and
-- those that every reading had passed are.
pub record Purged (clock : ℕ → ℤ) (old new : Map ℤ Lease) : Type 0 where
  pub gone :
      (now id : ℤ) (lease : Lease)
      → ((k : ℕ) → now ≤ℤ clock k)
      → lookup id new ≡ some lease
      → now <ℤ lease.expire_at
  pub kept :
      (id : ℤ) (lease : Lease)
      → lookup id old ≡ some lease
      → ((k : ℕ) → clock k <ℤ lease.expire_at)
      → lookup id new ≡ some lease
  pub left : (id : ℤ) (lease : Lease) → lookup id new ≡ some lease → lookup id old ≡ some lease

-- A key of a lease that was lost has no value, and one that belongs to none keeps its own.
pub record Emptied (s s' : Server) : Type 0 where
  pub dead :
      (id : ℤ) (lease : Lease) (key : ByteString)
      → lookup id s.lease_mgr.leases ≡ some lease
      → lookup id s'.lease_mgr.leases ≡ none
      → contains (keys lease.attached) key ≡ true
      → live s'.store key ≡ none
  pub untouched :
      (key : ByteString)
      → ((id : ℤ) (lease : Lease)
          → lookup id s.lease_mgr.leases ≡ some lease
          → lookup id s'.lease_mgr.leases ≡ none
          → contains (keys lease.attached) key ≡ false)
      → live s'.store key ≡ live s.store key
  pub quiet : (key : ByteString) → live s.store key ≡ none → live s'.store key ≡ none

-- What the loop leaves behind.
pub record Cleaned (clock : ℕ → ℤ) (s s' : Server) : Type 0 where
  pub purged : Purged clock s.lease_mgr.leases s'.lease_mgr.leases
  pub emptied : Emptied s s'
  pub leases : HasLeases s'.lease_mgr
  pub healthy : s'.persistence_failed ≡ false

pub stopped :
    (clock : ℕ → ℤ) (s : Server)
    → s.persistence_failed ≡ false
    → HasLeases s.lease_mgr
    → ((now id : ℤ) (lease : Lease)
        → ((k : ℕ) → now ≤ℤ clock k)
        → lookup id s.lease_mgr.leases ≡ some lease
        → now <ℤ lease.expire_at)
    → Cleaned clock s s
stopped clock s healthy h rest = record {
  purged = record { gone = rest; kept = λ id lease e f. e; left = λ id lease e. e };
  emptied = record {
    dead = λ id lease key e f g. cc;
    untouched = λ key f. refl;
    quiet = λ key e. e;
  };
  leases = h;
  healthy = healthy;
}

pub ltb_ℤ-lt : (a b : ℤ) → ltb_ℤ a b ≡ true → a <ℤ b
ltb_ℤ-lt a b e = ground arith

-- One more lease revoked before.
module _ (item : LeaseItem) (s s1 s' : Server) (due : IsDue s.lease_mgr item)
    (revoked : Revoked s s1 item.id due.lease) where
  table_after :
      (id : ℤ)
      → lookup id s1.lease_mgr.leases
        ≡ (if eqb_ℤ item.id id then none else lookup id s.lease_mgr.leases)
  table_after id =
      ap (λ le. lookup id le.leases) revoked.leases
      ∙ ap (lookup id) (revoke_lease-leases s.lease_mgr item.id due.lease due.found)
      ∙ lookup-delete item.id id s.lease_mgr.leases

  after_purge :
      (clock : ℕ → ℤ) (round : ℕ)
      → item.expire_at ≤ℤ clock round
      → Purged clock s1.lease_mgr.leases s'.lease_mgr.leases
      → Purged clock s.lease_mgr.leases s'.lease_mgr.leases
  after_purge clock round late p = record {
    gone = p.gone;
    kept = λ id lease e f.
        p.kept id lease
          (ground
            (arith, table_after id, e, eqb_ℤ_iff item.id id, due.found, due.same, f round, late))
          f;
    left = λ id lease e. ground (arith, table_after id, p.left id lease e);
  }

  lost :
      ((id : ℤ) (lease : Lease)
        → lookup id s'.lease_mgr.leases ≡ some lease
        → lookup id s1.lease_mgr.leases ≡ some lease)
      → lookup item.id s'.lease_mgr.leases ≡ none
  lost left = elim (Option-cases (lookup item.id s'.lease_mgr.leases)) [
    | inl gone ↦ gone
    | inr (lease, e) ↦
        ground (arith, left item.id lease e, table_after item.id, eqb_ℤ_iff item.id item.id)
  ]

  after_emptied :
      ((id : ℤ) (lease : Lease)
        → lookup id s'.lease_mgr.leases ≡ some lease
        → lookup id s1.lease_mgr.leases ≡ some lease)
      → Emptied s1 s'
      → Emptied s s'
  after_emptied left c = record {
    dead = λ id lease key e f g. elim (Bool-cases (eqb_ℤ item.id id)) [
      | inl same ↦
          c.quiet key (ground (arith, revoked.values key, eqb_ℤ_iff item.id id, due.found, e, g))
      | inr other ↦ c.dead id lease key (table_after id ∙ rw other e) f g
    ];
    untouched = λ key f.
        c.untouched key (λ id lease e g. f id lease (ground (arith, table_after id, e)) g)
        ∙ revoked.values key
        ∙ rw (f item.id due.lease due.found (lost left)) refl;
    quiet = λ key e. c.quiet key (ground (arith, revoked.values key, e));
  }

  pub after_revoke :
      (clock : ℕ → ℤ) (round : ℕ)
      → item.expire_at ≤ℤ clock round
      → Cleaned clock s1 s'
      → Cleaned clock s s'
  after_revoke clock round late c = record {
    purged = after_purge clock round late c.purged;
    emptied = after_emptied c.purged.left c.emptied;
    leases = c.leases;
    healthy = c.healthy;
  }
