-- ===== src/Lease/Entries.antt =====
-- The table of leases of server/server.go as a list: its entries, and the heap items that they
-- stand for.
use mathlib.Core.Path.{subst}
use mathlib.Core.List.{Perm}
use mathlib.Core.List.Perm
use wjetcd.Common.{
  ◌≡◌, refl, ap, ◌∙◌, arith, true, false, inl, inr, Bool-cases, none, some, List, [], ◌∷◌, ◌++◌, ℤ,
  pos, ◌≤ℤ◌, ◌<ℤ◌, eqb_ℤ, eqb_ℤ_iff, int_eq, Map, lookup, insert, delete,
}
use wjetcd.Lease.{Lease}
use wjetcd.Lease.Heap.{LeaseItem}
use wjetcd.Lease.Heap.Moves.{held}

-- A lease under its own id, not past the counter, with a time to live and an expiry that `Restore`
-- accepts.
pub record IsGood (top id : ℤ) (lease : Lease) : Type 0 where
  pub own_id : lease.id ≡ id
  pub positive : pos 0 <ℤ id
  pub counted : id ≤ℤ top
  pub lives : pos 0 <ℤ lease.ttl
  pub expires : pos 0 <ℤ lease.expire_at

-- A table of such leases, with one entry to an id.
abbrev pub Listed : ℤ → Map ℤ Lease → Type 0
Listed top [] = Unit {0}
Listed top ((id, lease) ∷ rest) = IsGood top id lease × (lookup id rest ≡ none) × Listed top rest

pub some-injective {ℓ} : {A : Type ℓ} {a b : A} → some a ≡ some b → a ≡ b
some-injective e = cc

pub lookup-Listed :
    (top : ℤ) (m : Map ℤ Lease) (id : ℤ) (lease : Lease)
    → Listed top m
    → lookup id m ≡ some lease
    → IsGood top id lease
unfolding lookup
lookup-Listed top [] id lease h e = cc
lookup-Listed top ((j, l) ∷ m) id lease h e = elim (Bool-cases (eqb_ℤ j id)) [
  | inl t ↦
      subst (λ i. IsGood top i lease) ((eqb_ℤ_iff j id).0 t)
        (subst (IsGood top j) (some-injective (rw t at e)) h.0)
  | inr f ↦ lookup-Listed top m id lease h.2 (rw f at e)
]

abbrev pub item_of : Lease → LeaseItem
item_of lease = record { id = lease.id; expire_at = lease.expire_at }

-- The items of the leases, in the order of the table.
abbrev pub items_of : Map ℤ Lease → List LeaseItem
items_of [] = []
items_of ((id, lease) ∷ rest) = item_of lease ∷ items_of rest

pub insert-end :
    (id : ℤ) (lease : Lease) (m : Map ℤ Lease)
    → lookup id m ≡ none
    → insert id lease m ≡ m ++ (id, lease) ∷ []
unfolding insert lookup
insert-end id lease [] e = refl
insert-end id lease ((j, l) ∷ m) e = elim (Bool-cases (eqb_ℤ j id)) [
  | inl t ↦ cc (rw t at e)
  | inr f ↦ rw f (ap (λ r. (j, l) ∷ r) (insert-end id lease m (rw f at e)))
]

pub fresh-Listed :
    (top : ℤ) (m : Map ℤ Lease) (id : ℤ) → Listed top m → top <ℤ id → lookup id m ≡ none
unfolding lookup
fresh-Listed top [] id h above = refl
fresh-Listed top ((j, l) ∷ m) id h above =
    let other : eqb_ℤ j id ≡ false = ground (arith, h.0.counted) in
    rw other (fresh-Listed top m id h.2 above)

items_of-end :
    (m : Map ℤ Lease) (id : ℤ) (lease : Lease)
    → items_of (m ++ (id, lease) ∷ []) ≡ items_of m ++ item_of lease ∷ []
items_of-end [] id lease = refl
items_of-end ((j, l) ∷ m) id lease = ap (λ t. item_of l ∷ t) (items_of-end m id lease)

-- A new entry brings its item.
pub items_of-insert_new :
    (m : Map ℤ Lease) (id : ℤ) (lease : Lease)
    → lookup id m ≡ none
    → items_of (insert id lease m) ≡ items_of m ++ item_of lease ∷ []
items_of-insert_new m id lease e = ap items_of (insert-end id lease m e) ∙ items_of-end m id lease

delete-absent : (m : Map ℤ Lease) (id : ℤ) → lookup id m ≡ none → delete id m ≡ m
unfolding delete lookup
delete-absent [] id e = refl
delete-absent ((j, l) ∷ m) id e = elim (Bool-cases (eqb_ℤ j id)) [
  | inl t ↦ cc (rw t at e)
  | inr f ↦ rw f (ap (λ t. (j, l) ∷ t) (delete-absent m id (rw f at e)))
]

-- The item of an entry, and those of the others.
pub items_of-delete :
    (top : ℤ) (m : Map ℤ Lease) (id : ℤ) (lease : Lease)
    → Listed top m
    → lookup id m ≡ some lease
    → Perm (items_of m) (item_of lease ∷ items_of (delete id m))
unfolding lookup delete
items_of-delete top [] id lease h e = cc
items_of-delete top ((j, l) ∷ m) id lease h e = elim (Bool-cases (eqb_ℤ j id)) [
  | inl t ↦
      let alone = delete-absent m id (rw ((eqb_ℤ_iff j id).0 t) at h.1) in
      rw (t, alone)
        (subst (λ x. Perm (item_of l ∷ items_of m) (item_of x ∷ items_of m))
          (some-injective (rw t at e)) Perm.rfl)
  | inr f ↦ rw f (
      Perm.trans (Perm.cons (item_of l) (items_of-delete top m id lease h.2 (rw f at e)))
        (Perm.swap (item_of lease) (item_of l) (items_of (delete id m))))
]

pub items_of-insert :
    (top : ℤ) (m : Map ℤ Lease) (id : ℤ) (old lease : Lease)
    → Listed top m
    → lookup id m ≡ some old
    → Perm (items_of (insert id lease m)) (item_of lease ∷ items_of (delete id m))
unfolding lookup delete insert
items_of-insert top [] id old lease h e = cc
items_of-insert top ((j, l) ∷ m) id old lease h e = elim (Bool-cases (eqb_ℤ j id)) [
  | inl t ↦
      let alone = delete-absent m id (rw ((eqb_ℤ_iff j id).0 t) at h.1) in rw (t, alone) Perm.rfl
  | inr f ↦ rw f (
      Perm.trans (Perm.cons (item_of l) (items_of-insert top m id old lease h.2 (rw f at e)))
        (Perm.swap (item_of lease) (item_of l) (items_of (delete id m))))
]

-- The table has an item for a lease that it holds.
pub held-items_of :
    (top : ℤ) (m : Map ℤ Lease) (id : ℤ) (lease : Lease)
    → Listed top m
    → lookup id m ≡ some lease
    → held id (items_of m) ≡ true
unfolding lookup
held-items_of top [] id lease h e = cc
held-items_of top ((j, l) ∷ m) id lease h e = elim (Bool-cases (eqb_ℤ j id)) [
  | inl t ↦ ground (arith, h.0.own_id)
  | inr f ↦ ground (arith, held-items_of top m id lease h.2 (rw f at e))
]
