-- ===== src/Lease/Schedule.antt =====
-- The heap of the lease manager of server/server.go and its table of leases: they agree, and every
-- change of one lease keeps that.
use mathlib.Core.Bool.{Bool-set}
use mathlib.Core.Logic.{∥∥₁_elim}
use mathlib.Core.Path.{subst}
use mathlib.Core.List.{Perm, Permᴰ}
use mathlib.Core.List.Perm
use wjetcd.Common.{
  ℕ, zero, suc, ◌-◌, ◌<◌, ◌≡◌, refl, ap, ◌∙◌, arith, Bool, true, false, ◌&&◌, inl, inr, Bool-cases,
  Option-cases, none, some, List, [], ◌∷◌, ◌++◌, length, set, ℤ, eqb_ℤ, eqb_ℤ_iff, int_eq, Map,
  lookup, insert, delete,
}
use wjetcd.Lease.{Lease, reschedule, unschedule}
use wjetcd.Lease.Heap.{LeaseItem, item_at, bubble_up, bubble_down, index_of, remove_at}
use wjetcd.Lease.Heap.Order.{Ordered}
use wjetcd.Lease.Heap.Moves.{
  grow, renew, remove_at-Ordered, held, held-Perm, index_of-none, index_of-some,
}
use wjetcd.Lease.Entries.{
  Listed, lookup-Listed, item_of, items_of, items_of-insert_new, items_of-insert, items_of-delete,
  held-items_of,
}

-- The heap is in order and holds one item for each lease, with its expiry.
pub record IsScheduled (m : Map ℤ Lease) (h : List LeaseItem) : Type 0 where
  pub ordered : Ordered h
  pub agrees : Perm h (items_of m)

-- Whether the item is that of a lease of the table.
abbrev known : Map ℤ Lease → LeaseItem → Bool
known m x = elim (lookup x.id m) [ none ↦ false | some l ↦ eqb_ℤ l.expire_at x.expire_at ]

abbrev all_known : Map ℤ Lease → List LeaseItem → Bool
all_known m [] = true
all_known m (x ∷ h) = known m x && all_known m h

all_known-Perm : (m : Map ℤ Lease) {g h : List LeaseItem} → Perm g h → all_known m g ≡ all_known m h
all_known-Perm m same = ∥∥₁_elim same (Bool-set _ _) along
  where
    swapped : (a b c : Bool) → (a && (b && c)) ≡ (b && (a && c))
    swapped true b c = refl
    swapped false true c = refl
    swapped false false c = refl

    along : {g h : List LeaseItem} → Permᴰ g h → all_known m g ≡ all_known m h
    along Permᴰ.nil = refl
    along (Permᴰ.cons e p) = rw (e, along p) refl
    along (Permᴰ.swap {a} {b} {a'} {b'} {l} x y) =
        rw (x, y) (swapped (known m b') (known m a') (all_known m l))
    along (Permᴰ.trans p q) = along p ∙ along q

items-apart :
    (top : ℤ) (m : Map ℤ Lease) (id : ℤ)
    → Listed top m
    → lookup id m ≡ none
    → held id (items_of m) ≡ false
unfolding lookup
items-apart top [] id h e = refl
items-apart top ((j, l) ∷ m) id h e = elim (Bool-cases (eqb_ℤ j id)) [
  | inl t ↦ cc (rw t at e)
  | inr f ↦ ground (arith, h.0.own_id, items-apart top m id h.2 (rw f at e))
]

all_known-cons :
    (m : Map ℤ Lease) (id : ℤ) (lease : Lease) (h : List LeaseItem)
    → held id h ≡ false
    → all_known m h ≡ true
    → all_known ((id, lease) ∷ m) h ≡ true
unfolding lookup
all_known-cons m id lease [] a k = refl
all_known-cons m id lease (x ∷ h) a k =
    ground (arith, eqb_ℤ_iff x.id id, eqb_ℤ_iff id x.id, all_known-cons m id lease h)

all_known-items_of : (top : ℤ) (m : Map ℤ Lease) → Listed top m → all_known m (items_of m) ≡ true
unfolding lookup
all_known-items_of top [] h = refl
all_known-items_of top ((j, l) ∷ m) h =
    let rest =
      all_known-cons m j l (items_of m) (items-apart top m j h.2 h.1)
        (all_known-items_of top m h.2) in
    rw h.0.own_id (ground (arith, rest, eqb_ℤ_iff j j, eqb_ℤ_iff l.expire_at l.expire_at))

known-at :
    (m : Map ℤ Lease) (h : List LeaseItem) (i : ℕ)
    → all_known m h ≡ true
    → i < length h
    → known m (item_at h i) ≡ true
known-at m [] i k p = absurd (omega arith)
known-at m (x ∷ h) zero k p = ground arith
known-at m (x ∷ h) (suc i) k p = known-at m h i (ground arith) (omega arith)

-- An item of the heap with the id of a lease is that lease's.
item_at-known :
    (top : ℤ) (m : Map ℤ Lease) (h : List LeaseItem) (i : ℕ) (id : ℤ) (lease : Lease)
    → Listed top m
    → Perm h (items_of m)
    → lookup id m ≡ some lease
    → i < length h
    → (item_at h i).id ≡ id
    → item_at h i ≡ item_of lease
item_at-known top m h i id lease listed agrees e inside named =
    let k = known-at m h i (all_known-Perm m agrees ∙ all_known-items_of top m listed) inside in
    let found : lookup (item_at h i).id m ≡ some lease = ap (λ j. lookup j m) named ∙ e in
    let g = lookup-Listed top m id lease listed e in
    let same : lease.expire_at ≡ (item_at h i).expire_at =
      ground (arith, found, k, eqb_ℤ_iff lease.expire_at (item_at h i).expire_at) in
    ground (arith, g.own_id, named, same)

module _ (top : ℤ) (m : Map ℤ Lease) (h : List LeaseItem) (s : IsScheduled m h) where
  -- Every item of the heap is that of a lease of the table.
  pub leased :
      (i : ℕ)
      → Listed top m
      → i < length h
      → (lease : Lease) × (lookup (item_at h i).id m ≡ some lease)
        × (lease.expire_at ≡ (item_at h i).expire_at)
  leased i listed inside =
      let x = item_at h i in
      let k = known-at m h i (all_known-Perm m s.agrees ∙ all_known-items_of top m listed) inside in
      elim (Option-cases (lookup x.id m)) [
        | inl absent ↦ ground (arith, absent, k)
        | inr (lease, found) ↦
            (lease, found, ground (arith, found, k, eqb_ℤ_iff lease.expire_at x.expire_at))
      ]

  pub grow-IsScheduled :
      (id : ℤ) (lease : Lease)
      → lookup id m ≡ none
      → let grown = h ++ item_of lease ∷ [] in
        IsScheduled (insert id lease m) (bubble_up grown (length grown - 1))
  grow-IsScheduled id lease new =
      let (ordered, same) = grow h (item_of lease) s.ordered in
      record {
        ordered = ordered;
        agrees =
            rw (items_of-insert_new m id lease new)
              (Perm.trans same (Perm.append_right (item_of lease ∷ []) s.agrees));
      }

  module _ (listed : Listed top m) (id : ℤ) (old : Lease) (found : lookup id m ≡ some old) where
    -- A change that leaves a lease's id and expiry does not concern the heap.
    pub keep-IsScheduled :
        (lease : Lease) → item_of lease ≡ item_of old → IsScheduled (insert id lease m) h
    keep-IsScheduled lease same = record {
      ordered = s.ordered;
      agrees = Perm.trans s.agrees (
          Perm.trans (items_of-delete top m id old listed found)
            (Perm.symm (rw same at (items_of-insert top m id old lease listed found))));
    }

    pub indexed : (index_of id h ≡ none) → ⊥
    indexed absent =
        cc (
          index_of-none id h absent,
          held-Perm id s.agrees,
          held-items_of top m id old listed found,
        )

    pub named : (i : ℕ) → index_of id h ≡ some i → (i < length h) × (item_at h i ≡ item_of old)
    named i e =
        let (inside, own) = index_of-some id h i e in
        (inside, item_at-known top m h i id old listed s.agrees found inside own)

    pub reschedule-IsScheduled :
        (lease : Lease)
        → lease.id ≡ id
        → IsScheduled (insert id lease m) (reschedule h id lease.expire_at)
    unfolding reschedule
    reschedule-IsScheduled lease own = elim (Option-cases (index_of id h)) [
      | inl absent ↦ absurd (indexed absent)
      | inr (i, e) ↦
          let (inside, same) = named i e in
          let (ordered, moved) = renew h i (item_of lease) s.ordered inside in
          let put = λ (j : ℤ).
            bubble_up (bubble_down (set h i (record { id = j; expire_at = lease.expire_at })) i)
              i in
          rw (reschedule, e)
            (subst (λ j. IsScheduled (insert id lease m) (put j)) own
              (record {
                ordered = ordered;
                agrees =
                    Perm.trans
                      (Perm.cons_inv {a = item_of old} (
                        Perm.trans (rw same at moved) (
                          Perm.trans
                            (Perm.cons (item_of lease)
                              (Perm.trans s.agrees (items_of-delete top m id old listed found)))
                            (Perm.swap (item_of old) (item_of lease) (items_of (delete id m))))))
                      (Perm.symm (items_of-insert top m id old lease listed found));
              }))
    ]

    removed-IsScheduled :
        (i : ℕ)
        → i < length h
        → item_at h i ≡ item_of old
        → IsScheduled (delete id m) (remove_at h i)
    removed-IsScheduled i inside same =
        let (ordered, left) = remove_at-Ordered h i s.ordered inside in
        record {
          ordered = ordered;
          agrees = Perm.cons_inv {a = item_of old} (
              Perm.trans (rw same at left)
                (Perm.trans s.agrees (items_of-delete top m id old listed found)));
        }

    pub unschedule-IsScheduled : IsScheduled (delete id m) (unschedule h id)
    unfolding unschedule
    unschedule-IsScheduled = elim (Option-cases (index_of id h)) [
      | inl absent ↦ absurd (indexed absent)
      | inr (i, e) ↦
          let (inside, same) = named i e in rw (unschedule, e) (removed-IsScheduled i inside same)
    ]

    -- The first item, where it is that lease's.
    pub unschedule_first-IsScheduled :
        0 < length h → (item_at h 0).id ≡ id → IsScheduled (delete id m) (remove_at h 0)
    unschedule_first-IsScheduled some_item own =
        removed-IsScheduled 0 some_item
          (item_at-known top m h 0 id old listed s.agrees found some_item own)
