-- ===== src/Lease/Heap/Order.antt =====
-- The heap order under `bubbleUp` and `bubbleDown` of server/server.go.
use mathlib.Core.Logic.{∥∥₁_elim}
use mathlib.Core.List.{Perm, Permᴰ}
use mathlib.Core.List.Perm
use native.Mathlib.Nat.{ℕ_set}
use wjetcd.Common.{
  ℕ, zero, suc, ◌≤◌, ◌<◌, ◌≡◌, ◌≢◌, refl, ap, ◌∙◌, arith, inl, inr, Bool-cases, List, ◌==◌, ◌≤ℤ◌,
  ◌<ℤ◌, leb_ℤ, length,
}
use wjetcd.Lease.Heap.{LeaseItem, expiry, parent, swap, bubble_up_loop, bubble_up}
use wjetcd.Lease.Heap.Items.{length-swap, item_at-swap, swap-Perm}

-- No item at or below the children of `low` expires before its parent.
abbrev pub OrderedFrom : ℕ → List LeaseItem → Type 0
OrderedFrom low h =
    (c : ℕ) → 0 < c → c < length h → low ≤ parent c → expiry h (parent c) ≤ℤ expiry h c

abbrev pub Ordered : List LeaseItem → Type 0
Ordered h = OrderedFrom 0 h

-- The children of `i` do not expire before its parent.
abbrev pub Spanned : ℕ → List LeaseItem → ℕ → Type 0
Spanned low h i =
    (c : ℕ)
    → 0 < c
    → c < length h
    → parent c ≡ i
    → 0 < i
    → low ≤ parent i
    → expiry h (parent i) ≤ℤ expiry h c

-- Only the item at `i` may stand too low.
pub record Rising (h : List LeaseItem) (i : ℕ) : Type 0 where
  pub inside : i < length h
  pub edges : (c : ℕ) → 0 < c → c < length h → c ≢ i → expiry h (parent c) ≤ℤ expiry h c
  pub spans : Spanned 0 h i

-- Only the item at `i` may stand too high.
pub record Sinking (low : ℕ) (h : List LeaseItem) (i : ℕ) : Type 0 where
  pub edges :
      (c : ℕ)
      → 0 < c
      → c < length h
      → low ≤ parent c
      → parent c ≢ i
      → expiry h (parent c) ≤ℤ expiry h c
  pub spans : Spanned low h i

swap-Rising :
    (h : List LeaseItem) (i : ℕ)
    → Rising h i
    → 0 < i
    → expiry h i <ℤ expiry h (parent i)
    → Rising (swap h i (parent i)) (parent i)
swap-Rising h i v above early =
    let up : parent i < length h = omega (arith, v.inside) in
    let at = λ (c : ℕ). item_at-swap h i (parent i) c v.inside up in
    let size = length-swap h i (parent i) in
    record {
      inside = omega (arith, size);
      edges = λ c p q r. ground (arith, size, at c, at (parent c), v.edges c, v.spans c, early);
      spans = λ c p q r s t.
          ground (arith, size, at c, at (parent (parent i)), v.edges c, v.edges (parent i), early);
    }

bubble_up_loop-Ordered :
    (fuel : ℕ) (h : List LeaseItem) (i : ℕ)
    → i < fuel
    → Rising h i
    → Ordered (bubble_up_loop fuel h i) × Perm (bubble_up_loop fuel h i) h
unfolding bubble_up_loop
bubble_up_loop-Ordered zero h i f v = absurd (omega arith)
bubble_up_loop-Ordered (suc fuel) h i f v = elim (Bool-cases (i == 0)) [
  | inl root ↦ rw root ((λ c p q r. v.edges c p q (ground arith)), Perm.rfl)
  | inr inner ↦ elim (Bool-cases (leb_ℤ (expiry h (parent i)) (expiry h i))) [
    | inl late ↦ rw (inner, late) ((λ c p q r. ground (arith, v.edges c)), Perm.rfl)
    | inr early ↦
        let up : parent i < length h = omega (arith, v.inside) in
        let (ordered, same) =
          bubble_up_loop-Ordered fuel (swap h i (parent i)) (parent i) (ground arith)
            (swap-Rising h i v (ground arith) (ground arith)) in
        rw (inner, early) (ordered, Perm.trans same (swap-Perm h i (parent i) v.inside up))
  ]
]

-- `bubbleUp` puts an item that stands too low into its place.
pub bubble_up-Ordered :
    (h : List LeaseItem) (i : ℕ) → Rising h i → Ordered (bubble_up h i) × Perm (bubble_up h i) h
unfolding bubble_up
bubble_up-Ordered h i v = bubble_up_loop-Ordered (suc i) h i (omega arith) v

pub length-perm : {g h : List LeaseItem} → Perm g h → length g ≡ length h
length-perm same = ∥∥₁_elim same (ℕ_set _ _) counted
  where
    counted : {g h : List LeaseItem} → Permᴰ g h → length g ≡ length h
    counted Permᴰ.nil = refl
    counted (Permᴰ.cons x p) = ap suc (counted p)
    counted (Permᴰ.swap x y) = refl
    counted (Permᴰ.trans p q) = counted p ∙ counted q

pub Ordered-Rising : (h : List LeaseItem) (i : ℕ) → i < length h → Ordered h → Rising h i
Ordered-Rising h i inside ordered = record {
  inside = inside;
  edges = λ c p q r. ordered c p q (omega arith);
  spans = λ c p q r s t.
      let below = ordered c p q (omega arith) in
      let above = ordered i s inside (omega arith) in ground (arith, below, above);
}

first_below :
    (bound : ℕ) (h : List LeaseItem) (i : ℕ)
    → Ordered h
    → i < bound
    → i < length h
    → expiry h 0 ≤ℤ expiry h i
first_below zero h i v f p = absurd (omega arith)
first_below (suc bound) h zero v f p = omega arith
first_below (suc bound) h (suc i) v f p =
    let above = first_below bound h (parent (suc i)) v (omega arith) (omega arith) in
    omega (arith, above, v (suc i) (omega arith) p (omega arith))

-- The first item of an ordered heap expires no later than any other.
pub first_expires :
    (h : List LeaseItem) (i : ℕ) → Ordered h → i < length h → expiry h 0 ≤ℤ expiry h i
first_expires h i v p = first_below (suc i) h i v (omega arith) p
