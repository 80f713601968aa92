-- ===== src/Lease/Heap/Sink.antt =====
-- `bubbleDown` of server/server.go, alone, with `bubbleUp` after it, and in the loop of `Restore`.
use mathlib.Core.List.{Perm}
use mathlib.Core.List.Perm
use native.Mathlib.Decide.{ℕ_discrete}
use wjetcd.Common.{
  ℕ, zero, suc, ◌+◌, ◌*◌, ◌/◌, ◌≤◌, ◌<◌, ◌≡◌, ◌≢◌, refl, arith, ◌⊎◌, inl, inr, Bool-cases, List,
  ◌==◌, ==_iff, ◌≤ℤ◌, ◌<ℤ◌, length,
}
use wjetcd.Lease.Heap.{
  LeaseItem, expiry, parent, swap, bubble_up, smaller_left, smallest, bubble_down_loop, bubble_down,
  heapify_loop, heapify,
}
use wjetcd.Lease.Heap.Items.{length-swap, item_at-swap, swap-Perm}
use wjetcd.Lease.Heap.Order.{
  OrderedFrom, Ordered, Spanned, Sinking, bubble_up-Ordered, length-perm, Ordered-Rising,
}

-- Where the item stays, its children expire no earlier.
smallest-stays :
    (h : List LeaseItem) (i c : ℕ)
    → smallest h i ≡ i
    → 0 < c
    → c < length h
    → parent c ≡ i
    → expiry h i ≤ℤ expiry h c
unfolding smallest smaller_left
smallest-stays h i c e p q r =
    let child : (c ≡ 2 * i + 1) ⊎ (c ≡ 2 * i + 2) = omega arith in
    elim child [ inl l ↦ rw l (ground arith) | inr l ↦ rw l (ground arith) ]

-- Where it moves, it moves to the child that expires first.
record Earliest (h : List LeaseItem) (i m : ℕ) : Type 0 where
  inside : m < length h
  child : parent m ≡ i
  below : i < m
  early : expiry h m <ℤ expiry h i
  first : (c : ℕ) → 0 < c → c < length h → parent c ≡ i → expiry h m ≤ℤ expiry h c

smallest-Earliest : (h : List LeaseItem) (i : ℕ) → smallest h i ≢ i → Earliest h i (smallest h i)
unfolding smallest smaller_left
smallest-Earliest h i moves = record {
  inside = ground arith;
  child = ground arith;
  below = ground arith;
  early = ground arith;
  first = λ c p q r.
      let child : (c ≡ 2 * i + 1) ⊎ (c ≡ 2 * i + 2) = omega arith in
      elim child [ inl l ↦ rw l (ground arith) | inr l ↦ rw l (ground arith) ];
}

swap-Sinking :
    (low : ℕ) (h : List LeaseItem) (i m : ℕ)
    → Sinking low h i
    → Earliest h i m
    → Sinking low (swap h i m) m
swap-Sinking low h i m v s =
    let at = λ (c : ℕ). item_at-swap h i m c (omega (arith, s.inside, s.below)) s.inside in
    let size = length-swap h i m in
    record {
      edges = λ c p q r t. ground (
        arith,
        size,
        s.child,
        s.below,
        s.early,
        at c,
        at (parent c),
        v.edges c,
        v.spans c,
        v.spans m,
        s.first c,
      );
      spans = λ c p q r t u. ground (arith, size, s.child, s.below, at c, at (parent m), v.edges c);
    }

bubble_down_loop-OrderedFrom :
    (fuel low : ℕ) (h : List LeaseItem) (i : ℕ)
    → length h ≤ fuel + i
    → Sinking low h i
    → OrderedFrom low (bubble_down_loop fuel h i) × Perm (bubble_down_loop fuel h i) h
unfolding bubble_down_loop
bubble_down_loop-OrderedFrom zero low h i f v =
    ((λ c p q r. v.edges c p q r (omega arith)), Perm.rfl)
bubble_down_loop-OrderedFrom (suc fuel) low h i f v = elim (Bool-cases (smallest h i == i)) [
  | inl stays ↦
      let here = (==_iff (smallest h i) i).0 stays in
      rw stays ((λ c p q r. ground (arith, v.edges c, smallest-stays h i c here)), Perm.rfl)
  | inr moves ↦
      let s = smallest-Earliest h i (ground (arith, ==_iff (smallest h i) i)) in
      let (ordered, same) =
        bubble_down_loop-OrderedFrom fuel low (swap h i (smallest h i)) (smallest h i)
          (omega (arith, s.below, length-swap h i (smallest h i)))
          (swap-Sinking low h i (smallest h i) v s) in
      rw moves (
        ordered,
        Perm.trans same (swap-Perm h i (smallest h i) (omega (arith, s.inside, s.below)) s.inside),
      )
]

-- `bubbleDown` puts an item that stands too high into its place.
pub bubble_down-OrderedFrom :
    (low : ℕ) (h : List LeaseItem) (i : ℕ)
    → Sinking low h i
    → OrderedFrom low (bubble_down h i) × Perm (bubble_down h i) h
unfolding bubble_down
bubble_down-OrderedFrom low h i v = bubble_down_loop-OrderedFrom (length h) low h i (omega arith) v

-- Only the item at `i` may stand in a wrong place.
pub record Loose (h : List LeaseItem) (i : ℕ) : Type 0 where
  pub inside : i < length h
  pub edges :
      (c : ℕ) → 0 < c → c < length h → c ≢ i → parent c ≢ i → expiry h (parent c) ≤ℤ expiry h c
  pub spans : Spanned 0 h i

swap-Loose : (h : List LeaseItem) (i m : ℕ) → Loose h i → Earliest h i m → Sinking 0 (swap h i m) m
swap-Loose h i m v s =
    let at = λ (c : ℕ). item_at-swap h i m c v.inside s.inside in
    let size = length-swap h i m in
    record {
      edges = λ c p q r t. ground (
        arith,
        size,
        s.child,
        s.below,
        s.early,
        at c,
        at (parent c),
        v.edges c,
        v.spans m,
        s.first c,
      );
      spans = λ c p q r t u. ground (arith, size, s.child, s.below, at c, at (parent m), v.edges c);
    }

settle_loop :
    (fuel : ℕ) (h : List LeaseItem) (i : ℕ)
    → length h ≤ fuel + i
    → Loose h i
    → Ordered (bubble_up (bubble_down_loop fuel h i) i)
      × Perm (bubble_up (bubble_down_loop fuel h i) i) h
settle_loop zero h i f v = absurd (omega (arith, v.inside))
settle_loop (suc fuel) h i f v = elim (Bool-cases (smallest h i == i)) [
  | inl stays ↦
      let here = (==_iff (smallest h i) i).0 stays in
      let still : bubble_down_loop (suc fuel) h i ≡ h = unfold bubble_down_loop in rw stays refl in
      rw still (
        bubble_up-Ordered h i (record {
          inside = v.inside;
          edges = λ c p q r. elim (ℕ_discrete (parent c) i) [
            | yes e ↦ rw e (smallest-stays h i c here p q e)
            | no n ↦ v.edges c p q r n
          ];
          spans = v.spans;
        }))
  | inr moves ↦
      let s = smallest-Earliest h i (ground (arith, ==_iff (smallest h i) i)) in
      let swapped = swap h i (smallest h i) in
      let moved : bubble_down_loop (suc fuel) h i ≡ bubble_down_loop fuel swapped (smallest h i) =
        unfold bubble_down_loop in rw moves refl in
      let (ordered, same) =
        bubble_down_loop-OrderedFrom fuel 0 swapped (smallest h i)
          (omega (arith, s.below, length-swap h i (smallest h i)))
          (swap-Loose h i (smallest h i) v s) in
      let size = length-perm same in
      let (risen, kept) = bubble_up-Ordered (bubble_down_loop fuel swapped (smallest h i)) i (
        Ordered-Rising _ i (omega (arith, size, length-swap h i (smallest h i), v.inside))
          ordered) in
      rw moved
        (risen, Perm.trans kept (Perm.trans same (swap-Perm h i (smallest h i) v.inside s.inside)))
]

-- `bubbleDown` and then `bubbleUp` put one item into its place, whichever way it has to go.
pub settle :
    (h : List LeaseItem) (i : ℕ)
    → Loose h i
    → Ordered (bubble_up (bubble_down h i) i) × Perm (bubble_up (bubble_down h i) i) h
unfolding bubble_down
settle h i v = settle_loop (length h) h i (omega arith) v

heapify_loop-Ordered :
    (i : ℕ) (h : List LeaseItem)
    → OrderedFrom i h
    → Ordered (heapify_loop i h) × Perm (heapify_loop i h) h
unfolding heapify_loop
heapify_loop-Ordered zero h v = (v, Perm.rfl)
heapify_loop-Ordered (suc i) h v =
    let (ordered, same) = bubble_down-OrderedFrom i h i (record {
      edges = λ c p q r s. v c p q (omega arith);
      spans = λ c p q r s t. absurd (omega arith);
    }) in
    let (all, kept) = heapify_loop-Ordered i (bubble_down h i) ordered in
    (all, Perm.trans kept same)

-- The loop of `Restore` orders any items.
pub heapify-Ordered : (h : List LeaseItem) → Ordered (heapify h) × Perm (heapify h) h
unfolding heapify
heapify-Ordered h = heapify_loop-Ordered (length h / 2) h (λ c p q r. absurd (omega arith))
