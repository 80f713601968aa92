-- ===== src/Lease/Heap/Items.antt =====
-- The heap of the lease manager as an array: what reading, writing and swapping do to it.
use mathlib.Core.List.{Perm}
use mathlib.Core.List.Perm
use wjetcd.Common.{
  ℕ, zero, suc, ◌<◌, ◌≡◌, refl, arith, List, [], ◌∷◌, ◌++◌, if◌then◌else◌, ◌==◌, length, take, set,
  length-set,
}
use wjetcd.Lease.Heap.{LeaseItem, item_at, swap}

pub item_at-set :
    (h : List LeaseItem) (i j : ℕ) (v : LeaseItem)
    → i < length h
    → item_at (set h i v) j ≡ (if i == j then v else item_at h j)
item_at-set [] i j v p = absurd (omega arith)
item_at-set (x ∷ h) zero zero v p = refl
item_at-set (x ∷ h) zero (suc j) v p = ground arith
item_at-set (x ∷ h) (suc i) zero v p = ground arith
item_at-set (x ∷ h) (suc i) (suc j) v p = ground (arith, item_at-set h i j v)

pub item_at-take : (n : ℕ) (h : List LeaseItem) (i : ℕ) → i < n → item_at (take n h) i ≡ item_at h i
item_at-take zero h i p = absurd (omega arith)
item_at-take (suc n) [] i p = refl
item_at-take (suc n) (x ∷ h) zero p = refl
item_at-take (suc n) (x ∷ h) (suc i) p = item_at-take n h i (omega arith)

pub item_at-append :
    (h t : List LeaseItem) (i : ℕ) → i < length h → item_at (h ++ t) i ≡ item_at h i
item_at-append [] t i p = absurd (omega arith)
item_at-append (x ∷ h) t zero p = refl
item_at-append (x ∷ h) t (suc i) p = item_at-append h t i (omega arith)

pub length-swap : (h : List LeaseItem) (i j : ℕ) → length (swap h i j) ≡ length h
unfolding swap
length-swap h i j = simp length-set

pub item_at-swap :
    (h : List LeaseItem) (i j c : ℕ)
    → i < length h
    → j < length h
    → item_at (swap h i j) c
      ≡ (if j == c then item_at h i else if i == c then item_at h j else item_at h c)
unfolding swap
item_at-swap h i j c p q = ground (
  arith,
  length-set h i (item_at h j),
  item_at-set h i c (item_at h j),
  item_at-set (set h i (item_at h j)) j c (item_at h i),
)

-- What a write replaces and what it brings in.
pub set-Perm :
    (h : List LeaseItem) (i : ℕ) (v : LeaseItem)
    → i < length h
    → Perm (item_at h i ∷ set h i v) (v ∷ h)
set-Perm [] i v p = absurd (omega arith)
set-Perm (x ∷ h) zero v p = Perm.swap v x h
set-Perm (x ∷ h) (suc i) v p =
    Perm.trans (Perm.swap x (item_at h i) (set h i v))
      (Perm.trans (Perm.cons x (set-Perm h i v (omega arith))) (Perm.swap v x h))

pub swap-Perm : (h : List LeaseItem) (i j : ℕ) → i < length h → j < length h → Perm (swap h i j) h
unfolding swap
swap-Perm h i j p q =
    let first = set h i (item_at h j) in
    let same : item_at first j ≡ item_at h j = ground (arith, item_at-set h i j (item_at h j)) in
    let inside : j < length first = rw (length-set h i (item_at h j)) q in
    Perm.cons_inv (
      Perm.trans (rw same at (set-Perm first j (item_at h i) inside))
        (set-Perm h i (item_at h j) p))
