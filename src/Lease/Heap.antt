-- ===== src/Lease/Heap.antt =====
-- The heap of the lease manager of server/server.go: `bubbleUp`, `bubbleDown` and the removal of
-- an item. A loop has fuel; parents fall and children rise, so that the fuel given is enough.
pub mod Items
pub mod Order
pub mod Sink
pub mod Moves
use wjetcd.Common.{
  ℕ, zero, suc, ◌+◌, ◌-◌, ◌*◌, ◌/◌, ◌&&◌, Option, none, some, List, [], ◌∷◌, if◌then◌else◌, ltb,
  ◌==◌, ℤ, pos, ltb_ℤ, leb_ℤ, eqb_ℤ, length, take, set,
}

pub record LeaseItem : Type 0 where
  pub id : ℤ
  pub expire_at : ℤ

abbrev pub no_item : LeaseItem
no_item = record { id = pos 0; expire_at = pos 0 }

-- `heap[i]`, at an index in range.
abbrev pub item_at : List LeaseItem → ℕ → LeaseItem
item_at [] i = no_item
item_at (x ∷ h) zero = x
item_at (x ∷ h) (suc i) = item_at h i

abbrev pub expiry : List LeaseItem → ℕ → ℤ
expiry h i = (item_at h i).expire_at

unfoldable pub swap : List LeaseItem → ℕ → ℕ → List LeaseItem
swap h i j = set (set h i (item_at h j)) j (item_at h i)

abbrev pub parent : ℕ → ℕ
parent i = (i - 1) / 2

unfoldable pub bubble_up_loop : ℕ → List LeaseItem → ℕ → List LeaseItem
bubble_up_loop zero h i = h
bubble_up_loop (suc fuel) h i =
    let risen = bubble_up_loop fuel (swap h i (parent i)) (parent i) in
    if i == 0 then h else if leb_ℤ (expiry h (parent i)) (expiry h i) then h else risen

unfoldable pub bubble_up : List LeaseItem → ℕ → List LeaseItem
unfolding bubble_up_loop swap
bubble_up h i = bubble_up_loop (suc i) h i

-- `smallest` after the first test, and after both.
unfoldable pub smaller_left : List LeaseItem → ℕ → ℕ
smaller_left h i =
    if ltb (2 * i + 1) (length h) && ltb_ℤ (expiry h (2 * i + 1)) (expiry h i) then 2 * i + 1 else i

unfoldable pub smallest : List LeaseItem → ℕ → ℕ
smallest h i =
    if ltb (2 * i + 2) (length h) && ltb_ℤ (expiry h (2 * i + 2)) (expiry h (smaller_left h i))
    then 2 * i + 2
    else smaller_left h i

unfoldable pub bubble_down_loop : ℕ → List LeaseItem → ℕ → List LeaseItem
bubble_down_loop zero h i = h
bubble_down_loop (suc fuel) h i =
    let sunk = bubble_down_loop fuel (swap h i (smallest h i)) (smallest h i) in
    if smallest h i == i then h else sunk

unfoldable pub bubble_down : List LeaseItem → ℕ → List LeaseItem
unfolding bubble_down_loop smallest smaller_left swap
bubble_down h i = bubble_down_loop (length h) h i

-- `for i := n - 1; i >= 0; i--`, where `n` counts the rounds left.
unfoldable pub heapify_loop : ℕ → List LeaseItem → List LeaseItem
heapify_loop zero h = h
heapify_loop (suc i) h = heapify_loop i (bubble_down h i)

unfoldable pub heapify : List LeaseItem → List LeaseItem
unfolding heapify_loop bubble_down
heapify h = heapify_loop (length h / 2) h

-- The index of the first item with the id.
unfoldable pub index_of : ℤ → List LeaseItem → Option ℕ
index_of id [] = none
index_of id (x ∷ h) =
    if eqb_ℤ x.id id then some 0 else (elim (index_of id h) [ none ↦ none | some i ↦ some (suc i) ])

-- The last item takes the place of the one at `i`, and moves to its own if it is not the last.
unfoldable pub remove_at : List LeaseItem → ℕ → List LeaseItem
remove_at h i =
    let n = length h - 1 in
    let shrunk = take n (set h i (item_at h n)) in
    if ltb i (length shrunk) then bubble_up (bubble_down shrunk i) i else shrunk
