-- ===== src/Lease/Heap/Moves.antt =====
-- The heap of server/server.go under a new item, a new expiry and the removal of an item.
use mathlib.Core.Logic.{∥∥₁_elim}
use mathlib.Core.Bool.{Bool-set}
use mathlib.Core.List.{Perm, Permᴰ, perm_middle}
use mathlib.Core.List.Perm
use wjetcd.Common.{
  ℕ, zero, suc, ◌-◌, ◌<◌, ◌≡◌, refl, ap, sym, ◌∙◌, arith, inl, inr, Bool, false, ◌||◌, Bool-cases,
  none, some, List, [], ◌∷◌, ◌++◌, ltb, ℤ, eqb_ℤ, eqb_ℤ_iff, length, take, set, length-append,
  length-set, length-take, append_empty,
}
use wjetcd.Lease.Heap.{LeaseItem, item_at, parent, bubble_up, bubble_down, index_of, remove_at}
use wjetcd.Lease.Heap.Items.{item_at-set, item_at-take, item_at-append, set-Perm}
use wjetcd.Lease.Heap.Order.{Ordered, bubble_up-Ordered}
use wjetcd.Lease.Heap.Sink.{settle}

pub append-Perm {ℓ} : {A : Type ℓ} (h : List A) (x : A) → Perm (h ++ x ∷ []) (x ∷ h)
append-Perm h x = rw (append_empty h) at (perm_middle {a = x} h [])

-- A new item at the end rises to its place.
pub grow :
    (h : List LeaseItem) (x : LeaseItem)
    → Ordered h
    → let grown = h ++ x ∷ [] in
      Ordered (bubble_up grown (length grown - 1)) × Perm (bubble_up grown (length grown - 1)) grown
grow h x v =
    let grown = h ++ x ∷ [] in
    let size = length-append h (x ∷ []) in
    bubble_up-Ordered grown (length grown - 1) (record {
      inside = omega (arith, size);
      edges = λ c p q r.
          let old : c < length h = omega (arith, size) in
          ground (
            arith,
            v c p old (omega arith),
            item_at-append h (x ∷ []) c old,
            item_at-append h (x ∷ []) (parent c) (omega arith),
          );
      spans = λ c p q r s t. absurd (omega arith);
    })

-- An item with a new expiry moves to its place.
pub renew :
    (h : List LeaseItem) (i : ℕ) (x : LeaseItem)
    → Ordered h
    → i < length h
    → let moved = bubble_up (bubble_down (set h i x) i) i in
      Ordered moved × Perm (item_at h i ∷ moved) (x ∷ h)
renew h i x v inside =
    let at = λ (c : ℕ). item_at-set h i c x inside in
    let size = length-set h i x in
    let (ordered, same) = settle (set h i x) i (record {
      inside = omega (arith, size);
      edges = λ c p q r s. ground (arith, size, v c, at c, at (parent c));
      spans = λ c p q r s t. ground (arith, size, v c, v i, at c, at (parent i));
    }) in
    (ordered, Perm.trans (Perm.cons (item_at h i) same) (set-Perm h i x inside))

take-last : (n : ℕ) (h : List LeaseItem) → length h ≡ suc n → take n h ++ item_at h n ∷ [] ≡ h
take-last n [] e = absurd (omega arith)
take-last zero (x ∷ []) e = refl
take-last zero (x ∷ y ∷ h) e = absurd (omega arith)
take-last (suc n) (x ∷ h) e = ap (λ t. x ∷ t) (take-last n h (omega arith))

shrunk-Perm :
    (h : List LeaseItem) (i n : ℕ)
    → length h ≡ suc n
    → i < length h
    → Perm (item_at h i ∷ take n (set h i (item_at h n))) h
shrunk-Perm h i n e inside =
    let last = item_at h n in
    let moved = set h i last in
    let same : item_at moved n ≡ last = ground (arith, item_at-set h i n last) in
    let whole : take n moved ++ last ∷ [] ≡ moved =
      ap (λ x. take n moved ++ x ∷ []) (sym same) ∙ take-last n moved (length-set h i last ∙ e) in
    Perm.cons_inv {a = last} (
      Perm.trans (Perm.swap (item_at h i) last (take n moved)) (
        Perm.trans
          (Perm.cons (item_at h i) (Perm.symm (rw whole at (append-Perm (take n moved) last))))
          (set-Perm h i last inside)))

-- An item that is taken out leaves the others in order.
pub remove_at-Ordered :
    (h : List LeaseItem) (i : ℕ)
    → Ordered h
    → i < length h
    → Ordered (remove_at h i) × Perm (item_at h i ∷ remove_at h i) h
unfolding remove_at
remove_at-Ordered h i v inside =
    let n = length h - 1 in
    let last = item_at h n in
    let shrunk = take n (set h i last) in
    let at = λ (c : ℕ). item_at-set h i c last inside in
    let cut = λ (c : ℕ). item_at-take n (set h i last) c in
    let size : length shrunk ≡ n =
      omega (arith, length-take n (set h i last), length-set h i last) in
    let kept = shrunk-Perm h i n (omega arith) inside in
    elim (Bool-cases (ltb i (length shrunk))) [
      | inl inner ↦
          let (ordered, same) = settle shrunk i (record {
            inside = ground arith;
            edges = λ c p q r s.
                ground (arith, size, v c p, at c, at (parent c), cut c, cut (parent c));
            spans = λ c p q r s t.
                ground (arith, size, v c p, v i s, at c, at (parent i), cut c, cut (parent i));
          }) in
          rw inner (ordered, Perm.trans (Perm.cons (item_at h i) same) kept)
      | inr end ↦ rw end (
        (λ c p q r. ground (arith, size, v c p, at c, at (parent c), cut c, cut (parent c))),
        kept,
      )
    ]

-- Whether an item has the id.
abbrev pub held : ℤ → List LeaseItem → Bool
held id [] = false
held id (x ∷ h) = eqb_ℤ x.id id || held id h

pub held-Perm : (id : ℤ) {g h : List LeaseItem} → Perm g h → held id g ≡ held id h
held-Perm id same = ∥∥₁_elim same (Bool-set _ _) along
  where
    along : {g h : List LeaseItem} → Permᴰ g h → held id g ≡ held id h
    along Permᴰ.nil = refl
    along (Permᴰ.cons e p) = rw (e, along p) refl
    along (Permᴰ.swap x y) = ground arith
    along (Permᴰ.trans p q) = along p ∙ along q

pub index_of-none : (id : ℤ) (h : List LeaseItem) → index_of id h ≡ none → held id h ≡ false
unfolding index_of
index_of-none id [] e = refl
index_of-none id (x ∷ h) e = ground (arith, index_of-none id h)

pub index_of-some :
    (id : ℤ) (h : List LeaseItem) (i : ℕ)
    → index_of id h ≡ some i
    → (i < length h) × ((item_at h i).id ≡ id)
unfolding index_of
index_of-some id [] i e = cc
index_of-some id (x ∷ h) zero e = ground (arith, eqb_ℤ_iff x.id id)
index_of-some id (x ∷ h) (suc i) e = ground (arith, index_of-some id h i)
