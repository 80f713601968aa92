-- ===== src/Lease/Checkpoint.antt =====
-- server/server.go: `Snapshot` and `Restore` of the lease manager.
use mathlib.Core.Path.{subst}
use wjetcd.Common.{
  ◌≡◌, refl, sym, ap, ◌∙◌, arith, false, inl, inr, Bool-cases, ByteString, List, [], ◌∷◌, ◌++◌,
  ++-assoc, append_empty, Option, none, some, ℤ, pos, ◌≤ℤ◌, ltb_ℤ, eqb_ℤ, eqb_ℤ_iff, int_eq, Map,
  lookup, insert,
}
use wjetcd.Lease.{
  Lease, LeaseManager, LeaseSnapshot, Rebuilt, Rebuilding, rebuilt, refused, take_lease_snapshot,
  snapshot_entries, restore_leases, restore_leases_decoded, rebuild, rebuild_step, entry_invalid,
  finish_restore,
}
use wjetcd.Lease.Heap.{LeaseItem, heapify}
use wjetcd.Lease.Entries.{items_of, IsGood, Listed, insert-end}
use wjetcd.Lease.Table.{HasLeases}

-- Each of the leases of the second table has an id that the first one lacks.
abbrev Apart : Map ℤ Lease → Map ℤ Lease → Type 0
Apart m [] = Unit {0}
Apart m ((id, lease) ∷ rest) = (lookup id m ≡ none) × Apart m rest

lookup-end :
    (id : ℤ) (m : Map ℤ Lease) (j : ℤ) (lease : Lease)
    → lookup id m ≡ none
    → eqb_ℤ j id ≡ false
    → lookup id (m ++ (j, lease) ∷ []) ≡ none
unfolding lookup
lookup-end id [] j lease e f = rw f refl
lookup-end id ((k, l) ∷ m) j lease e f = elim (Bool-cases (eqb_ℤ k id)) [
  | inl t ↦ cc (rw t at e)
  | inr g ↦ rw g (lookup-end id m j lease (rw g at e) f)
]

Apart-end :
    (m : Map ℤ Lease) (id : ℤ) (lease : Lease) (rest : Map ℤ Lease)
    → Apart m rest
    → lookup id rest ≡ none
    → Apart (m ++ (id, lease) ∷ []) rest
unfolding lookup
Apart-end m id lease [] a e = tt
Apart-end m id lease ((j, l) ∷ rest) a e = elim (Bool-cases (eqb_ℤ j id)) [
  | inl t ↦ cc (rw t at e)
  | inr f ↦
      let apart : eqb_ℤ id j ≡ false = ground (arith, eqb_ℤ_iff j id, eqb_ℤ_iff id j) in
      (lookup-end j m id lease a.0 apart, Apart-end m id lease rest a.1 (rw f at e))
]

-- What the loop of `Restore` reaches, with a largest id under the counter.
abbrev Reaches : ℤ → Map ℤ Lease → List LeaseItem → Rebuilding → Type 0
Reaches top m items (rebuilt r) = (r.leases ≡ m) × (r.items ≡ items) × (r.max_id ≤ℤ top)
Reaches top m items (refused e) = ⊥

entry_invalid-IsGood :
    (top id : ℤ) (lease : Lease) → IsGood top id lease → entry_invalid lease ≡ false
unfolding entry_invalid
entry_invalid-IsGood top id lease g = ground (arith, g.own_id, g.positive, g.lives, g.expires)

Apart-none : (m : Map ℤ Lease) → Apart [] m
unfolding lookup
Apart-none [] = tt
Apart-none ((id, lease) ∷ rest) = (refl, Apart-none rest)

rebuild-Listed :
    (top : ℤ) (acc : Rebuilt) (m : Map ℤ Lease)
    → Listed top m
    → Apart acc.leases m
    → acc.max_id ≤ℤ top
    → Reaches top (acc.leases ++ m) (acc.items ++ items_of m) (rebuild acc (snapshot_entries m))
unfolding rebuild snapshot_entries rebuild_step
rebuild-Listed top acc [] h a low =
    (sym (append_empty acc.leases), sym (append_empty acc.items), low)
rebuild-Listed top acc ((id, lease) ∷ rest) h a low =
    let g = h.0 in
    let next = rebuild_step acc lease in
    let free = ap (λ i. lookup i acc.leases) g.own_id ∙ a.0 in
    let leases : next.leases ≡ acc.leases ++ (id, lease) ∷ [] =
      ap (λ i. insert i lease acc.leases) g.own_id ∙ insert-end id lease acc.leases a.0 in
    let reached =
      rebuild-Listed top next rest h.2
        (subst (λ t. Apart t rest) (sym leases) (Apart-end acc.leases id lease rest a.1 h.1))
        (ground (arith, g.own_id, g.counted)) in
    rw (entry_invalid-IsGood top id lease g, free)
      (subst
        (λ t.
          Reaches top t (acc.items ++ items_of ((id, lease) ∷ rest))
            (rebuild next (snapshot_entries rest)))
        (ap (λ t. t ++ rest) leases ∙ ++-assoc acc.leases ((id, lease) ∷ []) rest)
        (subst (λ t. Reaches top (next.leases ++ rest) t (rebuild next (snapshot_entries rest)))
          (++-assoc acc.items (record { id = lease.id; expire_at = lease.expire_at } ∷ [])
            (items_of rest))
          reached))

finish_restore-Reaches :
    (old : LeaseManager) (top : ℤ) (m : Map ℤ Lease) (items : List LeaseItem) (r : Rebuilding)
    → Reaches top m items r
    → finish_restore old top r ≡ (record { leases = m; lease_id = top; heap = heapify items }, none)
unfolding finish_restore
finish_restore-Reaches old top m items (refused e) h = elim h [ ]
finish_restore-Reaches old top m items (rebuilt r) h =
    let low : ltb_ℤ top r.max_id ≡ false = ground (arith, h.2) in rw (low, h.0, h.1) refl

-- A manager's state after its leases went through a snapshot: the heap is built anew.
abbrev pub reheaped : LeaseManager → LeaseManager
reheaped le = record le { heap = heapify (items_of le.leases) }

module _ (marshal : LeaseSnapshot → ByteString)
    (unmarshal : ByteString → Option LeaseSnapshot) where
  -- A snapshot of the leases restores to the same table and counter, over whatever manager, where
  -- decoding its JSON gives back what was encoded; the heap is that of the table's leases.
  pub restore_leases-snapshot :
      (le old : LeaseManager)
      → unmarshal (marshal (take_lease_snapshot le)) ≡ some (take_lease_snapshot le)
      → HasLeases le
      → restore_leases unmarshal old (marshal (take_lease_snapshot le)) ≡ (reheaped le, none)
  unfolding restore_leases restore_leases_decoded take_lease_snapshot
  restore_leases-snapshot le old round_trip h =
      rw (restore_leases, round_trip)
        (finish_restore-Reaches old le.lease_id le.leases (items_of le.leases)
          (rebuild (record { leases = []; items = []; max_id = pos 0 })
            (snapshot_entries le.leases))
          (rebuild-Listed le.lease_id (record { leases = []; items = []; max_id = pos 0 }) le.leases
            h.listed (Apart-none le.leases) h.counted))
