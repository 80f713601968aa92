-- ===== src/Raft/Leader/Positions.antt =====
-- What a leader of raft/raft.go reads of a valid log by position, and that `tryCommitL` of
-- raft/log_replication.go does not panic on an index of the log.
use wjetcd.Common.{
  ℕ, zero, suc, ◌-◌, ◌≤◌, ◌<◌, ◌≡◌, refl, ◌∙◌, ap, arith, false, inl, inr, Bool-cases,
  if◌then◌else◌, some, none, List, [], ◌∷◌, length, get_elem?, get_elem?-some, set, take, drop,
  take-length, ℤ, pos, pos_part, neg_part, ◌+ℤ◌, ltb_ℤ, leb_ℤ, eqb_ℤ, int_laws, +ℤ_parts,
}
use wjetcd.Raft.Log.{
  Entry, Log, ok, panic, IsValid, get_append_entries, clamped, get_real_index, entry_count,
  entry_term_at,
}
use wjetcd.Raft.Log.Bounds.{last_parts, get_one_entry-offset}
use wjetcd.Raft.Node.{Raft, get_entry_term}
use wjetcd.Raft.Leader.{commit_majority, try_commit}

pub some-injective {ℓ} : {A : Type ℓ} {a b : A} → some a ≡ some b → a ≡ b
some-injective e = cc

pub get_elem?-set {ℓ} :
    {A : Type ℓ} (l : List A) (i : ℕ) (old new : A)
    → get_elem? l i ≡ some old
    → get_elem? (set l i new) i ≡ some new
get_elem?-set [] i old new e = cc
get_elem?-set (x ∷ l) zero old new e = refl
get_elem?-set (x ∷ l) (suc i) old new e = get_elem?-set l i old new e

module _ {C : Type 0} where
  -- An index by its position.
  abbrev pub index_at : Log C → ℕ → ℤ
  index_at log k = log.first_log_index +ℤ pos k

  clamped-drop :
      (entries : List (Entry C)) (j n : ℕ)
      → length entries ≡ suc n
      → j ≤ n
      → clamped entries (pos j) (pos n) ≡ drop j entries
  unfolding clamped ◌+ℤ◌
  clamped-drop entries j n size inside =
      let start : ltb_ℤ (pos j) (pos 0) ≡ false = ground arith in
      let stop : leb_ℤ (entry_count entries) (pos n) ≡ false = ground arith in
      let some_left : ltb_ℤ (pos n) (pos j) ≡ false = ground arith in
      let whole : take (pos_part (pos n +ℤ pos 1)) entries ≡ entries =
        ap (λ k. take k entries) (ground (arith, size)) ∙ take-length entries in
      rw (start, stop, some_left, whole) refl

  -- The entries from a position on are sent.
  pub get_append_entries-drop :
      (log : Log C) (start : ℤ) (j : ℕ)
      → IsValid log
      → start ≡ index_at log j
      → j < length log.entries
      → get_append_entries log start ≡ drop j log.entries
  unfolding get_append_entries
  get_append_entries-drop log start j v at inside =
      let n = length log.entries in
      let l = last_parts log v in
      let s = +ℤ_parts log.first_log_index (pos j) in
      let p = ap pos_part at in
      let q = ap neg_part at in
      let from : get_real_index log start ≡ pos j = unfold get_real_index in omega int_laws in
      let to : get_real_index log log.last_log_index ≡ pos (n - 1) =
        unfold get_real_index in omega int_laws in
      let some_left : ltb_ℤ log.last_log_index log.first_log_index ≡ false = ground arith in
      let not_past : ltb_ℤ log.last_log_index start ≡ false = ground arith in
      rw (some_left, not_past, from, to)
        (clamped-drop log.entries j (n - 1) (omega arith) (omega arith))

  pub get_entry_term-inside :
      (rf : Raft C) (k : ℕ)
      → IsValid rf.log
      → k < length rf.log.entries
      → (e : Entry C) × (get_elem? rf.log.entries k ≡ some e)
        × (get_entry_term rf (index_at rf.log k) ≡ ok e.term)
  unfolding get_entry_term entry_term_at
  get_entry_term-inside rf k v inside =
      let (e, found) = get_elem?-some rf.log.entries k inside in
      let l = last_parts rf.log v in
      let s = +ℤ_parts rf.log.first_log_index (pos k) in
      let s1 = +ℤ_parts (index_at rf.log k) (pos 1) in
      let not_before : eqb_ℤ (index_at rf.log k +ℤ pos 1) rf.log.first_log_index ≡ false =
        ground arith in
      let not_lower : ltb_ℤ (index_at rf.log k) rf.log.first_log_index ≡ false = ground arith in
      let not_past : ltb_ℤ rf.log.last_log_index (index_at rf.log k) ≡ false = ground arith in
      (
        e,
        found,
        rw (not_before, not_lower, not_past)
            (ap (λ o. elim o [ none ↦ panic | some e ↦ ok e.term ])
              (get_one_entry-offset rf.log k ∙ found)),
      )

  trackers-commit :
      (rf : Raft C) (index term : ℤ)
      → (if eqb_ℤ term rf.current_term then commit_majority rf index else rf).peer_trackers
        ≡ rf.peer_trackers
  unfolding commit_majority
  trackers-commit rf index term = ground arith

  pub try_commit-total :
      (rf : Raft C) (index term : ℤ)
      → get_entry_term rf index ≡ ok term
      → (rf' : Raft C) × (try_commit rf index ≡ ok rf') × (rf'.peer_trackers ≡ rf.peer_trackers)
  unfolding try_commit
  try_commit-total rf index term found = elim (Bool-cases (ltb_ℤ index rf.commit_index)) [
    | inl behind ↦ (rf, rw behind refl, refl)
    | inr t1 ↦ elim (Bool-cases (ltb_ℤ rf.log.last_log_index index)) [
      | inl past ↦ (rf, rw (t1, past) refl, refl)
      | inr t2 ↦ elim (Bool-cases (ltb_ℤ index rf.log.first_log_index)) [
        | inl before ↦ (rf, rw (t1, t2, before) refl, refl)
        | inr t3 ↦ (
          if eqb_ℤ term rf.current_term then commit_majority rf index else rf,
          rw (t1, t2, t3, found) refl,
          trackers-commit rf index term,
        )
      ]
    ]
  ]
