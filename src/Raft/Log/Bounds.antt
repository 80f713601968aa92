-- ===== src/Raft/Log/Bounds.antt =====
-- Positions of the entries of a valid log of raft/log.go.
use wjetcd.Common.{
  ◌∙◌, get_elem?-some, some, +ℤ_parts, ◌≤ℤ◌, ℕ, ◌+◌, ◌-◌, ◌≡◌, ap, arith, length, get_elem?, ℤ, pos,
  ◌+ℤ◌, ◌≤ℤ◌, pos_part, neg_part, +ℤ_parts, int_laws,
}
use wjetcd.Raft.Log.{Entry, Log, get_real_index, element_at, get_one_entry, entry_count, IsValid}

-- An index that is not before the first is the first with a number of steps added.
pub offset : (a b : ℤ) → a ≤ℤ b → (k : ℕ) × (b ≡ a +ℤ pos k)
offset a b h = (pos_part b + neg_part a - (pos_part a + neg_part b), omega int_laws)

module _ {C : Type 0} (log : Log C) where
  pub get_real_index-offset : (k : ℕ) → get_real_index log (log.first_log_index +ℤ pos k) ≡ pos k
  unfolding get_real_index
  get_real_index-offset k = omega int_laws

  pub get_one_entry-offset :
      (k : ℕ) → get_one_entry log (log.first_log_index +ℤ pos k) ≡ get_elem? log.entries k
  unfolding get_one_entry element_at
  get_one_entry-offset k = ap (element_at log.entries) (get_real_index-offset k)

  -- The last index, by the first one and the number of entries.
  pub last_parts :
      IsValid log
      → pos_part log.last_log_index + neg_part log.first_log_index + 1
        ≡ pos_part log.first_log_index + neg_part log.last_log_index + length log.entries
  last_parts v =
      let e = +ℤ_parts log.last_log_index (pos 1) in
      let f = +ℤ_parts log.first_log_index (entry_count log.entries) in
      let g = ap pos_part v.sized in let h = ap neg_part v.sized in omega arith

module _ {C : Type 0} where
  pub get_one_entry-some :
      (log : Log C) (i : ℤ)
      → IsValid log
      → log.first_log_index ≤ℤ i
      → i ≤ℤ log.last_log_index
      → (e : Entry C) × (get_one_entry log i ≡ some e)
  get_one_entry-some log i v low high =
      let (k, at) = offset log.first_log_index i low in
      let sum = +ℤ_parts log.first_log_index (pos k) in
      let p = ap pos_part at in
      let n = ap neg_part at in
      let last = last_parts log v in
      let (e, found) = get_elem?-some log.entries k (omega arith) in
      (e, ap (get_one_entry log) at ∙ get_one_entry-offset log k ∙ found)
