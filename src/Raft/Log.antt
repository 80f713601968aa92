-- ===== src/Raft/Log.antt =====
-- raft/log.go: the replicated log, a slice of entries with the indices of its first and last entry.
-- A run-time panic is a result; a slice expression past the length counts as one.
pub mod Bounds
use wjetcd.Common.{
  ℕ, ◌+◌, ◌-◌, ◌≤◌, ◌≡◌, refl, Bool, true, false, ◌&&◌, ◌||◌, Option, none, some, List, [], ◌∷◌,
  ◌++◌, if◌then◌else◌, ltb, leb, length, get_elem?, take, drop, set, ℤ, pos, negsuc, ◌+ℤ◌, ◌-ℤ◌,
  pos_part, ◌≤ℤ◌, ltb_ℤ, leb_ℤ, eqb_ℤ,
}

pub data Run {ℓ} (A : Type ℓ) : Type ℓ where
  ok : A → Run A
  panic : Run A

infixl 5 ◌>>=◌
abbrev pub ◌>>=◌ {ℓ κ} : {A : Type ℓ} {B : Type κ} → Run A → (A → Run B) → Run B
ok a >>= f = f a
panic >>= f = panic

-- The command of an entry is of any type.
pub record Entry (C : Type 0) : Type 0 where
  pub term : ℤ
  pub command : C

pub record Log (C : Type 0) : Type 0 where
  pub entries : List (Entry C)
  pub first_log_index : ℤ
  pub last_log_index : ℤ

module _ {C : Type 0} where
  unfoldable pub new_log : Log C
  new_log = record { entries = []; first_log_index = pos 0; last_log_index = negsuc 0 }

  unfoldable pub get_real_index : Log C → ℤ → ℤ
  get_real_index log index = index -ℤ log.first_log_index

  -- An element of a slice at an integer index, with `none` out of range.
  unfoldable pub element_at : List (Entry C) → ℤ → Option (Entry C)
  element_at entries (pos i) = get_elem? entries i
  element_at entries (negsuc i) = none

  -- `none` is the nil pointer.
  unfoldable pub get_one_entry : Log C → ℤ → Option (Entry C)
  unfolding get_real_index element_at
  get_one_entry log index = element_at log.entries (get_real_index log index)

  -- `log.getOneEntry(index).Term`
  unfoldable pub entry_term_at : Log C → ℤ → Run ℤ
  entry_term_at log index = elim (get_one_entry log index) [ none ↦ panic | some e ↦ ok e.term ]

  -- `entries[:n]` and `entries[n:]`
  unfoldable pub slice_to : List (Entry C) → ℤ → Run (List (Entry C))
  slice_to entries (pos n) = if leb n (length entries) then ok (take n entries) else panic
  slice_to entries (negsuc n) = panic

  unfoldable pub slice_from : List (Entry C) → ℤ → Run (List (Entry C))
  slice_from entries (pos n) = if leb n (length entries) then ok (drop n entries) else panic
  slice_from entries (negsuc n) = panic

  -- The length of a slice as an `int`.
  abbrev pub entry_count : List (Entry C) → ℤ
  entry_count entries = pos (length entries)

  unfoldable pub append_l : Log C → List (Entry C) → Run (Log C)
  append_l log new_entries = do
    kept ← slice_to log.entries (get_real_index log log.last_log_index +ℤ pos 1)
    ok (record log {
      entries = kept ++ new_entries;
      last_log_index = log.last_log_index +ℤ entry_count new_entries;
    })

  -- `getAppendEntries` with its two indices clamped to the slice.
  unfoldable pub clamped : List (Entry C) → ℤ → ℤ → List (Entry C)
  clamped entries start stop =
      let from = if ltb_ℤ start (pos 0) then pos 0 else start in
      let to = if leb_ℤ (entry_count entries) stop then entry_count entries -ℤ pos 1 else stop in
      if ltb_ℤ to from then [] else drop (pos_part from) (take (pos_part (to +ℤ pos 1)) entries)

  unfoldable pub get_append_entries : Log C → ℤ → List (Entry C)
  get_append_entries log start =
      if ltb_ℤ log.last_log_index log.first_log_index
      then []
      else if ltb_ℤ log.last_log_index start
      then []
      else clamped log.entries (get_real_index log start) (get_real_index log log.last_log_index)

  unfoldable pub is_empty : Log C → Bool
  is_empty log = ltb_ℤ log.last_log_index log.first_log_index

  -- Indices start at 0, and the entries are those from the first index to the last; the last index
  -- of an empty log is the one before its first.
  pub record IsValid (log : Log C) : Type 0 where
    pub starts : pos 0 ≤ℤ log.first_log_index
    pub sized : log.last_log_index +ℤ pos 1 ≡ log.first_log_index +ℤ entry_count log.entries
