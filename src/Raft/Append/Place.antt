-- ===== src/Raft/Append/Place.antt =====
-- The loop of `handleAppendEntriesRPC` in raft/rpc.go over the entries of a request.
use wjetcd.Common.{
  ℕ, ◌≤◌, ◌<◌, ◌≡◌, refl, ◌∙◌, arith, Bool-cases, inl, inr, some, [], ◌∷◌, length, length-append,
  length-take, get_elem?, get_elem?-some, get_elem?-append, get_elem?-append_last, get_elem?-past,
  ◌⊎◌, get_elem?-take, take, ℤ, pos, ◌+ℤ◌, ◌-ℤ◌, +ℤ_parts, int_laws, leb_ℤ, eqb_ℤ, eqb_ℤ_iff,
}
use wjetcd.Raft.Log.{
  Entry, Log, ok, get_real_index, get_one_entry, entry_term_at, slice_to, IsValid,
}
use wjetcd.Raft.Log.Bounds.{get_real_index-offset, get_one_entry-offset, last_parts}
use wjetcd.Raft.Append.{append_entry, overwrite, place_entry}

module _ {C : Type 0} where
  -- The entry at the index is there, with the term.
  abbrev pub HasTerm : Log C → ℤ → ℤ → Type 0
  HasTerm log index term = (e : Entry C) × (get_one_entry log index ≡ some e) × (e.term ≡ term)

  -- The log after an entry was placed at `first + k`: it holds the entry there, or the one
  -- of the same term that it held; before it what it held, and after it at most that.
  pub record Placed (log : Log C) (k : ℕ) (entry : Entry C) (log' : Log C) : Type 0 where
    pub valid : IsValid log'
    pub first : log'.first_log_index ≡ log.first_log_index
    pub reaches : k < length log'.entries
    pub found :
        (e : Entry C) × (get_elem? log'.entries k ≡ some e)
        × ((e ≡ entry) ⊎ ((get_elem? log.entries k ≡ some e) × (e.term ≡ entry.term)))
    pub rest_old :
        (j : ℕ) (e : Entry C)
        → k < j
        → get_elem? log'.entries j ≡ some e
        → get_elem? log.entries j ≡ some e
    pub kept : (j : ℕ) → j < k → get_elem? log'.entries j ≡ get_elem? log.entries j

  append_entry-Placed :
      (log : Log C) (entry : Entry C)
      → IsValid log
      → Placed log (length log.entries) entry (append_entry log entry)
  unfolding append_entry
  append_entry-Placed log entry v =
      let grown = length-append log.entries (entry ∷ []) in
      record {
        valid = record {
          starts = v.starts;
          sized = (let s = v.sized in let l = last_parts log v in omega (int_laws, grown));
        };
        first = refl;
        reaches = omega (arith, grown);
        found = (entry, get_elem?-append_last log.entries entry, inl refl);
        rest_old = λ j e h at. cc (get_elem?-past log.entries entry j h);
        kept = λ j h. get_elem?-append log.entries (entry ∷ []) j h;
      }

  -- The log without the entries from `first + k` on.
  abbrev cut_at : Log C → ℕ → Log C
  cut_at log k = record log {
    entries = take k log.entries;
    last_log_index = (log.first_log_index +ℤ pos k) -ℤ pos 1;
  }

  cut_at-IsValid :
      (log : Log C) (k : ℕ) → IsValid log → k ≤ length log.entries → IsValid (cut_at log k)
  cut_at-IsValid log k v h =
      let short = length-take k log.entries in
      record { starts = v.starts; sized = omega (int_laws, short) }

  recut :
      (log : Log C) (k : ℕ) (entry : Entry C)
      → IsValid log
      → k ≤ length log.entries
      → Placed log k entry (append_entry (cut_at log k) entry)
  unfolding append_entry
  recut log k entry v h =
      let short : length (take k log.entries) ≡ k = omega (arith, length-take k log.entries) in
      let p = append_entry-Placed (cut_at log k) entry (cut_at-IsValid log k v h) in
      record {
        valid = p.valid;
        first = p.first;
        reaches = omega (arith, p.reaches, short);
        found = (entry, rw short at (get_elem?-append_last (take k log.entries) entry), inl refl);
        rest_old = λ j e below at.
            cc (get_elem?-past (take k log.entries) entry j (omega (arith, short, below)));
        kept = λ j below. p.kept j (omega (arith, short)) ∙ get_elem?-take k log.entries j below;
      }

  entry_term_at-offset :
      (log : Log C) (k : ℕ) (e : Entry C)
      → get_elem? log.entries k ≡ some e
      → entry_term_at log (log.first_log_index +ℤ pos k) ≡ ok e.term
  unfolding entry_term_at
  entry_term_at-offset log k e h = ground (arith, get_one_entry-offset log k, h)

  slice_to-offset :
      (log : Log C) (k : ℕ)
      → k ≤ length log.entries
      → slice_to log.entries (get_real_index log (log.first_log_index +ℤ pos k))
        ≡ ok (take k log.entries)
  unfolding slice_to
  slice_to-offset log k h = rw (get_real_index-offset log k, slice_to) (ground arith)

  overwrite-Placed :
      (log : Log C) (k : ℕ) (entry : Entry C)
      → IsValid log
      → k < length log.entries
      → (log' : Log C) × (overwrite log (log.first_log_index +ℤ pos k) entry ≡ ok log')
        × Placed log k entry log'
  unfolding overwrite
  overwrite-Placed log k entry v h =
      let (e, at) = get_elem?-some log.entries k h in
      elim (Bool-cases (eqb_ℤ e.term entry.term)) [
        | inl same ↦ (
          log,
          rw (entry_term_at-offset log k e at, same) refl,
          record {
            valid = v;
            first = refl;
            reaches = h;
            found = (e, at, inr (at, (eqb_ℤ_iff e.term entry.term).0 same));
            rest_old = λ j e below there. there;
            kept = λ j below. refl;
          },
        )
        | inr other ↦ (
          append_entry (cut_at log k) entry,
          rw (entry_term_at-offset log k e at, other)
              (rw (slice_to-offset log k (omega arith)) refl),
          recut log k entry v (omega arith),
        )
      ]

  pub place_entry-Placed :
      (log : Log C) (k : ℕ) (entry : Entry C)
      → IsValid log
      → k ≤ length log.entries
      → (log' : Log C) × (place_entry log (log.first_log_index +ℤ pos k) entry ≡ ok log')
        × Placed log k entry log'
  unfolding place_entry
  place_entry-Placed log k entry v h =
      let index = log.first_log_index +ℤ pos k in
      let at = +ℤ_parts log.first_log_index (pos k) in
      let last = last_parts log v in
      elim (Bool-cases (leb_ℤ index log.last_log_index)) [
        | inl inside ↦
            let (log', done, placed) = overwrite-Placed log k entry v (ground arith) in
            (log', ground (arith, done), placed)
        | inr beyond ↦
            let full : length log.entries ≡ k = ground arith in
            (append_entry log entry, ground arith, rw full at (append_entry-Placed log entry v))
      ]
