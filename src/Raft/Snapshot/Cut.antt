-- ===== src/Raft/Snapshot/Cut.antt =====
-- The logs that `Snapshot` and `RequestInstallSnapshot` of raft/snapshot.go leave.
use wjetcd.Common.{
  ByteString, some, eqb_ℤ, max_ℤ, ℕ, ◌+◌, ◌≤◌, ◌≡◌, refl, ◌∙◌, sym, ap, arith, false, List, [],
  length, length-drop, drop, ℤ, pos, negsuc, ◌+ℤ◌, ◌-ℤ◌, ◌≤ℤ◌, pos_part, neg_part, +ℤ_parts,
  int_laws, ltb_ℤ, leb_ℤ, Bool-cases, inl, inr, get_elem?-drop,
}
use wjetcd.Raft.Log.{Entry, Log, ok, IsValid, entry_term_at, get_one_entry, slice_from}
use wjetcd.Raft.Log.Bounds.{get_one_entry-some, offset, last_parts, get_one_entry-offset}
use wjetcd.Raft.Node.{Raft, leader, get_entry_term, persist, persistent_of}
use wjetcd.Raft.Snapshot.{take_snapshot, cut_log}

module _ {C : Type 0} where
  -- A valid log from the index `first` on that holds what the old one held there.
  pub record Cuts (log : Log C) (first : ℤ) (log' : Log C) : Type 0 where
    pub valid : IsValid log'
    pub starts_at : log'.first_log_index ≡ first
    pub holds :
        (j : ℕ)
        → first +ℤ pos j ≤ℤ log.last_log_index
        → get_one_entry log' (first +ℤ pos j) ≡ get_one_entry log (first +ℤ pos j)

  pub slice_from-drop :
      (entries : List (Entry C)) (k : ℕ)
      → k ≤ length entries
      → slice_from entries (pos k) ≡ ok (drop k entries)
  unfolding slice_from
  slice_from-drop entries k h = ground arith

  abbrev pub from_index : Log C → ℤ → ℕ → Log C
  from_index log first k = record log { entries = drop k log.entries; first_log_index = first }

  pub from_index-Cuts :
      (log : Log C) (first : ℤ) (k : ℕ)
      → IsValid log
      → first ≡ log.first_log_index +ℤ pos k
      → k ≤ length log.entries
      → Cuts log first (from_index log first k)
  from_index-Cuts log first k v at h =
      let short = length-drop k log.entries in
      let last = last_parts log v in
      let p = ap pos_part at in
      let n = ap neg_part at in
      let low = v.starts in
      record {
        valid = record { starts = omega int_laws; sized = omega (int_laws, short) };
        starts_at = refl;
        holds = λ j within.
            let shift : log.first_log_index +ℤ pos (k + j) ≡ first +ℤ pos j = omega int_laws in
            get_one_entry-offset (from_index log first k) j
            ∙ get_elem?-drop k log.entries j
            ∙ sym (get_one_entry-offset log (k + j))
            ∙ ap (get_one_entry log) shift;
      }

  -- The log that both leave where nothing stays.
  abbrev pub empty_from : ℤ → Log C
  empty_from index = record {
    entries = [];
    first_log_index = index +ℤ pos 1;
    last_log_index = index;
  }

  pub empty_from-Cuts :
      (log : Log C) (index : ℤ)
      → pos 0 ≤ℤ index +ℤ pos 1
      → log.last_log_index ≤ℤ index
      → Cuts log (index +ℤ pos 1) (empty_from index)
  empty_from-Cuts log index low past = record {
    valid = record { starts = low; sized = omega int_laws };
    starts_at = refl;
    holds = λ j within. absurd (omega int_laws);
  }

  cut_log-Cuts :
      (log : Log C) (index : ℤ)
      → IsValid log
      → log.first_log_index ≤ℤ index
      → (log' : Log C) × (cut_log log index ≡ ok log') × Cuts log (index +ℤ pos 1) log'
  unfolding cut_log
  cut_log-Cuts log index v low =
      let first = index +ℤ pos 1 in
      let last = last_parts log v in
      let starts = v.starts in
      elim (Bool-cases (leb_ℤ first log.last_log_index)) [
        | inl inside ↦
            let (k, at) = offset log.first_log_index first (omega int_laws) in
            let real : first -ℤ log.first_log_index ≡ pos k =
              ap (λ i. i -ℤ log.first_log_index) at ∙ omega int_laws in
            let p = ap pos_part at in
            let n = ap neg_part at in
            let below : first ≤ℤ log.last_log_index = ground arith in
            let fits : k ≤ length log.entries = omega int_laws in
            (
              from_index log first k,
              rw (inside, real, slice_from-drop log.entries k fits) refl,
              from_index-Cuts log first k v at fits,
            )
        | inr outside ↦
            let above : log.last_log_index ≤ℤ index =
              let next = +ℤ_parts index (pos 1) in ground arith in
            let back : first -ℤ pos 1 ≡ index = omega int_laws in
            (
              empty_from index,
              rw (outside, back) refl,
              empty_from-Cuts log index (omega int_laws) above,
            )
      ]

  entry_term_at-some :
      (log : Log C) (index : ℤ) (e : Entry C)
      → get_one_entry log index ≡ some e
      → entry_term_at log index ≡ ok e.term
  unfolding entry_term_at
  entry_term_at-some log index e found = rw (entry_term_at, found) refl

  -- The term of an entry that is not before a valid log is read without a panic.
  get_entry_term-runs :
      (rf : Raft C) (index : ℤ)
      → IsValid rf.log
      → rf.log.first_log_index ≤ℤ index
      → (term : ℤ) × (get_entry_term rf index ≡ ok term)
  unfolding get_entry_term
  get_entry_term-runs rf index v low =
      let next = +ℤ_parts index (pos 1) in
      let not_last : eqb_ℤ (index +ℤ pos 1) rf.log.first_log_index ≡ false = ground arith in
      let not_old : ltb_ℤ index rf.log.first_log_index ≡ false = ground arith in
      elim (Bool-cases (ltb_ℤ rf.log.last_log_index index)) [
        | inl past ↦ (negsuc 0, rw (not_last, not_old, past) refl)
        | inr inside ↦
            let (e, found) = get_one_entry-some rf.log index v low (ground arith) in
            (e.term, rw (not_last, not_old, inside) (entry_term_at-some rf.log index e found))
      ]

  -- A leader with a valid log takes a snapshot up to an applied index of its log without a panic:
  -- the log then starts after the index, is valid and holds what it held from there on, the commit
  -- index does not go back, and the values handed to labgob for saving are those of the new state.
  pub take_snapshot-Cuts :
      (rf : Raft C) (index : ℤ) (snapshot : ByteString)
      → rf.state ≡ leader
      → IsValid rf.log
      → rf.log.first_log_index ≤ℤ index
      → index ≤ℤ rf.last_applied
      → (rf' : Raft C) × (take_snapshot rf index snapshot ≡ ok rf')
        × Cuts rf.log (index +ℤ pos 1) rf'.log
        × (rf'.snapshot ≡ snapshot)
        × (rf.commit_index ≤ℤ rf'.commit_index)
        × (rf'.persister.raft_state ≡ some (persistent_of rf'))
  unfolding take_snapshot persist
  take_snapshot-Cuts rf index snapshot leads v low applied =
      let (term, read) = get_entry_term-runs rf index v low in
      let (log, cut, cuts) = cut_log-Cuts rf.log index v low in
      let not_old : ltb_ℤ index rf.log.first_log_index ≡ false = ground arith in
      let in_time : ltb_ℤ rf.last_applied index ≡ false = ground arith in
      (
        persist (record rf {
          snapshot = snapshot;
          snapshot_last_include_index = index;
          snapshot_last_include_term = term;
          log = log;
          commit_index = max_ℤ rf.commit_index index;
          last_applied = max_ℤ rf.last_applied index;
        }),
        rw (read, cut, not_old, in_time, leads) refl,
        cuts,
        refl,
        ground arith,
        refl,
      )
