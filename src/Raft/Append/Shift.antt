-- ===== src/Raft/Append/Shift.antt =====
-- `handleAppendEntriesRPC` of raft/rpc.go on an empty log and a previous index of 0.
use mathlib.Core.List.{append-nil, append_assoc}
use wjetcd.Common.{
  ◌≡◌, refl, ◌∙◌, ap, arith, true, false, List, [], ◌∷◌, ◌++◌, ℤ, pos, negsuc, ◌+ℤ◌, ◌≤ℤ◌, ◌<ℤ◌,
  +ℤ_parts, int_laws,
}
use wjetcd.Raft.Log.{Entry, Log, ok, new_log, entry_count}
use wjetcd.Raft.Node.{Raft}
use wjetcd.Raft.Append.{
  AppendArgs, reply_of, append_entry, place_entry, place_entries, prev_matches, meet_leader,
  handle_append_entries,
}
use wjetcd.Raft.Append.Replicate.{
  log-meet_leader, term-meet_leader, log-commit_up_to, term-commit_up_to, replicate_log-run,
  taken_over,
}

module _ {C : Type 0} where
  -- Entries past the last index are appended, whatever the gap.
  place_entries-beyond :
      (entries : List (Entry C)) (log : Log C) (prev : ℤ)
      → log.last_log_index <ℤ prev
      → log.first_log_index ≤ℤ prev
      → place_entries log prev entries
        ≡ ok (record log {
          entries = log.entries ++ entries;
          last_log_index = log.last_log_index +ℤ entry_count entries;
        })
  unfolding place_entries place_entry append_entry
  place_entries-beyond [] log prev gap start =
      let last : log.last_log_index ≡ log.last_log_index +ℤ pos 0 = omega int_laws in
      ground (arith, append-nil log.entries, last)
  place_entries-beyond (entry ∷ rest) log prev gap start =
      let step = +ℤ_parts prev (pos 1) in
      let grown = +ℤ_parts log.last_log_index (pos 1) in
      let ih =
        place_entries-beyond rest (append_entry log entry) (prev +ℤ pos 1) (omega arith)
          (omega arith) in
      let last : log.last_log_index +ℤ pos 1 +ℤ entry_count rest
          ≡ log.last_log_index +ℤ entry_count (entry ∷ rest) =
        omega int_laws in
      ground (arith, ih, last, append_assoc log.entries (entry ∷ []) rest)

  abbrev shifted : List (Entry C) → Log C
  shifted entries = record {
    entries = entries;
    first_log_index = pos 0;
    last_log_index = negsuc 0 +ℤ entry_count entries;
  }

  prev_matches-zero : (log : Log C) (term : ℤ) → prev_matches log (pos 0) term ≡ ok true
  unfolding prev_matches
  prev_matches-zero log term = refl

  -- A node with a new log that is not killed accepts any entries of a request of its term or a later
  -- one whose previous index is 0, and stores them from index 0 on: the leader's entry of index 1
  -- becomes the node's entry of index 0.
  pub handle_append_entries-shift :
      (rf : Raft C) (args : AppendArgs C)
      → rf.log ≡ new_log
      → rf.dead ≡ false
      → rf.current_term ≤ℤ args.leader_term
      → args.prev_log_index ≡ pos 0
      → (rf' : Raft C) × (handle_append_entries rf args ≡ ok (rf', reply_of args.leader_term true))
        × (rf'.log.first_log_index ≡ pos 0)
        × (rf'.log.entries ≡ args.entries)
  unfolding handle_append_entries new_log
  handle_append_entries-shift rf args fresh alive term zero =
      let met = meet_leader rf args.leader_term in
      let same = log-meet_leader rf args.leader_term ∙ fresh in
      let placed = place_entries-beyond args.entries new_log (pos 0) (omega arith) (omega arith) in
      let run =
        replicate_log-run met args (shifted args.entries)
          (rw (same, zero) (prev_matches-zero new_log args.prev_log_term))
          (rw (same, zero) placed) in
      let left = record met { log = shifted args.entries } in
      let current =
        term-commit_up_to left args.leader_commit ∙ term-meet_leader rf args.leader_term term in
      let log = log-commit_up_to left args.leader_commit in
      (
        taken_over rf args (shifted args.entries),
        ground (arith, run, current),
        ap (λ (l : Log C). l.first_log_index) log,
        ap (λ (l : Log C). l.entries) log,
      )
