-- ===== src/Raft/Sync.antt =====
-- raft/log_replication.go and raft/leader_election.go: `HandleAppendEntriesRPC` and
-- `HandleHeartbeatRPC`, which no path of raft/rpc.go leads to. Timers are left out.
use wjetcd.Common.{
  suc, Bool, true, false, ◌||◌, if◌then◌else◌, List, [], ◌∷◌, length, set, ℤ, pos, ◌+ℤ◌, pos_part,
  ltb_ℤ, leb_ℤ, eqb_ℤ,
}
use wjetcd.Raft.Log.{
  Entry, Log, Run, ok, ◌>>=◌, append_l, entry_term_at, get_real_index, is_empty, entry_count,
}
use wjetcd.Raft.Node.{Raft, follower, no_vote, persist, get_entry_term, get_last_entry_term}
use wjetcd.Raft.Append.{AppendArgs, AppendReply, reply_of}
use wjetcd.Raft.Leader.{step_back}

module _ {C : Type 0} where
  -- A reply with the last entry's place.
  unfoldable pub answer_last : Raft C → Bool → AppendReply
  answer_last rf success = record {
    follower_term = rf.current_term;
    success = success;
    prev_log_index = rf.log.last_log_index;
    prev_log_term = get_last_entry_term rf;
  }

  -- The state and the term after the check of the leader's term.
  unfoldable pub accept_leader : Raft C → ℤ → Raft C
  accept_leader rf term =
      if ltb_ℤ rf.current_term term
      then record rf { state = follower; voted_for = no_vote; current_term = term }
      else record rf { state = follower }

  unfoldable pub handle_heartbeat : Raft C → AppendArgs C → Raft C × AppendReply
  unfolding accept_leader
  handle_heartbeat rf args =
      let accepted = accept_leader rf args.leader_term in
      if ltb_ℤ args.leader_term rf.current_term
      then (rf, reply_of rf.current_term false)
      else (persist accepted, reply_of accepted.current_term true)

  -- One round of the loop over the entries: the flag says that no entry was overwritten.
  unfoldable pub sync_entry : Log C → Bool → ℤ → Entry C → Run (Log C × Bool)
  sync_entry log intact index entry =
      if ltb_ℤ log.last_log_index index
      then (append_l log (entry ∷ []) >>= λ log'. ok (log', intact))
      else entry_term_at log index >>= λ t. ok (
          if eqb_ℤ t entry.term then (log, intact) else (
            record log { entries = set log.entries (pos_part (get_real_index log index)) entry },
            false,
          ))

  unfoldable pub sync_entries : Log C → Bool → ℤ → List (Entry C) → Run (Log C × Bool)
  unfolding sync_entry
  sync_entries log intact prev [] = ok (log, intact)
  sync_entries log intact prev (entry ∷ rest) =
      sync_entry log intact (prev +ℤ pos 1) entry >>= λ q. sync_entries q.0 q.1 (prev +ℤ pos 1) rest

  -- After an overwritten entry the log ends with the request's last one.
  unfoldable pub end_log : AppendArgs C → Log C × Bool → Log C
  end_log args (log, true) = log
  end_log args (log, false) = record log {
    last_log_index = args.prev_log_index +ℤ entry_count args.entries;
  }

  unfoldable pub commit_synced : Raft C → ℤ → Raft C
  commit_synced rf leader_commit =
      if ltb_ℤ rf.commit_index leader_commit
      then record rf {
        commit_index =
            if ltb_ℤ leader_commit rf.log.last_log_index
            then leader_commit
            else rf.log.last_log_index;
      }
      else rf

  unfoldable pub sync_matched : Raft C → AppendArgs C → Run (Raft C × AppendReply)
  unfolding sync_entries end_log commit_synced answer_last
  sync_matched rf args = do
    synced ← sync_entries rf.log true args.prev_log_index args.entries
    let rf' = commit_synced (record rf { log = end_log args synced }) args.leader_commit
    ok (rf', answer_last rf' true)

  -- Where the term differs, the entries of the term at that place are stepped over. The loop takes
  -- at most one step for each entry.
  unfoldable pub stepped_to : Raft C → ℤ → Run ℤ
  unfolding step_back
  stepped_to rf prev =
      if ltb_ℤ prev rf.log.first_log_index
      then ok prev
      else entry_term_at rf.log prev >>= λ t. step_back (suc (length rf.log.entries)) rf t prev

  unfoldable pub sync_mismatched : Raft C → ℤ → Run (Raft C × AppendReply)
  unfolding stepped_to
  sync_mismatched rf prev = do
    index ← stepped_to rf prev
    term ← get_entry_term rf index
    ok (
      rf,
      (if leb_ℤ rf.log.first_log_index index
          then record {
            follower_term = rf.current_term;
            success = false;
            prev_log_index = index;
            prev_log_term = term;
          }
          else record {
            follower_term = rf.current_term;
            success = false;
            prev_log_index = rf.snapshot_last_include_index;
            prev_log_term = rf.snapshot_last_include_term;
          }),
    )

  -- An empty log takes the entries that follow the snapshot.
  unfoldable pub sync_empty : Raft C → AppendArgs C → Run (Raft C × AppendReply)
  unfolding answer_last
  sync_empty rf args =
      if eqb_ℤ args.prev_log_index rf.snapshot_last_include_index
      then (append_l rf.log args.entries >>= λ log.
          ok (record rf { log = log }, answer_last (record rf { log = log }) true))
      else ok (rf, answer_last rf false)

  unfoldable pub sync_log : Raft C → AppendArgs C → Run (Raft C × AppendReply)
  unfolding sync_empty sync_matched sync_mismatched answer_last
  sync_log rf args =
      if is_empty rf.log
      then sync_empty rf args
      else if ltb_ℤ (args.prev_log_index +ℤ pos 1) rf.log.first_log_index
          || ltb_ℤ rf.log.last_log_index args.prev_log_index
      then ok (rf, answer_last rf false)
      else get_entry_term rf args.prev_log_index >>= λ t.
          if eqb_ℤ t args.prev_log_term
          then sync_matched rf args
          else sync_mismatched rf args.prev_log_index

  -- The deferred `persist` runs at every return after the check of the term.
  unfoldable pub sync_append_entries : Raft C → AppendArgs C → Run (Raft C × AppendReply)
  unfolding accept_leader sync_log
  sync_append_entries rf args =
      if ltb_ℤ args.leader_term rf.current_term
      then ok (rf, reply_of rf.current_term false)
      else sync_log (accept_leader rf args.leader_term) args >>= λ q. ok (persist q.0, q.1)
