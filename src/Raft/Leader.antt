-- ===== src/Raft/Leader.antt =====
-- raft/raft.go and raft/log_replication.go: what a leader does: `Start`, the request and the reply of
-- `AppendEntries`, and `tryCommitL`.
pub mod Commit
pub mod Positions
use wjetcd.Common.{
  ℕ, zero, suc, ◌+◌, ◌/◌, ◌≡◌, Bool, true, false, not, ◌&&◌, ◌||◌, Option, none, some, List, [],
  ◌∷◌, ◌++◌, if◌then◌else◌, ltb, ==_iff, ◌==◌, ByteString, ℤ, pos, negsuc, ◌+ℤ◌, ◌-ℤ◌, ltb_ℤ, leb_ℤ,
  eqb_ℤ, min_ℤ, max_ℤ, length, get_elem?, set,
}
use wjetcd.Raft.Log.{
  Entry, Log, Run, ok, panic, ◌>>=◌, append_l, get_append_entries, is_empty, entry_count,
}
use wjetcd.Raft.Node.{
  Raft, Role, follower, candidate, leader, is_leader, no_vote, PeerTracker, persist, get_entry_term,
  follow_term,
}
use wjetcd.Raft.Append.{AppendArgs, AppendReply}

-- The leader sends entries, or a snapshot where the follower lags behind its log.
pub data Sending (C : Type 0) : Type 0 where
  nothing install_snapshot : Sending C
  entries_to_send : AppendArgs C → Sending C

module _ {C : Type 0} where
  -- `Start`: the index and the term of the new entry, or a refusal. `rf.log.appendL` may panic.
  unfoldable pub start : Raft C → C → Run (Raft C × ℤ × ℤ × Bool)
  start rf command =
      if not (is_leader rf.state) then ok (rf, negsuc 0, rf.current_term, false) else do
        log ← append_l rf.log (record { term = rf.current_term; command = command } ∷ [])
        ok (
          persist (record rf { log = log }),
          rf.log.last_log_index +ℤ pos 1,
          rf.current_term,
          true,
        )

  -- `rf.peerTrackers[i]`. A node sends to its peers alone, and has a tracker for each.
  unfoldable pub tracker_at : Raft C → ℕ → Run PeerTracker
  tracker_at rf i = elim (get_elem? rf.peer_trackers i) [ none ↦ panic | some t ↦ ok t ]

  -- The request of `AppendEntries` with no heartbeat, to the peer of the given number.
  unfoldable pub append_request : Raft C → ℕ → Run (Sending C)
  append_request rf target = if not (is_leader rf.state) then ok nothing else do
    tracker ← tracker_at rf target
    let prev = min_ℤ rf.log.last_log_index (tracker.next_index -ℤ pos 1)
    if ltb_ℤ (prev +ℤ pos 1) rf.log.first_log_index then ok install_snapshot else do
      prev_term ← get_entry_term rf prev
      ok (
          entries_to_send (record {
            leader_term = rf.current_term;
            leader_id = rf.me;
            prev_log_index = prev;
            prev_log_term = prev_term;
            entries = get_append_entries rf.log (prev +ℤ pos 1);
            leader_commit = rf.commit_index;
          }))

  -- A heartbeat carries the term alone.
  unfoldable pub heartbeat_request : Raft C → Sending C
  heartbeat_request rf =
      if not (is_leader rf.state)
      then nothing
      else entries_to_send (record {
        leader_term = rf.current_term;
        leader_id = pos 0;
        prev_log_index = pos 0;
        prev_log_term = pos 0;
        entries = [];
        leader_commit = pos 0;
      })

  -- The reply to a heartbeat.
  unfoldable pub on_heartbeat_reply : Raft C → AppendReply → Raft C
  on_heartbeat_reply rf reply =
      if not (is_leader rf.state)
      then rf
      else if ltb_ℤ reply.follower_term rf.current_term
      then rf
      else if ltb_ℤ rf.current_term reply.follower_term
      then persist (follow_term rf reply.follower_term)
      else rf

-- The trackers from number `i` on whose match reaches the index, without that of number `me - 1`.
-- There is a tracker for each peer, so the loop over the peers runs over the trackers.
unfoldable pub count_matching : ℤ → ℤ → ℕ → List PeerTracker → ℕ
count_matching index me i [] = 0
count_matching index me i (tracker ∷ rest) =
    let others = count_matching index me (suc i) rest in
    if not (eqb_ℤ (pos i +ℤ pos 1) me) && leb_ℤ index tracker.match_index
    then suc others
    else others

module _ {C : Type 0} where
  -- `tryCommitL` from the count on.
  unfoldable pub commit_majority : Raft C → ℤ → Raft C
  unfolding count_matching
  commit_majority rf index =
      if ltb (length rf.peers / 2) (1 + count_matching index rf.me 0 rf.peer_trackers)
      then record rf { commit_index = index }
      else rf

  unfoldable pub try_commit : Raft C → ℤ → Run (Raft C)
  unfolding commit_majority
  try_commit rf index =
      if ltb_ℤ index rf.commit_index
      then ok rf
      else if ltb_ℤ rf.log.last_log_index index
      then ok rf
      else if ltb_ℤ index rf.log.first_log_index
      then ok rf
      else do
        term ← get_entry_term rf index
        ok (if eqb_ℤ term rf.current_term then commit_majority rf index else rf)

  unfoldable pub with_tracker : Raft C → ℕ → PeerTracker → Raft C
  with_tracker rf target tracker = record rf { peer_trackers = set rf.peer_trackers target tracker }

  -- A reply that reports success.
  unfoldable pub on_success : Raft C → ℕ → PeerTracker → AppendArgs C → Run (Raft C)
  on_success rf target tracker args =
      if ltb 0 (length args.entries)
      then (let matched = args.prev_log_index +ℤ entry_count args.entries in
          try_commit
            (with_tracker rf target
              (record { next_index = matched +ℤ pos 1; match_index = matched }))
            matched)
      else ok (
          with_tracker rf target (record tracker {
            next_index = max_ℤ tracker.next_index (args.prev_log_index +ℤ pos 1);
          }))

  -- The loop that steps back over the entries of one term; the fuel is the number of steps allowed.
  unfoldable pub step_back : ℕ → Raft C → ℤ → ℤ → Run ℤ
  step_back zero rf term index = ok index
  step_back (suc fuel) rf term index =
      let further = step_back fuel rf term (index -ℤ pos 1) in
      if ltb_ℤ index rf.log.first_log_index
      then ok index
      else get_entry_term rf index >>= λ t. if eqb_ℤ t term then further else ok index

  abbrev pub ask_for : Raft C → ℕ → PeerTracker → ℤ → Raft C × Bool
  ask_for rf target tracker next =
      (with_tracker rf target (record tracker { next_index = next }), false)

  -- A reply that reports failure: the flag says that a snapshot is to be sent. The loop steps back
  -- at most over the whole log, once for each entry.
  unfoldable pub on_failure : Raft C → ℕ → PeerTracker → AppendReply → Run (Raft C × Bool)
  unfolding step_back
  on_failure rf target tracker reply =
      if is_empty rf.log
      then ok (rf, true)
      else if ltb_ℤ (reply.prev_log_index +ℤ pos 1) rf.log.first_log_index
      then ok (rf, true)
      else if ltb_ℤ rf.log.last_log_index reply.prev_log_index
      then ok (ask_for rf target tracker (rf.log.last_log_index +ℤ pos 1))
      else do
        term ← get_entry_term rf reply.prev_log_index
        if eqb_ℤ term reply.prev_log_term
            then ok (ask_for rf target tracker (reply.prev_log_index +ℤ pos 1))
            else do
              index ← step_back (suc (length rf.log.entries)) rf term reply.prev_log_index
              ok (
                  if ltb_ℤ (index +ℤ pos 1) rf.log.first_log_index
                    && ltb_ℤ (pos 1) rf.log.first_log_index
                  then (rf, true)
                  else ask_for rf target tracker (index +ℤ pos 1))

  -- The reply to a request of `AppendEntries`; the flag says that a snapshot is to be sent.
  unfoldable pub on_append_reply : Raft C → ℕ → AppendArgs C → AppendReply → Run (Raft C × Bool)
  unfolding on_success on_failure
  on_append_reply rf target args reply =
      if not (is_leader rf.state)
      then ok (rf, false)
      else if ltb_ℤ reply.follower_term rf.current_term
      then ok (rf, false)
      else if ltb_ℤ rf.current_term reply.follower_term
      then ok (persist (follow_term rf reply.follower_term), false)
      else do
        tracker ← tracker_at rf target
        if reply.success
            then (on_success rf target tracker args >>= λ rf'. ok (rf', false))
            else on_failure rf target tracker reply
