-- ===== src/Raft/Vote/Once.antt =====
-- The votes of a Raft node: raft/leader_election.go and the handlers that change its term.
use wjetcd.Common.{
  ◌≡◌, ◌≢◌, ℕ, Bool, Bool-cases, inl, inr, refl, ◌∙◌, sym, arith, true, some, ℤ, pos, ◌≤ℤ◌, ◌<ℤ◌,
  eq_of_parts, ltb_ℤ, inc64_nonneg, max_int64,
}
use wjetcd.Raft.Node.{Raft, no_vote, persist, persistent_of, get_last_entry_term}
use wjetcd.Raft.Vote.{
  RequestVoteArgs, RequestVoteReply, request_vote, cast_vote, adopt_term, up_to_date,
  become_candidate, start_election, on_vote_reply, become_leader, reset_tracked_index,
}
use wjetcd.Raft.Append.{AppendArgs, AppendReply, handle_append_entries}
use wjetcd.Raft.Leader.{on_heartbeat_reply, on_append_reply}
use wjetcd.Raft.Snapshot.{InstallArgs, request_install_snapshot, on_install_reply}
use wjetcd.Raft.Sync.{handle_heartbeat, sync_append_entries}
use wjetcd.Raft.Log.{ok}
use wjetcd.Raft.Vote.Keeps.{
  KeepsVote, KeepsVote-trans, handle_append_entries-KeepsVote, request_install_snapshot-KeepsVote,
  on_install_reply-KeepsVote, on_append_reply-KeepsVote, handle_heartbeat-KeepsVote,
  on_heartbeat_reply-KeepsVote, sync_append_entries-KeepsVote,
}

module _ {C : Type 0} where
  pub request_vote-KeepsVote :
      (rf : Raft C) (args : RequestVoteArgs) → KeepsVote rf (request_vote rf args).0
  unfolding request_vote cast_vote adopt_term persist
  request_vote-KeepsVote rf args =
      ground (arith, eq_of_parts rf.voted_for no_vote, eq_of_parts rf.voted_for args.candidate_id)

  cast_vote-granted :
      (rf : Raft C) (args : RequestVoteArgs)
      → (cast_vote rf args).1.vote_granted ≡ true
      → ((cast_vote rf args).0.voted_for ≡ args.candidate_id)
        × ((cast_vote rf args).0.current_term ≡ rf.current_term)
        × ((cast_vote rf args).0.persister.raft_state ≡ some (persistent_of (cast_vote rf args).0))
        × (up_to_date rf args ≡ true)
  unfolding cast_vote persist
  cast_vote-granted rf args granted = ground arith

  up_to_date-adopt_term :
      (rf : Raft C) (term : ℤ) (args : RequestVoteArgs)
      → up_to_date (adopt_term rf term) args ≡ up_to_date rf args
  unfolding adopt_term persist up_to_date get_last_entry_term
  up_to_date-adopt_term rf term args = elim (Bool-cases (ltb_ℤ rf.current_term term)) [
    | inl later ↦ rw later refl
    | inr known ↦ rw known refl
  ]

  term-adopt_term :
      (rf : Raft C) (term : ℤ) → rf.current_term ≤ℤ term → (adopt_term rf term).current_term ≡ term
  unfolding adopt_term persist
  term-adopt_term rf term h = ground (arith, eq_of_parts rf.current_term term)

  -- A granted vote is in the node's state, whose values were handed to labgob, in the term of the
  -- request, to a candidate whose log is as recent as the node's.
  pub request_vote-granted :
      (rf : Raft C) (args : RequestVoteArgs)
      → (request_vote rf args).1.vote_granted ≡ true
      → ((request_vote rf args).0.voted_for ≡ args.candidate_id)
        × ((request_vote rf args).0.current_term ≡ args.term)
        × ((request_vote rf args).0.persister.raft_state
            ≡ some (persistent_of (request_vote rf args).0))
        × (up_to_date rf args ≡ true)
  unfolding request_vote
  request_vote-granted rf args granted = ground (
    arith,
    cast_vote-granted (adopt_term rf args.term) args,
    up_to_date-adopt_term rf args.term args,
    term-adopt_term rf args.term,
  )

  start_election-KeepsVote :
      (rf : Raft C)
      → pos 0 ≤ℤ rf.current_term
      → rf.current_term <ℤ max_int64
      → KeepsVote rf (start_election rf).0
  unfolding start_election become_candidate persist
  start_election-KeepsVote rf low high =
      let next = inc64_nonneg rf.current_term low high in ground (arith, next)

  pub on_vote_reply-KeepsVote :
      (rf : Raft C) (term : ℤ) (reply : RequestVoteReply)
      → KeepsVote rf (on_vote_reply rf term reply)
  unfolding on_vote_reply persist become_leader reset_tracked_index
  on_vote_reply-KeepsVote rf term reply = ground arith

  -- What can happen to the vote of a node: it answers a candidate, stands itself, reads a reply to
  -- its candidacy, to a heartbeat, to entries or to a snapshot that it sent, or takes entries, a
  -- snapshot or a heartbeat from a leader, in either of the two handlers for entries. A call that
  -- panics is no step. No other code of raft/ sets a vote, but for a restart.
  pub data VoteStep : Raft C → Raft C → Type 0 where
    answers : (rf : Raft C) (args : RequestVoteArgs) → VoteStep rf (request_vote rf args).0
    stands :
        (rf : Raft C)
        → pos 0 ≤ℤ rf.current_term
        → rf.current_term <ℤ max_int64
        → VoteStep rf (start_election rf).0
    counts :
        (rf : Raft C) (term : ℤ) (reply : RequestVoteReply)
        → VoteStep rf (on_vote_reply rf term reply)
    beats : (rf : Raft C) (reply : AppendReply) → VoteStep rf (on_heartbeat_reply rf reply)
    pulses : (rf : Raft C) (args : AppendArgs C) → VoteStep rf (handle_heartbeat rf args).0
    takes :
        {rf rf' : Raft C} (args : AppendArgs C) (reply : AppendReply)
        → handle_append_entries rf args ≡ ok (rf', reply)
        → VoteStep rf rf'
    syncs :
        {rf rf' : Raft C} (args : AppendArgs C) (reply : AppendReply)
        → sync_append_entries rf args ≡ ok (rf', reply)
        → VoteStep rf rf'
    installs :
        {rf rf' : Raft C} (args : InstallArgs) (term : ℤ)
        → request_install_snapshot rf args ≡ ok (rf', term)
        → VoteStep rf rf'
    hears_of_entries :
        {rf rf' : Raft C} (target : ℕ) (args : AppendArgs C) (reply : AppendReply) (behind : Bool)
        → on_append_reply rf target args reply ≡ ok (rf', behind)
        → VoteStep rf rf'
    hears_of_snapshot :
        {rf rf' : Raft C} (target : ℕ) (args : InstallArgs) (term : ℤ)
        → on_install_reply rf target args term ≡ ok rf'
        → VoteStep rf rf'

  pub data VoteRun (rf : Raft C) : Raft C → Type 0 where
    here : VoteRun rf rf
    next : {a b : Raft C} → VoteRun rf a → VoteStep a b → VoteRun rf b

  VoteStep-KeepsVote : {a b : Raft C} → VoteStep a b → KeepsVote a b
  VoteStep-KeepsVote (answers rf args) = request_vote-KeepsVote rf args
  VoteStep-KeepsVote (stands rf low high) = start_election-KeepsVote rf low high
  VoteStep-KeepsVote (counts rf term reply) = on_vote_reply-KeepsVote rf term reply
  VoteStep-KeepsVote (beats rf reply) = on_heartbeat_reply-KeepsVote rf reply
  VoteStep-KeepsVote (pulses rf args) = handle_heartbeat-KeepsVote rf args
  VoteStep-KeepsVote {a} {b} (takes args reply e) = handle_append_entries-KeepsVote a b args reply e
  VoteStep-KeepsVote {a} {b} (syncs args reply e) = sync_append_entries-KeepsVote a b args reply e
  VoteStep-KeepsVote {a} {b} (installs args term e) =
      request_install_snapshot-KeepsVote a b args term e
  VoteStep-KeepsVote {a} {b} (hears_of_entries target args reply behind e) =
      on_append_reply-KeepsVote a b target args reply behind e
  VoteStep-KeepsVote {a} {b} (hears_of_snapshot target args term e) =
      on_install_reply-KeepsVote a b target args term e

  VoteRun-KeepsVote : {a b : Raft C} → VoteRun a b → KeepsVote a b
  VoteRun-KeepsVote here = record { later = omega arith; same = λ e v. refl }
  VoteRun-KeepsVote (next r s) = KeepsVote-trans (VoteRun-KeepsVote r) (VoteStep-KeepsVote s)

  -- A node that granted its vote in a term, and grants it again in the same term however many steps
  -- later, while it was not restarted, grants it to the same candidate; a candidate's id is not the mark for no vote.
  pub votes_once :
      (rf later : Raft C) (first second : RequestVoteArgs)
      → VoteRun (request_vote rf first).0 later
      → (request_vote rf first).1.vote_granted ≡ true
      → (request_vote later second).1.vote_granted ≡ true
      → second.term ≡ first.term
      → first.candidate_id ≢ no_vote
      → second.candidate_id ≡ first.candidate_id
  votes_once rf later first second run granted again same real =
      let g = request_vote-granted rf first granted in
      let h = request_vote-granted later second again in
      let k = KeepsVote-trans (VoteRun-KeepsVote run) (request_vote-KeepsVote later second) in
      sym h.0 ∙ k.same (h.1 ∙ same ∙ sym g.1) (λ unset. real (sym g.0 ∙ unset)) ∙ g.0
