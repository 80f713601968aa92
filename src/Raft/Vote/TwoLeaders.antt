-- ===== src/Raft/Vote/TwoLeaders.antt =====
-- A leader that grants its vote: `RequestVote` and the reply's handling in raft/leader_election.go.
use wjetcd.Common.{
  ◌≡◌, refl, ◌∙◌, sym, arith, Bool, true, false, length, ℤ, pos, ◌+ℤ◌, ◌<ℤ◌, ltb_ℤ, ◌/◌,
}
use wjetcd.Raft.Node.{Raft, get_last_entry_term, leader, candidate, persist}
use wjetcd.Raft.Vote.{
  RequestVoteArgs, RequestVoteReply, adopt_term, cast_vote, request_vote, up_to_date, on_vote_reply,
  become_leader, reset_tracked_index,
}

module _ {C : Type 0} where
  -- `RequestVote` of a later term grants the vote where the candidate's log is recent enough, takes
  -- the term over, and keeps the role.
  pub later_term-granted :
      (rf : Raft C) (args : RequestVoteArgs)
      → rf.dead ≡ false
      → rf.current_term <ℤ args.term
      → up_to_date rf args ≡ true
      → ((request_vote rf args).1.vote_granted ≡ true)
        × ((request_vote rf args).1.term ≡ args.term)
        × ((request_vote rf args).0.current_term ≡ args.term)
        × ((request_vote rf args).0.state ≡ rf.state)
  unfolding request_vote adopt_term cast_vote persist up_to_date get_last_entry_term
  later_term-granted rf args alive later recent =
      let fresh : Bool = ltb_ℤ args.term rf.current_term in
      let not_old : fresh ≡ false = ground arith in
      let newer : ltb_ℤ rf.current_term args.term ≡ true = ground arith in
      rw (alive, not_old, newer, recent) (refl, refl, refl, refl)

  -- The vote that makes a majority makes a candidate the leader.
  pub last_vote-elects :
      (rf : Raft C) (term : ℤ) (reply : RequestVoteReply)
      → rf.state ≡ candidate
      → rf.election_done ≡ false
      → rf.current_term ≡ term
      → reply.term ≡ term
      → reply.vote_granted ≡ true
      → pos (length rf.peers / 2) <ℤ rf.election_votes +ℤ pos 1
      → ((on_vote_reply rf term reply).state ≡ leader)
        × ((on_vote_reply rf term reply).current_term ≡ term)
  unfolding on_vote_reply become_leader reset_tracked_index
  last_vote-elects rf term reply stands unsettled ours same granted majority = ground arith

  -- A live leader that is asked for its vote by a candidate of a later term with a log that is
  -- recent enough grants it and stays leader in the candidate's term. Where the candidate's
  -- election is not settled and that vote makes its majority, both are leaders in the same term.
  pub two_leaders :
      (old new : Raft C) (args : RequestVoteArgs)
      → old.state ≡ leader
      → old.dead ≡ false
      → old.current_term <ℤ args.term
      → up_to_date old args ≡ true
      → new.state ≡ candidate
      → new.election_done ≡ false
      → new.current_term ≡ args.term
      → pos (length new.peers / 2) <ℤ new.election_votes +ℤ pos 1
      → ((request_vote old args).0.state ≡ leader)
        × ((on_vote_reply new args.term (request_vote old args).1).state ≡ leader)
        × ((on_vote_reply new args.term (request_vote old args).1).current_term
            ≡ (request_vote old args).0.current_term)
  two_leaders old new args leads alive later recent stands unsettled term majority =
      let (granted, replied, adopted, kept) = later_term-granted old args alive later recent in
      let (elected, same) =
        last_vote-elects new args.term (request_vote old args).1 stands unsettled term replied
          granted majority in
      (kept ∙ leads, elected, same ∙ sym adopted)
