-- ===== src/Raft/Vote.antt =====
-- raft/leader_election.go: requests for votes, their replies, and becoming a leader.
pub mod Keeps
pub mod Once
pub mod Crash
pub mod TwoLeaders
pub mod Targets
use wjetcd.Common.{
  ℕ, suc, ◌≡◌, Bool, true, false, not, ◌&&◌, ◌||◌, Option, none, some, List, [], ◌∷◌, if◌then◌else◌,
  ByteString, ℤ, pos, negsuc, ◌+ℤ◌, ltb_ℤ, leb_ℤ, eqb_ℤ, inc64, length, ◌/◌,
}
use wjetcd.Raft.Log.{Entry, Log}
use wjetcd.Raft.Node.{
  Raft, Role, follower, candidate, leader, is_candidate, no_vote, PeerTracker, persist,
  persistent_of, get_last_entry_term,
}

pub record RequestVoteArgs : Type 0 where
  pub term : ℤ
  pub candidate_id : ℤ
  pub last_log_index : ℤ
  pub last_log_term : ℤ

pub record RequestVoteReply : Type 0 where
  pub term : ℤ
  pub vote_granted : Bool

reset_trackers : ℤ → List PeerTracker → List PeerTracker
reset_trackers next [] = []
reset_trackers next (tracker ∷ rest) =
    record { next_index = next; match_index = pos 0 } ∷ reset_trackers next rest

-- The loop of `StartElection`: the numbers of the peers that are asked, from number `i` on.
unfoldable pub vote_targets : ℤ → ℕ → List ByteString → List ℕ
vote_targets me i [] = []
vote_targets me i (addr ∷ rest) =
    let others = vote_targets me (suc i) rest in if eqb_ℤ me (pos i) then others else i ∷ others

module _ {C : Type 0} where
  unfoldable pub become_candidate : Raft C → Raft C
  become_candidate rf = record rf {
    state = candidate;
    current_term = inc64 rf.current_term;
    voted_for = rf.me;
  }

  unfoldable pub reset_tracked_index : Raft C → Raft C
  unfolding reset_trackers
  reset_tracked_index rf = record rf {
    peer_trackers = reset_trackers (rf.log.last_log_index +ℤ pos 1) rf.peer_trackers;
  }

  unfoldable pub become_leader : Raft C → Raft C
  become_leader rf = reset_tracked_index (record rf { state = leader })

  -- The locked part of `StartElection`: the new state, and the request that goes to every peer.
  unfoldable pub start_election : Raft C → Raft C × RequestVoteArgs
  start_election rf =
      let stood = persist (become_candidate rf) in
      (
        record stood { election_votes = pos 1; election_done = false },
        record {
          term = stood.current_term;
          candidate_id = stood.me;
          last_log_index = stood.log.last_log_index;
          last_log_term = get_last_entry_term stood;
        },
      )

  -- What `StartElection` does with the reply to a request of the given term.
  unfoldable pub on_vote_reply : Raft C → ℤ → RequestVoteReply → Raft C
  on_vote_reply rf term reply =
      let stepped_down =
        record (persist
          (record rf { current_term = reply.term; state = follower; voted_for = no_vote })) {
            election_done = true;
          } in
      let counted = record rf { election_votes = rf.election_votes +ℤ pos 1 } in
      let elected = record (become_leader counted) { election_done = true } in
      if not (eqb_ℤ rf.current_term term)
      then rf
      else if not (is_candidate rf.state)
      then rf
      else if rf.election_done
      then rf
      else if ltb_ℤ rf.current_term reply.term
      then stepped_down
      else if ltb_ℤ reply.term rf.current_term
      then rf
      else if reply.vote_granted
      then (if ltb_ℤ (pos (length rf.peers / 2)) counted.election_votes then elected else counted)
      else rf

  -- The candidate's log is at least as recent as the node's; an empty log accepts any.
  unfoldable pub up_to_date : Raft C → RequestVoteArgs → Bool
  up_to_date rf args =
      if ltb_ℤ rf.log.last_log_index rf.log.first_log_index
      then true
      else ltb_ℤ (get_last_entry_term rf) args.last_log_term
        || (eqb_ℤ args.last_log_term (get_last_entry_term rf)
            && leb_ℤ rf.log.last_log_index args.last_log_index)

  -- `RequestVote` from the comparison of the logs on.
  unfoldable pub cast_vote : Raft C → RequestVoteArgs → Raft C × RequestVoteReply
  cast_vote rf args =
      if (eqb_ℤ rf.voted_for no_vote || eqb_ℤ rf.voted_for args.candidate_id) && up_to_date rf args
      then (
        persist (record rf { voted_for = args.candidate_id }),
        record { term = rf.current_term; vote_granted = true },
      )
      else (rf, record { term = rf.current_term; vote_granted = false })

  -- A later term is adopted, and the vote with it; the role is left as it is.
  unfoldable pub adopt_term : Raft C → ℤ → Raft C
  adopt_term rf term =
      if ltb_ℤ rf.current_term term
      then persist (record rf { current_term = term; voted_for = no_vote })
      else rf

  unfoldable pub request_vote : Raft C → RequestVoteArgs → Raft C × RequestVoteReply
  request_vote rf args =
      if rf.dead
      then (rf, record { term = rf.current_term; vote_granted = false })
      else if ltb_ℤ args.term rf.current_term
      then (persist rf, record { term = rf.current_term; vote_granted = false })
      else cast_vote (adopt_term rf args.term) args
