-- ===== src/Examples/Election.antt =====
-- Runs of the elections of raft/leader_election.go.
use wjetcd.Common.{
  ◌≡◌, refl, arith, true, false, ByteString, bytes, List, [], ◌∷◌, some, ℤ, pos, negsuc,
}
use wjetcd.Raft.Node.{Raft, follower, candidate, leader, Gob, make, persist, no_vote}
use wjetcd.Raft.Log.{ok}
use wjetcd.Raft.Vote.{
  start_election, vote_targets, RequestVoteArgs, request_vote, on_vote_reply, up_to_date,
}
use wjetcd.Raft.Vote.Once.{here, next, answers, votes_once}
use wjetcd.Raft.Vote.Crash.{vote_survives, IsGob, reread}
use wjetcd.Raft.Vote.TwoLeaders.{two_leaders}

abbrev addresses : List ByteString
addresses = bytes "n0" ∷ bytes "n1" ∷ bytes "n2" ∷ []

-- Node 0 of three, with its log empty and its state saved.
abbrev pub node : Raft ByteString
node = record {
  peers = addresses;
  persister = record {
    raft_state = some (record {
      saved_term = pos 4;
      saved_vote = no_vote;
      saved_log = record { entries = []; first_log_index = pos 0; last_log_index = negsuc 0 };
      saved_snapshot_index = pos 0;
      saved_snapshot_term = pos 0;
    });
    saved_snapshot = [];
  };
  me = pos 0;
  dead = false;
  state = follower;
  current_term = pos 4;
  voted_for = no_vote;
  peer_trackers = [];
  log = record { entries = []; first_log_index = pos 0; last_log_index = negsuc 0 };
  commit_index = pos 0;
  last_applied = negsuc 0;
  apply_helper = record { last_item_index = negsuc 0; queue = [] };
  snapshot = [];
  snapshot_last_include_index = pos 0;
  snapshot_last_include_term = pos 0;
  election_votes = pos 0;
  election_done = false;
}

abbrev pub asked : RequestVoteArgs
asked = record {
  term = pos 5;
  candidate_id = pos 2;
  last_log_index = negsuc 0;
  last_log_term = pos 0;
}

grants : (request_vote node asked).1.vote_granted ≡ true
unfolding request_vote wjetcd.Raft.Vote.cast_vote wjetcd.Raft.Vote.adopt_term persist up_to_date
grants = refl

-- Node 1 asks in the same term, and is refused.
abbrev rival : RequestVoteArgs
rival = record asked { candidate_id = pos 1 }

abbrev repeated : RequestVoteArgs
repeated = record asked { last_log_index = pos 0 }

abbrev later : Raft ByteString
later = (request_vote (request_vote node asked).0 rival).0

grants_again : (request_vote later repeated).1.vote_granted ≡ true
unfolding request_vote wjetcd.Raft.Vote.cast_vote wjetcd.Raft.Vote.adopt_term persist up_to_date
grants_again = refl

votes_once_example : repeated.candidate_id ≡ asked.candidate_id
votes_once_example =
    votes_once node later asked repeated (next here (answers (request_vote node asked).0 rival))
      grants grants_again refl (λ e. cc)

-- gob, where commands are byte strings.
abbrev pub gob : Gob ByteString
gob p = some (record p { saved_log = reread p.saved_log })

gob-IsGob : IsGob (λ c. Unit {0}) gob
gob-IsGob = record { read_back = λ p registered. refl }

vote_survives_example :
    let told = (request_vote node asked).0 in
    (again : Raft ByteString) × (make gob addresses (pos 0) told.persister [] ≡ ok again)
    × (again.current_term ≡ told.current_term)
    × (again.voted_for ≡ told.voted_for)
    × (again.log ≡ reread node.log)
vote_survives_example =
    vote_survives (λ c. Unit {0}) gob node asked addresses (pos 0) [] gob-IsGob tt refl

abbrev old_leader : Raft ByteString
old_leader = record node { state = leader }

-- Node 2 stands in term 5, with its own vote.
abbrev pub challenger : Raft ByteString
challenger = record node {
  me = pos 2;
  state = candidate;
  current_term = pos 5;
  voted_for = pos 2;
  election_votes = pos 1;
}

recent : up_to_date old_leader asked ≡ true
unfolding up_to_date
recent = refl

two_leaders_example :
    ((request_vote old_leader asked).0.state ≡ leader)
    × ((on_vote_reply challenger (pos 5) (request_vote old_leader asked).1).state ≡ leader)
    × ((on_vote_reply challenger (pos 5) (request_vote old_leader asked).1).current_term
        ≡ (request_vote old_leader asked).0.current_term)
unfolding wjetcd.Common.◌+ℤ◌
two_leaders_example =
    two_leaders old_leader challenger asked refl refl (omega arith) recent refl refl refl
      (omega arith)
