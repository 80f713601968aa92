-- ===== src/Examples/Rounds.antt =====
-- A round of replication and a tick of the nodes in raft/.
use wjetcd.Common.{
  length, ◌/◌, ◌<◌, ◌+◌, ◌≡◌, refl, arith, true, false, ByteString, bytes, [], ◌∷◌, ℤ, pos, ◌+ℤ◌,
}
use wjetcd.Raft.Log.{Log, ok}
use wjetcd.Raft.Node.{get_entry_term, Raft, PeerTracker, leader}
use wjetcd.Raft.Vote.{start_election}
use wjetcd.Raft.Append.{reply_of}
use wjetcd.Raft.Leader.{count_matching, on_append_reply}
use wjetcd.Raft.Round.{request, acknowledged, round-commits}
use wjetcd.Raft.Ticker.{Timers, tick, elects, reset_election_timer}
use wjetcd.Raft.Ticker.Elects.{tick-elects}
use wjetcd.Examples.Replication.{entry_of, three, with_log, three-IsValid}

-- The peer of number 1 is to get the entries from index 2 on.
abbrev tracker : PeerTracker
tracker = record { next_index = pos 2; match_index = pos 0 }

abbrev lead : Raft ByteString
lead = record (with_log three) {
  state = leader;
  current_term = pos 3;
  me = pos 3;
  peer_trackers = tracker ∷ tracker ∷ tracker ∷ [];
}

-- It has two entries.
abbrev two : Log ByteString
two = record {
  entries = entry_of (pos 1) (bytes "a") ∷ entry_of (pos 1) (bytes "b") ∷ [];
  first_log_index = pos 0;
  last_log_index = pos 1;
}

-- The leader of the term of its last entry.
abbrev current : Raft ByteString
current = record lead { current_term = pos 2 }

ours : get_entry_term current (pos 2) ≡ ok (pos 2)
unfolding get_entry_term wjetcd.Raft.Log.entry_term_at wjetcd.Raft.Log.get_one_entry
    wjetcd.Common.◌-ℤ◌ ◌+ℤ◌
ours = refl

majority :
    length current.peers / 2
    < 1 + count_matching (pos 2) current.me 0 (acknowledged current 1).peer_trackers
unfolding wjetcd.Raft.Leader.with_tracker count_matching ◌+ℤ◌
majority = omega arith

round-commits_example :
    (lead' : Raft ByteString) × (on_append_reply current 1
        (request current 1 (pos 1))
        (reply_of (pos 2) true)
      ≡ ok (lead', false))
    × (lead'.commit_index ≡ pos 2)
unfolding ◌+ℤ◌
round-commits_example =
    round-commits current 1 tracker 1 refl three-IsValid refl refl (omega arith) (pos 1) ours
      (omega arith) majority

abbrev timers : Timers
timers = record { election_timeout = pos 0; last_election = pos 0; last_heartbeat = pos 0 }

tick-elects_example :
    tick (pos 3000000000) 5 (with_log three) (reset_election_timer (pos 7) 400 timers)
    ≡ elects
        (start_election (with_log three)).0
        (start_election (with_log three)).1
        (reset_election_timer (pos 3000000000) 5 (reset_election_timer (pos 7) 400 timers))
unfolding ◌+ℤ◌
tick-elects_example =
    tick-elects (with_log three) (pos 7) (pos 3000000000) 400 5 timers refl (λ e. cc) (omega arith)
