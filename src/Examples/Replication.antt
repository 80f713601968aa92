-- ===== src/Examples/Replication.antt =====
-- Runs of the replication of the log in raft/.
use wjetcd.Common.{
  ◌≡◌, refl, arith, true, false, ByteString, bytes, List, [], ◌∷◌, some, none, length, ℤ, pos,
  negsuc, ◌≤ℤ◌, ◌+ℤ◌,
}
use wjetcd.Raft.Log.{Entry, Log, IsValid, new_log, ok, panic, get_one_entry}
use wjetcd.Raft.Node.{Raft, Role, follower, leader, no_vote, persistent_of}
use wjetcd.Raft.Append.{AppendArgs, handle_append_entries, prev_matches, reply_of}
use wjetcd.Raft.Append.Replicate.{Replicated, handle_append_entries-success}
use wjetcd.Raft.Apply.{apply_committed}
use wjetcd.Raft.Apply.Total.{IsReady, Ended, apply_committed-total}
use wjetcd.Raft.Snapshot.{InstallArgs, request_install_snapshot, take_snapshot}
use wjetcd.Raft.Snapshot.Install.{request_install_snapshot-Cuts}
use wjetcd.Raft.Snapshot.Cut.{Cuts, take_snapshot-Cuts}
use wjetcd.Raft.Leader.{try_commit}
use wjetcd.Raft.Leader.Commit.{CommitRule, try_commit-rule}

abbrev pub entry_of : ℤ → ByteString → Entry ByteString
entry_of term command = record { term = term; command = command }

-- Three entries, from index 0 on.
abbrev pub three : Log ByteString
three = record {
  entries =
      entry_of (pos 1) (bytes "a")
      ∷ entry_of (pos 1) (bytes "b")
      ∷ entry_of (pos 2) (bytes "c")
      ∷ [];
  first_log_index = pos 0;
  last_log_index = pos 2;
}

abbrev pub with_log : Log ByteString → Raft ByteString
with_log log = record {
  peers = bytes "n0" ∷ bytes "n1" ∷ bytes "n2" ∷ [];
  persister = record { raft_state = none; saved_snapshot = [] };
  me = pos 0;
  dead = false;
  state = follower;
  current_term = pos 3;
  voted_for = no_vote;
  peer_trackers =
      record { next_index = pos 4; match_index = pos 3 }
      ∷ record { next_index = pos 3; match_index = pos 2 }
      ∷ record { next_index = pos 0; match_index = pos 0 }
      ∷ [];
  log = log;
  commit_index = pos 0;
  last_applied = negsuc 0;
  apply_helper = record { last_item_index = negsuc 0; queue = [] };
  snapshot = [];
  snapshot_last_include_index = pos 0;
  snapshot_last_include_term = pos 0;
  election_votes = pos 0;
  election_done = false;
}

pub three-IsValid : IsValid three
unfolding ◌+ℤ◌
three-IsValid = record { starts = omega arith; sized = refl }

-- The leader of term 3 replaces the entry at index 2.
abbrev replacing : AppendArgs ByteString
replacing = record {
  leader_term = pos 3;
  leader_id = pos 1;
  prev_log_index = pos 1;
  prev_log_term = pos 1;
  entries = entry_of (pos 3) (bytes "d") ∷ entry_of (pos 3) (bytes "e") ∷ [];
  leader_commit = pos 2;
}

matches : prev_matches three (pos 1) (pos 1) ≡ ok true
unfolding prev_matches wjetcd.Raft.Log.entry_term_at get_one_entry wjetcd.Common.◌-ℤ◌
matches = refl

handle_append_entries-success_example :
    (rf' : Raft ByteString) × (handle_append_entries (with_log three) replacing
      ≡ ok (rf', reply_of (pos 3) true))
    × Replicated three 2 replacing.entries rf'.log
    × (rf'.current_term ≡ pos 3)
unfolding ◌+ℤ◌
handle_append_entries-success_example =
    handle_append_entries-success (with_log three) replacing 2 three-IsValid refl (omega arith)
      matches refl (omega arith)

-- A leader of term 2, two of whose three peers hold the last entry.
abbrev leading : Raft ByteString
leading = record (with_log three) { state = leader; current_term = pos 2; me = pos 3 }

commits : try_commit leading (pos 2) ≡ ok (record leading { commit_index = pos 2 })
unfolding try_commit wjetcd.Raft.Node.get_entry_term ◌+ℤ◌ wjetcd.Raft.Log.entry_term_at
    get_one_entry wjetcd.Common.◌-ℤ◌
commits = refl

try_commit-rule_example : CommitRule leading (pos 2) (record leading { commit_index = pos 2 })
try_commit-rule_example =
    try_commit-rule leading (record leading { commit_index = pos 2 }) (pos 2) commits

-- Two of the three entries are committed.
abbrev committed : Raft ByteString
committed = record (with_log three) { commit_index = pos 1 }

committed-IsReady : IsReady committed
unfolding ◌+ℤ◌
committed-IsReady = record { valid = three-IsValid; in_log = omega arith; aligned = refl }

apply_committed-total_example : Ended committed (apply_committed 3 committed)
unfolding wjetcd.Common.◌-ℤ◌
apply_committed-total_example = apply_committed-total 3 committed committed-IsReady (omega arith)

-- A leader that has applied its entries up to index 1.
abbrev applied : Raft ByteString
applied = record leading { commit_index = pos 1; last_applied = pos 1 }

take_snapshot-Cuts_example :
    (rf' : Raft ByteString) × (take_snapshot applied (pos 1) (bytes "image") ≡ ok rf')
    × Cuts three (pos 1 +ℤ pos 1) rf'.log
    × (rf'.snapshot ≡ bytes "image")
    × (pos 1 ≤ℤ rf'.commit_index)
    × (rf'.persister.raft_state ≡ some (persistent_of rf'))
take_snapshot-Cuts_example =
    take_snapshot-Cuts applied (pos 1) (bytes "image") refl three-IsValid (omega arith)
      (omega arith)

-- A snapshot up to index 1 from the leader of term 4.
abbrev offered : InstallArgs
offered = record {
  term = pos 4;
  leader_id = pos 2;
  last_include_index = pos 1;
  last_include_term = pos 1;
  snapshot = bytes "image";
}

request_install_snapshot-Cuts_example :
    (rf' : Raft ByteString) × (request_install_snapshot (with_log three) offered ≡ ok (rf', pos 4))
    × Cuts three (pos 1 +ℤ pos 1) rf'.log
    × (rf'.current_term ≡ pos 4)
    × (rf'.snapshot ≡ bytes "image")
    × (pos 1 ≤ℤ rf'.last_applied)
    × (pos 1 ≤ℤ rf'.commit_index)
    × (rf'.persister.raft_state ≡ some (persistent_of rf'))
unfolding ◌+ℤ◌
request_install_snapshot-Cuts_example =
    request_install_snapshot-Cuts (with_log three) offered three-IsValid (omega arith) (omega arith)
      (omega arith)
