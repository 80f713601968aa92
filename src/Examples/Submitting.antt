-- ===== src/Examples/Submitting.antt =====
-- Runs of `Submit` of server/server.go.
use wjetcd.Common.{◌≡◌, refl, arith, true, false, bytes, [], ◌∷◌, some, none, pos, ◌+ℤ◌}
use wjetcd.Command.{Command, zero_command, cmd_lease_grant}
use wjetcd.Raft.Log.{Log, ok, IsValid, get_one_entry}
use wjetcd.Raft.Node.{Raft, leader, no_vote, persistent_of}
use wjetcd.Server.State.{Server, text, awaits, new_machine}
use wjetcd.Server.Loop.{apply_command, running}
use wjetcd.Server.Submit.{Node, waiting, submit, with_expiry}
use wjetcd.Server.Submit.Answer.{submit-waits, told_of_another}

-- A leader of term 2 with one entry.
abbrev log : Log Command
log = record {
  entries = record { term = pos 1; command = zero_command } ∷ [];
  first_log_index = pos 0;
  last_log_index = pos 0;
}

log-IsValid : IsValid log
unfolding ◌+ℤ◌
log-IsValid = record { starts = omega arith; sized = refl }

abbrev leading : Raft Command
leading = record {
  peers = bytes "n0" ∷ bytes "n1" ∷ bytes "n2" ∷ [];
  persister = record { raft_state = none; saved_snapshot = [] };
  me = pos 1;
  dead = false;
  state = leader;
  current_term = pos 2;
  voted_for = no_vote;
  peer_trackers = [];
  log = log;
  commit_index = pos 0;
  last_applied = pos 0;
  apply_helper = record { last_item_index = pos 0; queue = [] };
  snapshot = [];
  snapshot_last_include_index = pos 0;
  snapshot_last_include_term = pos 0;
  election_votes = pos 0;
  election_done = true;
}

abbrev server : Server
server = record {
  machine = new_machine;
  watchers = record {
    watchers = [];
    prefix_watchers = [];
    next_id = 0;
    event_log = [];
    closed = [];
  };
  wal = some [];
  persistence_failed = false;
  pending = [];
  replies = [];
  last_applied = pos 0;
}

abbrev pub node : Node
node = record { server = server; rf = some leading; startup_failed = false }

abbrev lease_cmd : Command
lease_cmd = record zero_command { type = cmd_lease_grant; ttl = pos 5 }

submit-waits_example :
    (n' : Node) × (rf' : Raft Command) × (submit (pos 100) node lease_cmd
      ≡ ok (n', waiting (pos 0 +ℤ pos 1) (pos 2)))
    × (n'.rf ≡ some rf')
    × (get_one_entry rf'.log (pos 0 +ℤ pos 1)
        ≡ some (record { term = pos 2; command = with_expiry (pos 100) lease_cmd }))
    × (rf'.persister.raft_state ≡ some (persistent_of rf'))
    × IsValid rf'.log
    × (awaits (pos 0 +ℤ pos 1) n'.server.pending ≡ true)
    × (n'.server.machine ≡ new_machine)
    × (n'.server.replies ≡ [])
submit-waits_example = submit-waits (pos 100) node lease_cmd leading refl refl refl refl log-IsValid

-- The caller of index 1 waits for another command than this put.
abbrev waiting_server : Server
waiting_server = record server { pending = pos 1 ∷ [] }

abbrev put_cmd : Command
put_cmd = record zero_command { key = bytes "job/b"; value = bytes "new" }

told_of_another_example :
    (s' : Server) × (apply_command (pos 100) true (pos 1) waiting_server put_cmd ≡ running s')
    × (s'.replies ≡ (pos 1, text (bytes "")) ∷ [])
    × (awaits (pos 1) s'.pending ≡ false)
told_of_another_example =
    told_of_another (pos 100) (pos 1) waiting_server put_cmd refl (omega arith) refl refl
