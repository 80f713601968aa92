-- ===== src/Examples/Startup.antt =====
-- A start of server/server.go on a journal with a put.
use wjetcd.Common.{◌≡◌, ◌≢◌, refl, arith, true, ByteString, bytes, [], ◌∷◌, some, none, pos, List}
use wjetcd.Storage.Wal.Remains.{append_all}
use wjetcd.Command.{Command}
use wjetcd.Raft.Node.{Raft, Gob}
use wjetcd.Raft.Vote.{RequestVoteArgs, request_vote, cast_vote, adopt_term, up_to_date}
use wjetcd.Raft.Node.{persist}
use wjetcd.Server.State.{Machine, new_machine}
use wjetcd.Server.Recovery.{Recovered, recovered}
use wjetcd.Server.Persist.{Durable, restore_persistent_state}
use wjetcd.Server.Submit.{Node}
use wjetcd.Server.Startup.{new_server}
use wjetcd.Server.Startup.Forgets.{new_server-forgets, restarted}
use wjetcd.Examples.Disk.{put_at, encode_put, empty_wal}
use wjetcd.Examples.Restart.{codecs}

abbrev files : Durable
files = record {
  wal = some (append_all encode_put (put_at 1 (1 ∷ []) ∷ []) empty_wal);
  snapshot = none;
}

abbrev restored : Recovered
restored = restore_persistent_state codecs true true (λ n. pos 100) new_machine files

abbrev machine_of : Recovered → Machine
machine_of (recovered m) = m
machine_of _ = new_machine

restores : restored ≡ recovered (machine_of restored)
unfolding restore_persistent_state wjetcd.Storage.Wal.write_entry
    wjetcd.Server.Recovery.recover_typed wjetcd.Server.Recovery.restamp
    wjetcd.Server.Recovery.takes_revision new_machine
restores = refl

abbrev rival : RequestVoteArgs
rival = record { term = pos 5; candidate_id = pos 1; last_log_index = pos 0; last_log_term = pos 1 }

abbrev peers : List ByteString
peers = bytes "n0" ∷ bytes "n1" ∷ bytes "n2" ∷ []

abbrev gob : Gob Command
gob values = some values

-- The candidate that the node voted for before.
abbrev first : RequestVoteArgs
first = record { term = pos 5; candidate_id = pos 2; last_log_index = pos 0; last_log_term = pos 1 }

granted : (request_vote (restarted peers (pos 1)) first).1.vote_granted ≡ true
unfolding request_vote cast_vote adopt_term up_to_date persist restarted
    wjetcd.Server.Startup.make_persister wjetcd.Raft.Node.fresh_trackers wjetcd.Raft.Log.new_log
granted = refl

new_server-forgets_example :
    (n : Node) × (rf : Raft Command) × (new_server codecs gob true true
        (λ n. pos 100)
        (pos 1)
        peers
        (some [])
        files
      ≡ some n)
    × (n.rf ≡ some rf)
    × (n.server.machine ≡ machine_of restored)
    × ((request_vote rf rival).1.vote_granted ≡ true)
    × ((request_vote rf rival).0.current_term
        ≡ (request_vote (restarted peers (pos 1)) first).0.current_term)
    × ((request_vote rf rival).0.voted_for
        ≢ (request_vote (restarted peers (pos 1)) first).0.voted_for)
new_server-forgets_example =
    new_server-forgets codecs gob true true (λ n. pos 100) (pos 1) peers (some []) files
      (machine_of restored) (restarted peers (pos 1)) first rival restores granted (omega arith)
      refl (λ e. cc)
