-- ===== src/Examples/Serving.antt =====
-- Runs of the server of server/server.go.
use wjetcd.Common.{
  ◌≡◌, refl, arith, Bool, true, false, inl, inr, ◌⊎◌, ByteString, bytes, bytes_eq, List, [], ◌∷◌,
  Option, some, none, length, take, ◌++◌, ◌-◌, ℤ, pos,
}
use wjetcd.Command.{Command, zero_command, cmd_lease_revoke}
use wjetcd.Lease.{LeaseManager, Lease, get_lease}
use wjetcd.Watch.{Event, WatcherInfo, catch_up}
use wjetcd.Watch.Resend.{filled, owed, catch_up-resends}
use wjetcd.Server.State.{Machine, Server}
use wjetcd.Server.Recovery.{apply_recovered_command, recovered}
use wjetcd.Server.Loop.{apply_command, server_of, stamp}
use wjetcd.Server.Progress.{Hangs, Answers, apply_command-Answers}
use wjetcd.Server.Replay.{HasPositiveIds, replay_agrees}

abbrev lease_one : Lease
lease_one = record {
  id = pos 1;
  ttl = pos 10;
  expire_at = pos 900;
  attached = (bytes "job/a", bytes "old") ∷ [];
}

-- A key with a lease, at revision 3.
abbrev machine : Machine
machine = record {
  store = record {
    versions =
        (bytes "job/a", record { revision = pos 3; value = bytes "old"; tombstone = false } ∷ [])
        ∷ [];
    key2lease = (bytes "job/a", pos 1) ∷ [];
    current_rev = pos 3;
  };
  lease_mgr = record {
    leases = (pos 1, lease_one) ∷ [];
    lease_id = pos 1;
    heap = record { id = pos 1; expire_at = pos 900 } ∷ [];
  };
  current_rev = pos 3;
}

-- A caller waits for index 7.
abbrev server : Server
server = record {
  machine = machine;
  watchers = record {
    watchers = [];
    prefix_watchers = [];
    next_id = 0;
    event_log = [];
    closed = [];
  };
  wal = some [];
  persistence_failed = false;
  pending = pos 7 ∷ [];
  replies = [];
  last_applied = pos 6;
}

abbrev revocation : Command
revocation = record zero_command { type = cmd_lease_revoke; lease_id = pos 1 }

abbrev put_cmd : Command
put_cmd = record zero_command { key = bytes "job/b"; value = bytes "new" }

ids_positive : HasPositiveIds server.lease_mgr
unfolding get_lease wjetcd.Common.lookup
ids_positive id h = ground arith

replay_agrees_example :
    apply_recovered_command (pos 200) machine (stamp (pos 100) machine revocation).1
    ≡ recovered (server_of (apply_command (pos 100) true (pos 7) server revocation)).machine
unfolding wjetcd.Server.Recovery.revoked_keys stamp wjetcd.Server.Recovery.takes_revision
    wjetcd.Lease.revoke_lease wjetcd.Common.lookup wjetcd.Common.sort_strings
    wjetcd.Server.Recovery.effective_expiry wjetcd.Lease.expiry_after wjetcd.Common.wrap64
    wjetcd.Common.◌+ℤ◌ wjetcd.Common.◌*ℤ◌
replay_agrees_example =
    replay_agrees (pos 100) (pos 200) (pos 7) server revocation refl (omega arith, omega arith)
      (omega arith) ids_positive (omega arith) (λ e. cc) (λ e. cc)

apply_command-Answers_example :
    Hangs put_cmd.type
    ⊎ Answers (pos 7) server (apply_command (pos 100) true (pos 7) server put_cmd)
apply_command-Answers_example =
    apply_command-Answers (pos 100) (pos 7) server put_cmd refl (omega arith)

abbrev event : ℤ → Event
event rev = record { key = bytes "job/a"; value = bytes "old"; type = bytes "PUT"; revision = rev }

-- A watcher from revision 2 that had the event of revision 2 already.
abbrev watcher : WatcherInfo
watcher = record {
  id = 1;
  buffer = event (pos 2) ∷ [];
  persistent = true;
  expire_at = pos 0;
  from_rev = pos 2;
}

abbrev log : List Event
log = event (pos 1) ∷ event (pos 2) ∷ event (pos 3) ∷ []

abbrev is_job : ByteString → Bool
is_job key = bytes_eq key (bytes "job/a")

catch_up-resends_example :
    ((catch_up is_job watcher log (pos 3)).buffer
      ≡ filled watcher.buffer (owed is_job (pos 2) (pos 3) log))
    × ((catch_up is_job watcher log (pos 3)).from_rev ≡ pos 2)
catch_up-resends_example = catch_up-resends is_job watcher log (pos 3) refl
