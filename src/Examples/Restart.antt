-- ===== src/Examples/Restart.antt =====
-- Restarts of the server of server/server.go, on files as a checkpoint or a crash leaves them.
use mathlib.Core.List.Perm
use wjetcd.Common.{
  ℕ, ◌≡◌, ◌≢◌, refl, sym, ap, ◌∙◌, arith, Bool, true, false, Bool-cases, inl, inr, ◌⊎◌,
  if◌then◌else◌, ◌&&◌, ByteString, bytes, bytes_eq, bytes_eq_iff, List, [], ◌∷◌, ◌++◌, Option, some,
  none, length, All, ℤ, pos, eqb_ℤ, eqb_ℤ_iff, max_ℤ,
}
use wjetcd.Command.{Command, zero_command}
use wjetcd.Kv.{KvStore, StoreSnapshot, take_snapshot}
use wjetcd.Lease.{
  Lease, LeaseManager, LeaseSnapshot, take_lease_snapshot, restore_leases, new_lease_manager,
}
use wjetcd.Lease.Table.{HasLeases, no_leases}
use wjetcd.Storage.Wal.{success, torn, write_entry, replaced}
use wjetcd.Storage.Wal.Remains.{append_all}
use wjetcd.Storage.Snapshot
use wjetcd.Storage.Snapshot.{
  Saved, Field, string, number, Document, object, not_json, Snapshot, load_from_file, save_with_wal,
  torn, done,
}
use wjetcd.Storage.Snapshot.Reopen.{IsCodec, IsExact, save_is_atomic}
use wjetcd.Server.State.{Machine, Server, new_machine}
use wjetcd.Server.Recovery.{recovered}
use wjetcd.Server.Loop.{apply_command, server_of, stamp}
use wjetcd.Server.Journal.{IsSound, IsPossible, IsRecorded, here}
use wjetcd.Server.Persist.{Codecs, state_of, start, save_persistent_state}
use wjetcd.Server.Persist.Snapshots.{Encodes}
use wjetcd.Server.Persist.Checkpoint.{Restarts, checkpoint_restores}
use wjetcd.Server.Persist.Replays.{run_replays}
use wjetcd.Server.Persist.{replay_values}
use wjetcd.Common.{map}
use wjetcd.Server.Persist.Crash.{IsJournalled, crash_recovers, empty_file}
use wjetcd.Examples.Disk.{
  put_at, encode_put, decode_put, view_put, put-IsCodec, empty_wal, empty_wal-Holds, some-injective,
}

abbrev lease : Lease
lease = record { id = pos 1; ttl = pos 10; expire_at = pos 900; attached = [] }

-- A key at revision 3 and a lease.
abbrev pub machine : Machine
machine = record {
  store = record {
    versions =
        (bytes "job", record { revision = pos 3; value = bytes "old"; tombstone = false } ∷ [])
        ∷ [];
    key2lease = [];
    current_rev = pos 3;
  };
  lease_mgr = record {
    leases = (pos 1, lease) ∷ [];
    lease_id = pos 1;
    heap = record { id = pos 1; expire_at = pos 900 } ∷ [];
  };
  current_rev = pos 3;
}

pub machine-HasLeases : HasLeases machine.lease_mgr
unfolding wjetcd.Common.lookup
machine-HasLeases = record {
  counted = omega arith;
  listed = (
    record {
      own_id = refl;
      positive = omega arith;
      counted = omega arith;
      lives = omega arith;
      expires = omega arith;
    },
    refl,
    tt,
  );
  scheduled = record { ordered = λ c p q r. absurd (omega arith); agrees = Perm.rfl };
}

-- The snapshot that is taken of the machine, with the journal of the other runs.
abbrev fields : Saved
fields = record {
  content = bytes "state";
  term = pos 0;
  idx = pos 3;
  wal_offset = pos 0;
  wal_id = bytes "8:1";
}

abbrev same_fields : Saved → Bool
same_fields f =
    bytes_eq f.content (bytes "state")
    && (eqb_ℤ f.term (pos 0)
        && (eqb_ℤ f.idx (pos 3) && (eqb_ℤ f.wal_offset (pos 0) && bytes_eq f.wal_id (bytes "8:1"))))

-- A codec for these fields alone.
abbrev encode_fields : Saved → Option ByteString
encode_fields f = if same_fields f then some (bytes "{}") else none

abbrev parse_fields : ByteString → Document
parse_fields s = object (
    (bytes "data", string (bytes "state"))
    ∷ (bytes "idx", number (pos 3))
    ∷ (bytes "term", number (pos 0))
    ∷ (bytes "wal_id", string (bytes "8:1"))
    ∷ (bytes "wal_offset", number (pos 0))
    ∷ [])

same_fields-eq : (f : Saved) → same_fields f ≡ true → f ≡ fields
same_fields-eq f h =
    let content : f.content ≡ bytes "state" =
      ground (arith, h, bytes_eq_iff f.content (bytes "state")) in
    let term : f.term ≡ pos 0 = ground (arith, h, eqb_ℤ_iff f.term (pos 0)) in
    let idx : f.idx ≡ pos 3 = ground (arith, h, eqb_ℤ_iff f.idx (pos 3)) in
    let offset : f.wal_offset ≡ pos 0 = ground (arith, h, eqb_ℤ_iff f.wal_offset (pos 0)) in
    let id : f.wal_id ≡ bytes "8:1" = ground (arith, h, bytes_eq_iff f.wal_id (bytes "8:1")) in cc

encodes_same :
    (f : Saved) (s : ByteString) → encode_fields f ≡ some s → (f ≡ fields) × (s ≡ bytes "{}")
encodes_same f s e = elim (Bool-cases (same_fields f)) [
  | inl t ↦ (same_fields-eq f t, some-injective (sym (rw t at e)))
  | inr n ↦ cc (rw n at e)
]

fields-IsCodec : IsCodec encode_fields parse_fields (λ s. s) some
fields-IsCodec = record {
  text = λ s. refl;
  filled = λ f e. (let both = encodes_same f [] e in cc);
  parses = λ f s x e.
      (let both = encodes_same f s e in
        ap
          (λ g. object (
            (bytes "data", string g.content)
            ∷ (bytes "idx", number g.idx)
            ∷ (bytes "term", number g.term)
            ∷ (bytes "wal_id", string g.wal_id)
            ∷ (bytes "wal_offset", number g.wal_offset)
            ∷ []))
          (sym both.0));
}

fields-IsExact : IsExact fields
fields-IsExact = record {
  term = (omega arith, omega arith);
  idx = (omega arith, omega arith);
  offset = (omega arith, omega arith);
  ascii = (omega arith, (omega arith, (omega arith, tt)));
}

abbrev snapshot_file : Snapshot
snapshot_file = record { saved = Snapshot.no_snapshot; stored = []; is_open = true; at_path = true }

-- The file is replaced, but the directory is not synced.
save_is_atomic_example :
    let (sn', error) = save_with_wal encode_fields (torn 3) fields snapshot_file in
    (sn'.stored ≡ []) × (error ≢ none)
    ⊎ (load_from_file some parse_fields sn'.stored ≡ success fields)
      × ((error ≢ none) ⊎ (sn'.saved ≡ fields))
save_is_atomic_example =
    save_is_atomic encode_fields parse_fields (λ s. s) some fields-IsCodec (torn 3) fields
      snapshot_file fields-IsExact

abbrev pub codecs : Codecs
codecs = record {
  marshal_store = λ s. bytes "{}";
  unmarshal_store = λ s. some (take_snapshot machine.store);
  marshal_leases = λ s. bytes "{}";
  unmarshal_leases = λ s. some (take_lease_snapshot machine.lease_mgr);
  marshal_state = λ s. some (bytes "state");
  unmarshal_state =
      λ s. some (record { store = bytes "{}"; leases = bytes "{}"; current_rev = pos 3 });
  encode_saved = encode_fields;
  parse_saved = parse_fields;
  decode_string = some;
  unmarshal_entry = decode_put;
}

machine-Encodes : Encodes codecs machine
unfolding state_of wjetcd.Kv.snapshot
machine-Encodes = record {
  store_back = refl;
  store_filled = λ e. cc;
  leases_back = refl;
  leases_filled = λ e. cc;
  content = bytes "state";
  encoded = refl;
  filled = λ e. cc;
  state_back = refl;
}

files_apart : bytes "8:1" ≢ bytes "8:2"
unfolding bytes_eq
files_apart e = let same = (bytes_eq_iff (bytes "8:1") (bytes "8:2")).1 e in cc

abbrev pub new_server : Server
new_server = record {
  machine = new_machine;
  watchers = record {
    watchers = [];
    prefix_watchers = [];
    next_id = 0;
    event_log = [];
    closed = [];
  };
  wal = some [];
  persistence_failed = false;
  pending = pos 2 ∷ [];
  replies = [];
  last_applied = pos 0;
}

-- A server with this machine and nothing in its journal.
abbrev pub kept_server : Server
kept_server = record new_server { machine = machine }

kept_server-IsSound : IsSound kept_server
kept_server-IsSound = record {
  healthy = refl;
  in_step = (omega arith, omega arith);
  leases = machine-HasLeases;
  store = record { counted = omega arith; ascending = ((omega arith, omega arith), tt) };
}

kept_server-IsRecorded : IsRecorded (λ n. pos 100) machine kept_server
unfolding wjetcd.Server.Recovery.replay_entries
kept_server-IsRecorded = record { log = []; written = refl; replays = refl }

-- The machine is saved and the journal cleared; the new one is another file.
checkpoint_restores_example :
    Restarts codecs
      (λ n. pos 100)
      machine
      empty_wal
      snapshot_file
      (save_persistent_state codecs true done
        (replaced (bytes "8:2") true)
        machine
        (record { wal = some empty_wal; snapshot = some snapshot_file }))
unfolding machine-Encodes
checkpoint_restores_example =
    checkpoint_restores codecs encode_put view_put (λ s. s) (λ n. pos 100) machine kept_server
      kept_server empty_wal snapshot_file [] done (replaced (bytes "8:2") true) fields-IsCodec
      kept_server-IsSound kept_server-IsRecorded here machine-Encodes empty_wal-Holds (λ e. cc)
      fields-IsExact files_apart

abbrev put_cmd : Command
put_cmd = record zero_command { key = 1 ∷ [] }

new_server-IsSound : IsSound new_server
unfolding new_machine wjetcd.Kv.new_kv_store wjetcd.Lease.new_lease_manager
new_server-IsSound = record {
  healthy = refl;
  in_step = (omega arith, omega arith);
  leases = no_leases;
  store = record { counted = omega arith; ascending = tt };
}

new_server-IsRecorded : IsRecorded (λ n. pos 100) new_machine new_server
unfolding wjetcd.Server.Recovery.replay_entries
new_server-IsRecorded = record { log = []; written = refl; replays = refl }

put_cmd-IsPossible : IsPossible (pos 100) new_server put_cmd
unfolding new_machine wjetcd.Server.Recovery.effective_expiry wjetcd.Lease.expiry_after
    wjetcd.Common.wrap64 wjetcd.Common.◌+ℤ◌ wjetcd.Common.◌*ℤ◌ wjetcd.Server.Recovery.revoked_keys
    stamp wjetcd.Server.Recovery.takes_revision wjetcd.Lease.revoke_lease
    wjetcd.Lease.new_lease_manager wjetcd.Kv.doomed_keys wjetcd.Kv.new_kv_store wjetcd.Common.lookup
put_cmd-IsPossible = record {
  not_get = λ e. cc;
  known = λ e. cc;
  expiry = omega arith;
  spare = (omega arith, omega arith);
  spare_prefix = (omega arith, omega arith);
  spare_lease = omega arith;
}

-- A new server after a put.
abbrev put_server : Server
put_server = record new_server {
  machine = record {
    store = record {
      versions = (1 ∷ [], record { revision = pos 1; value = []; tombstone = false } ∷ []) ∷ [];
      key2lease = [];
      current_rev = pos 1;
    };
    lease_mgr = record { leases = []; lease_id = pos 0; heap = [] };
    current_rev = pos 1;
  };
  wal = some (put_at 1 (1 ∷ []) ∷ []);
}

put_server-IsSound : IsSound put_server
put_server-IsSound = record {
  healthy = refl;
  in_step = (omega arith, omega arith);
  leases = no_leases;
  store = record { counted = omega arith; ascending = ((omega arith, omega arith), tt) };
}

put_server-IsRecorded : IsRecorded (λ n. pos 100) new_machine put_server
unfolding wjetcd.Server.Recovery.replay_entries wjetcd.Server.Recovery.apply_recovered_command
    wjetcd.Server.Recovery.recover_typed wjetcd.Server.Recovery.restamp
    wjetcd.Server.Recovery.takes_revision wjetcd.Server.Recovery.catch_up_rev
    wjetcd.Server.Recovery.write_recovered wjetcd.Kv.apply wjetcd.Lease.revoke wjetcd.Lease.holder
    new_machine wjetcd.Kv.new_kv_store wjetcd.Lease.new_lease_manager wjetcd.Kv.apply_put
    wjetcd.Kv.write_version wjetcd.Kv.append_version wjetcd.Kv.advance_rev wjetcd.Common.insert
    wjetcd.Common.delete wjetcd.Common.lookup wjetcd.Kv.assign_rev
put_server-IsRecorded = record { log = put_at 1 (1 ∷ []) ∷ []; written = refl; replays = refl }

put_again-IsPossible : IsPossible (pos 100) put_server put_cmd
unfolding wjetcd.Server.Recovery.effective_expiry wjetcd.Lease.expiry_after wjetcd.Common.wrap64
    wjetcd.Common.◌+ℤ◌ wjetcd.Common.◌*ℤ◌ wjetcd.Server.Recovery.revoked_keys stamp
    wjetcd.Server.Recovery.takes_revision wjetcd.Lease.revoke_lease wjetcd.Kv.doomed_keys
    wjetcd.Common.lookup wjetcd.Common.has_prefix
put_again-IsPossible = record {
  not_get = λ e. cc;
  known = λ e. cc;
  expiry = omega arith;
  spare = (omega arith, omega arith);
  spare_prefix = (omega arith, omega arith);
  spare_lease = omega arith;
}

put_log-IsJournalled :
    All (IsJournalled codecs (λ n. pos 100) encode_put view_put) (put_at 1 (1 ∷ []) ∷ [])
unfolding wjetcd.Server.Decode.command_from_value
put_log-IsJournalled = (record { line = _; encoded = refl; back = refl }, tt)

put_again-IsJournalled :
    IsJournalled codecs
      (λ n. pos 100)
      encode_put
      view_put
      (stamp (pos 100) put_server.machine put_cmd).1
unfolding wjetcd.Server.Decode.command_from_value stamp wjetcd.Server.Recovery.takes_revision
    wjetcd.Common.inc64 wjetcd.Common.wrap64 wjetcd.Common.◌+ℤ◌
put_again-IsJournalled = record { line = _; encoded = refl; back = refl }

starts_empty : start codecs (λ n. pos 100) (empty_file (bytes "8:1")) [] ≡ recovered new_machine
unfolding start
starts_empty = refl

-- The process dies after five bytes of the second put's record.
crash_recovers_example :
    start codecs
      (λ n. pos 100)
      (write_entry encode_put
        (torn 5)
        (put_at 2 (1 ∷ []))
        (append_all encode_put (put_at 1 (1 ∷ []) ∷ []) empty_wal)).0.file
      []
    ≡ recovered put_server.machine
unfolding put_server-IsRecorded put_again-IsJournalled stamp wjetcd.Server.Recovery.takes_revision
    wjetcd.Common.inc64
crash_recovers_example =
    crash_recovers codecs (λ n. pos 100) encode_put view_put new_machine empty_wal [] put_server
      (pos 100) (pos 2) put_cmd (torn 5) put-IsCodec empty_wal-Holds starts_empty put_server-IsSound
      put_server-IsRecorded put_again-IsPossible put_log-IsJournalled put_again-IsJournalled

-- The loop journals the put with its revision.
put-journalled :
    (server_of (apply_command (pos 100) true (pos 2) new_server put_cmd)).wal
    ≡ some (put_at 1 (1 ∷ []) ∷ [])
unfolding apply_command stamp wjetcd.Server.Loop.journal_and_execute new_machine
    wjetcd.Server.Loop.execute_typed wjetcd.Server.Recovery.takes_revision wjetcd.Server.Loop.finish
    wjetcd.Server.State.notify_reply wjetcd.Server.Loop.live_write
    wjetcd.Server.State.notify_watchers wjetcd.Common.inc64 wjetcd.Common.wrap64 wjetcd.Common.◌+ℤ◌
put-journalled = refl

run_replays_example :
    replay_values (λ n. pos 100) 0 new_machine (map view_put (put_at 1 (1 ∷ []) ∷ []))
    ≡ recovered (server_of (apply_command (pos 100) true (pos 2) new_server put_cmd)).machine
run_replays_example =
    run_replays codecs (λ n. pos 100) encode_put view_put new_machine new_server new_server
      (pos 100) (pos 2) put_cmd (put_at 1 (1 ∷ []) ∷ []) new_server-IsSound new_server-IsRecorded
      here put_cmd-IsPossible put-journalled put_log-IsJournalled
