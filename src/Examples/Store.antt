-- ===== src/Examples/Store.antt =====
-- Runs of the store of kv/store.go and the locks of server/lock.go.
use wjetcd.Common.{
  ◌≡◌, refl, arith, true, false, inl, if◌then◌else◌, bytes, bytes_eq, bytes_key, has_prefix, [],
  ◌∷◌, none, lookup, pos,
}
use wjetcd.Command.{Command, zero_command, cmd_cas}
use wjetcd.Kv.{
  VersionEntry, KvStore, StoreSnapshot, RestoreError, bad_json, done, apply, assign_rev, bury_all,
  delete_prefix, get_at_revision, get_prefix, keys_of, restore, size, snapshot, take_snapshot,
  history,
}
use wjetcd.Kv.Reads.{snapshot_read_stable}
use wjetcd.Kv.Valid.{IsValid, apply-IsValid}
use wjetcd.Kv.Cas.{cas_wins_once}
use wjetcd.Kv.Prefix.{live, live-delete_prefix}

abbrev first_version : VersionEntry
first_version = record { revision = pos 3; value = bytes "old"; tombstone = false }

abbrev second_version : VersionEntry
second_version = record { revision = pos 5; value = bytes "new"; tombstone = false }

-- A store with two versions of a key, and a deleted key.
abbrev sample : KvStore
sample = record {
  versions =
      (bytes "job/a", first_version ∷ second_version ∷ [])
      ∷ (bytes "tmp", record { revision = pos 4; value = bytes ""; tombstone = true } ∷ [])
      ∷ [];
  key2lease = [];
  current_rev = pos 5;
}

sample-IsValid : IsValid sample
sample-IsValid = record {
  counted = omega arith;
  ascending = ((omega arith, (omega arith, omega arith)), ((omega arith, omega arith), tt));
}

abbrev put_cmd : Command
put_cmd = record zero_command { key = bytes "job/a"; value = bytes "newest" }

abbrev cas_cmd : Command
cas_cmd = record zero_command {
  type = cmd_cas;
  key = bytes "job/a";
  value = bytes "won";
  expected_rev = pos 5;
}

snapshot_read_stable_example :
    get_at_revision (apply sample put_cmd).0 (bytes "job/a") (pos 4)
    ≡ get_at_revision sample (bytes "job/a") (pos 4)
snapshot_read_stable_example =
    snapshot_read_stable sample put_cmd (bytes "job/a") (pos 4) (omega arith, omega arith)
      (inl refl) (omega arith) (omega arith)

apply-IsValid_example : IsValid (apply sample put_cmd).0
apply-IsValid_example =
    apply-IsValid sample put_cmd (omega arith, omega arith) (inl refl) sample-IsValid

cas_wins : (apply sample cas_cmd).1 ≡ done (bytes "OK")
unfolding apply wjetcd.Kv.apply_cas wjetcd.Kv.cas_matches lookup bytes_eq
cas_wins = refl

cas_wins_once_example :
    apply (apply sample cas_cmd).0 cas_cmd ≡ ((apply sample cas_cmd).0, done (bytes "CAS_FAILED"))
cas_wins_once_example =
    cas_wins_once sample cas_cmd cas_cmd sample-IsValid (omega arith, omega arith) (inl refl) refl
      refl refl refl cas_wins

live-delete_prefix_example :
    live (delete_prefix sample (bytes "job/")).0 (bytes "job/a")
    ≡ (if has_prefix (bytes "job/") (bytes "job/a") then none else live sample (bytes "job/a"))
live-delete_prefix_example = live-delete_prefix sample (bytes "job/") (bytes "job/a")
