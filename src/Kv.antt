-- ===== src/Kv.antt =====
-- kv/store.go: the multi-version key-value store. `data` and `key2Lease` are maps, a key's versions
-- are listed oldest first, and revisions are `int64` with their wrap-around. The store's mutex is
-- left out except where it decides the result (`apply` on CmdGet); `watchEvents` is never used.
mod History
pub mod Reads
pub mod Valid
pub mod Versions
pub mod Cas
pub mod Counter
pub mod Prefix
pub mod Restore
use wjetcd.Common.{
  ℕ, suc, Bool, true, false, not, ◌&&◌, ◌||◌, Option, none, some, List, [], ◌∷◌, ◌++◌, reverse,
  if◌then◌else◌, ByteString, bytes, bytes_eq, bytes_key, has_prefix, sort_strings, ℤ, pos, ltb_ℤ,
  leb_ℤ, eqb_ℤ, inc64, max_int64, Map, keys, lookup, insert, delete, last,
}
use wjetcd.Command.{CommandType, Command, cmd_put, cmd_get, cmd_delete, cmd_lease_attach, cmd_cas}

pub record VersionEntry : Type 0 where
  pub revision : ℤ
  pub value : ByteString
  pub tombstone : Bool

pub record KvStore : Type 0 where
  pub versions : Map ByteString (List VersionEntry)
  pub key2lease : Map ByteString ℤ
  pub current_rev : ℤ

unfoldable pub new_kv_store : KvStore
new_kv_store = record { versions = []; key2lease = []; current_rev = pos 0 }

unfoldable pub set_key_lease : KvStore → ByteString → ℤ → KvStore
set_key_lease kv key lease_id = record kv { key2lease = insert key lease_id kv.key2lease }

-- The zero value of a missing key is 0.
unfoldable pub get_key_lease : KvStore → ByteString → ℤ
get_key_lease kv key = elim (lookup key kv.key2lease) [ none ↦ pos 0 | some id ↦ id ]

unfoldable pub increment_revision : KvStore → KvStore × ℤ
increment_revision kv = (record kv { current_rev = inc64 kv.current_rev }, inc64 kv.current_rev)

-- `kv.data[key]`, where a missing key has no versions.
abbrev pub history : KvStore → ByteString → List VersionEntry
history kv key = elim (lookup key kv.versions) [ none ↦ [] | some entries ↦ entries ]

-- `kv.data[key] = append(kv.data[key], entry)`
unfoldable pub append_version : KvStore → ByteString → VersionEntry → KvStore
append_version kv key entry = record kv {
  versions = insert key (history kv key ++ entry ∷ []) kv.versions;
}

-- How `Apply` assigns the revision of a write: 0 asks for the next one, and a given one is kept.
unfoldable pub assign_rev : KvStore → ℤ → ℤ
assign_rev kv rev = if eqb_ℤ rev (pos 0) then inc64 kv.current_rev else rev

unfoldable pub advance_rev : KvStore → ℤ → KvStore
advance_rev kv rev =
    if eqb_ℤ rev (pos 0)
    then record kv { current_rev = inc64 kv.current_rev }
    else if ltb_ℤ kv.current_rev rev
    then record kv { current_rev = rev }
    else kv

-- The write that the branches of `Apply` share.
unfoldable pub write_version : KvStore → ByteString → ℤ → ByteString → Bool → KvStore
write_version kv key rev value tombstone =
    append_version (advance_rev kv rev) key
      (record { revision = assign_rev kv rev; value = value; tombstone = tombstone })

-- What a call of `Apply` gives: a result, an error, or no return at all.
pub data Applied : Type 0 where
  done : ByteString → Applied
  unknown_command : Applied
  deadlock : Applied

-- `latest != nil && !latest.Tombstone && latest.Revision == cmd.ExpectedRev`
unfoldable pub cas_matches : KvStore → Command → Bool
cas_matches kv cmd = elim (last (history kv cmd.key)) [
  | none ↦ false
  | some latest ↦ not latest.tombstone && eqb_ℤ latest.revision cmd.expected_rev
]

unfoldable pub apply_put : KvStore → Command → KvStore
apply_put kv cmd =
    let written = write_version kv cmd.key cmd.revision cmd.value false in
    record written {
      key2lease =
          if ltb_ℤ (pos 0) cmd.lease_id
          then insert cmd.key cmd.lease_id kv.key2lease
          else delete cmd.key kv.key2lease;
    }

unfoldable pub apply_delete : KvStore → Command → KvStore
apply_delete kv cmd =
    let written = write_version kv cmd.key cmd.revision (bytes "") true in
    record written { key2lease = delete cmd.key kv.key2lease }

unfoldable pub apply_cas : KvStore → Command → KvStore × Applied
apply_cas kv cmd =
    if cas_matches kv cmd
    then (write_version kv cmd.key cmd.revision cmd.value false, done (bytes "OK"))
    else (kv, done (bytes "CAS_FAILED"))

unfoldable pub apply_lease_attach : KvStore → Command → KvStore
apply_lease_attach kv cmd =
    if ltb_ℤ (pos 0) cmd.lease_id
    then write_version (set_key_lease kv cmd.key cmd.lease_id) cmd.key cmd.revision cmd.value false
    else kv

-- `Apply` holds the write lock of `kv.mu`. On CmdGet it calls `GetAtRevision`, which asks for the
-- read lock of the same `RWMutex` and so waits for ever: the call does not return.
apply_typed : CommandType → KvStore → Command → KvStore × Applied
apply_typed cmd_put kv cmd = (apply_put kv cmd, done (bytes ""))
apply_typed cmd_get kv cmd = (kv, deadlock)
apply_typed cmd_delete kv cmd = (apply_delete kv cmd, done (bytes ""))
apply_typed cmd_cas kv cmd = apply_cas kv cmd
apply_typed cmd_lease_attach kv cmd = (apply_lease_attach kv cmd, done (bytes ""))
apply_typed _ kv cmd = (kv, unknown_command)

unfoldable pub apply : KvStore → Command → KvStore × Applied
unfolding apply_typed
apply kv cmd = apply_typed cmd.type kv cmd

-- The loop of `GetAtRevision`, over the versions from the newest to the oldest.
unfoldable pub scan_back : ℤ → List VersionEntry → ByteString × ℤ
scan_back rev [] = (bytes "", pos 0)
scan_back rev (entry ∷ older) =
    if leb_ℤ entry.revision rev
    then (if entry.tombstone then bytes "" else entry.value, entry.revision)
    else scan_back rev older

unfoldable pub get_at_revision : KvStore → ByteString → ℤ → ByteString × ℤ
unfolding scan_back
get_at_revision kv key rev =
    scan_back (if eqb_ℤ rev (pos 0) then max_int64 else rev) (reverse (history kv key))

unfoldable pub get : KvStore → ByteString → ByteString
unfolding get_at_revision
get kv key = (get_at_revision kv key (pos 0)).0

unfoldable pub put : KvStore → ByteString → ByteString → KvStore
put kv key value = write_version kv key (pos 0) value false

unfoldable pub delete_key : KvStore → ByteString → KvStore
delete_key kv key = write_version kv key (pos 0) (bytes "") true

-- `len(entries) > 0` and its newest version is no tombstone; the value of that version.
unfoldable pub live_value : List VersionEntry → Option ByteString
live_value entries = elim (last entries) [
  | none ↦ none
  | some latest ↦ if latest.tombstone then none else some latest.value
]

unfoldable pub live_keys : Map ByteString (List VersionEntry) → List ByteString
unfolding live_value
live_keys [] = []
live_keys ((key, entries) ∷ rest) = elim (live_value entries) [
  | none ↦ live_keys rest
  | some value ↦ key ∷ live_keys rest
]

unfoldable pub keys_of : KvStore → List ByteString
unfolding live_keys
keys_of kv = live_keys kv.versions

unfoldable pub live_count : Map ByteString (List VersionEntry) → ℕ
unfolding live_value
live_count [] = 0
live_count ((key, entries) ∷ rest) = elim (live_value entries) [
  | none ↦ live_count rest
  | some value ↦ suc (live_count rest)
]

unfoldable pub size : KvStore → ℕ
unfolding live_count
size kv = live_count kv.versions

unfoldable pub exists : KvStore → ByteString → Bool
unfolding get
exists kv key = not (bytes_eq (get kv key) (bytes ""))

-- `Clear` keeps `key2Lease`.
unfoldable pub clear : KvStore → KvStore
clear kv = record kv { versions = []; current_rev = pos 0 }

unfoldable pub get_history : KvStore → ByteString → List VersionEntry
get_history kv key = history kv key

unfoldable pub collect_prefix :
    ByteString → Map ByteString (List VersionEntry) → Map ByteString ByteString
unfolding live_value
collect_prefix prefix [] = []
collect_prefix prefix ((key, entries) ∷ rest) =
    let others = collect_prefix prefix rest in
    if has_prefix prefix key
    then (elim (live_value entries) [ none ↦ others | some value ↦ (key, value) ∷ others ])
    else others

unfoldable pub get_prefix : KvStore → ByteString → Map ByteString ByteString
unfolding collect_prefix
get_prefix kv prefix = collect_prefix prefix kv.versions

-- The keys of a map that have the prefix.
unfoldable pub matching_keys : ByteString → List ByteString → List ByteString
matching_keys prefix [] = []
matching_keys prefix (key ∷ rest) =
    let others = matching_keys prefix rest in if has_prefix prefix key then key ∷ others else others

unfoldable pub keys_with_prefix : KvStore → ByteString → List ByteString
unfolding collect_prefix
keys_with_prefix kv prefix = keys (collect_prefix prefix kv.versions)

-- One round of the loop of `DeletePrefix`.
unfoldable pub bury : KvStore → ByteString → KvStore
bury kv key =
    let buried = delete_key kv key in record buried { key2lease = delete key kv.key2lease }

unfoldable pub bury_all : KvStore → List ByteString → KvStore
bury_all kv [] = kv
bury_all kv (key ∷ rest) = bury_all (bury kv key) rest

unfoldable pub doomed_keys : KvStore → ByteString → List ByteString
unfolding matching_keys sort_strings
doomed_keys kv prefix = sort_strings (matching_keys prefix (keys kv.versions))

unfoldable pub delete_prefix : KvStore → ByteString → KvStore × List ByteString
delete_prefix kv prefix = (bury_all kv (doomed_keys kv prefix), doomed_keys kv prefix)

-- `storeSnapshot`. A field is `none` where the decoded JSON leaves it nil.
pub record StoreSnapshot : Type 0 where
  pub snapshot_versions : Option (Map ByteString (List VersionEntry))
  pub snapshot_leases : Option (Map ByteString ℤ)
  pub snapshot_rev : ℤ

-- What `Snapshot` hands to `json.Marshal`.
unfoldable pub take_snapshot : KvStore → StoreSnapshot
take_snapshot kv = record {
  snapshot_versions = some kv.versions;
  snapshot_leases = some kv.key2lease;
  snapshot_rev = kv.current_rev;
}

pub data RestoreError : Type 0 where
  bad_json no_data no_leases bad_revision : RestoreError

unfoldable pub revisions_valid : ℤ → List VersionEntry → Bool
revisions_valid top [] = true
revisions_valid top (entry ∷ rest) =
    not (leb_ℤ entry.revision (pos 0) || ltb_ℤ top entry.revision) && revisions_valid top rest

unfoldable pub histories_valid : ℤ → Map ByteString (List VersionEntry) → Bool
unfolding revisions_valid
histories_valid top [] = true
histories_valid top ((key, entries) ∷ rest) =
    revisions_valid top entries && histories_valid top rest

-- `Restore` from what `json.Unmarshal` gave. An error leaves the store as it was.
restore_checked :
    KvStore
    → Map ByteString (List VersionEntry)
    → Map ByteString ℤ
    → ℤ
    → KvStore × Option RestoreError
restore_checked kv versions leases top =
    if histories_valid top versions
    then (record { versions = versions; key2lease = leases; current_rev = top }, none)
    else (kv, some bad_revision)

restore_fields :
    KvStore
    → Option (Map ByteString (List VersionEntry))
    → Option (Map ByteString ℤ)
    → ℤ
    → KvStore × Option RestoreError
unfolding restore_checked
restore_fields kv none leases top = (kv, some no_data)
restore_fields kv (some versions) none top = (kv, some no_leases)
restore_fields kv (some versions) (some leases) top = restore_checked kv versions leases top

restore_decoded : KvStore → Option StoreSnapshot → KvStore × Option RestoreError
unfolding restore_fields
restore_decoded kv none = (kv, some bad_json)
restore_decoded kv (some s) = restore_fields kv s.snapshot_versions s.snapshot_leases s.snapshot_rev

-- `json.Marshal` and `json.Unmarshal` are parameters.
unfoldable pub snapshot : (StoreSnapshot → ByteString) → KvStore → ByteString
snapshot marshal kv = marshal (take_snapshot kv)

unfoldable pub restore :
    (ByteString → Option StoreSnapshot) → KvStore → ByteString → KvStore × Option RestoreError
unfolding restore_decoded
restore unmarshal kv snap = restore_decoded kv (unmarshal snap)
