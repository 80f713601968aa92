-- ===== src/Server/Persist.antt =====
-- server/server.go: `restorePersistentState`, `savePersistentState` and `Shutdown`, and the start of
-- cmd/server/server.go. What the files do is an argument, as in the models of storage/. The JSON
-- codecs are parameters. Every error of a restore is `failed`.
mod Start
pub mod Snapshots
pub mod Checkpoint
pub mod Crash
pub mod Replays
use wjetcd.Common.{
  ℕ, suc, Bool, true, false, not, ◌&&◌, if◌then◌else◌, Option, none, some, List, [], ◌∷◌,
  ByteString, bytes_eq, ℤ, pos, max_ℤ,
}
use wjetcd.Kv.{KvStore, StoreSnapshot, RestoreError, snapshot, restore}
use wjetcd.Lease.{
  LeaseManager, LeaseSnapshot, LeaseRestoreError, take_lease_snapshot, restore_leases,
}
use wjetcd.Storage.Wal
use wjetcd.Storage.Wal.{
  Wal, File, StorageError, Result, success, failure, Clearing, new_wal, read_entries,
  read_entries_from, size, file_id, clear,
}
use wjetcd.Storage.Snapshot
use wjetcd.Storage.Snapshot.{Saved, Document, Snapshot, Saving, new_snapshot, save_with_wal}
use wjetcd.Server.State.{Machine, new_machine}
use wjetcd.Server.Recovery.{Recovered, recovered, failed, stuck, apply_recovered_command}
use wjetcd.Server.Decode.{Payload, command_from_value}

pub record ServerSnapshot : Type 0 where
  pub store : ByteString
  pub leases : ByteString
  pub current_rev : ℤ

-- The server's two files, each of which may be nil.
pub record Durable : Type 0 where
  pub wal : Option Wal
  pub snapshot : Option Snapshot

-- The JSON and base64 codecs.
pub record Codecs : Type 0 where
  pub marshal_store : StoreSnapshot → ByteString
  pub unmarshal_store : ByteString → Option StoreSnapshot
  pub marshal_leases : LeaseSnapshot → ByteString
  pub unmarshal_leases : ByteString → Option LeaseSnapshot
  pub marshal_state : ServerSnapshot → Option ByteString
  pub unmarshal_state : ByteString → Option ServerSnapshot
  pub encode_saved : Saved → Option ByteString
  pub parse_saved : ByteString → Document
  pub decode_string : ByteString → Option ByteString
  pub unmarshal_entry : ByteString → Option Payload

-- `replayEntries`; the time is read anew for each entry.
unfoldable pub replay_values : (ℕ → ℤ) → ℕ → Machine → List Payload → Recovered
unfolding command_from_value apply_recovered_command
replay_values clock n m [] = recovered m
replay_values clock n m (entry ∷ rest) = elim (command_from_value entry) [
  | none ↦ failed
  | some cmd ↦ elim (apply_recovered_command (clock n) m cmd) [
    | recovered m' ↦ replay_values clock (suc n) m' rest
    | failed ↦ failed
    | stuck ↦ stuck
  ]
]

replay_result : (ℕ → ℤ) → Machine → Result (List Payload) → Recovered
unfolding replay_values
replay_result clock m (failure e) = failed
replay_result clock m (success entries) = replay_values clock 0 m entries

with_store : Machine → KvStore × Option RestoreError → Option Machine
with_store m (store, none) = some (record m { store = store })
with_store m (store, some e) = none

with_leases : Machine → LeaseManager × Option LeaseRestoreError → Option Machine
with_leases m (leases, none) = some (record m { lease_mgr = leases })
with_leases m (leases, some e) = none

is_blank : ServerSnapshot → Bool
is_blank state = bytes_eq state.store [] && bytes_eq state.leases []

take_rev : ℤ → Machine → Machine
take_rev rev m = record m { current_rev = max_ℤ rev m.store.current_rev }

-- The journal's records after the snapshot: those past the offset in the file that the snapshot
-- names, and all in another file.
suffix_offset : Snapshot → ByteString → ℤ
suffix_offset sn wal_id =
    if not (bytes_eq sn.wal_id []) && bytes_eq sn.wal_id wal_id then sn.wal_offset else pos 0

-- The identity and the size of the journal, where there is one.
journal_mark : Bool → Option Wal → Result (ByteString × ℤ)
unfolding file_id size
journal_mark stats none = success ([], pos 0)
journal_mark stats (some w) = elim (file_id stats w) [
  | failure e ↦ failure e
  | success id ↦ elim (size stats w) [ failure e ↦ failure e | success n ↦ success (id, n) ]
]

clear_journal : Clearing → Durable → Durable × Bool
unfolding clear
clear_journal clearing d = elim d.wal [
  | none ↦ (d, true)
  | some w ↦
      let (w', error) = clear clearing w in
      (record d { wal = some w' }, elim error [ none ↦ true | some e ↦ false ])
]

module _ (codecs : Codecs) where
  -- A part of the snapshot that is missing is passed over.
  restore_store : Machine → ByteString → Option Machine
  unfolding with_store
  restore_store m [] = some m
  restore_store m (b ∷ s) = with_store m (restore codecs.unmarshal_store m.store (b ∷ s))

  restore_lease_part : Machine → ByteString → Option Machine
  unfolding with_leases
  restore_lease_part m [] = some m
  restore_lease_part m (b ∷ s) =
      with_leases m (restore_leases codecs.unmarshal_leases m.lease_mgr (b ∷ s))

  pub restore_state : Machine → ServerSnapshot → Option Machine
  unfolding restore_store restore_lease_part is_blank take_rev
  restore_state m state = if is_blank state then none else (elim (restore_store m state.store) [
    | none ↦ none
    | some m1 ↦ elim (restore_lease_part m1 state.leases) [
      | none ↦ none
      | some m2 ↦ some (take_rev state.current_rev m2)
    ]
  ])

  -- The part of `restorePersistentState` before the journal: an error, or the machine and whether
  -- there was a snapshot.
  pub restore_snapshot : Machine → Option Snapshot → Option (Machine × Bool)
  unfolding restore_state
  restore_snapshot m none = some (m, false)
  restore_snapshot m (some sn) = elim sn.content [
    | [] ↦ some (m, false)
    | b ∷ s ↦ elim (codecs.unmarshal_state (b ∷ s)) [
      | none ↦ none
      | some state ↦ elim (restore_state m state) [ none ↦ none | some m' ↦ some (m', true) ]
    ]
  ]

  replay_suffix : Bool → Bool → (ℕ → ℤ) → Machine → Snapshot → Wal → Recovered
  unfolding file_id read_entries_from suffix_offset replay_result
  replay_suffix stats reads clock m sn w = elim (file_id stats w) [
    | failure e ↦ failed
    | success wal_id ↦
        replay_result clock m
          (read_entries_from codecs.unmarshal_entry reads (suffix_offset sn wal_id) w)
  ]

  pub replay_journal :
      Bool → Bool → (ℕ → ℤ) → Machine → Bool → Option Snapshot → Option Wal → Recovered
  unfolding read_entries replay_result replay_suffix
  replay_journal stats reads clock m has_snapshot sn none = recovered m
  replay_journal stats reads clock m true (some sn) (some w) =
      replay_suffix stats reads clock m sn w
  replay_journal stats reads clock m _ sn (some w) =
      replay_result clock m (read_entries codecs.unmarshal_entry reads w)

  unfoldable pub restore_persistent_state : Bool → Bool → (ℕ → ℤ) → Machine → Durable → Recovered
  unfolding restore_snapshot replay_journal
  restore_persistent_state stats reads clock m d = elim (restore_snapshot m d.snapshot) [
    | none ↦ failed
    | some (m', has_snapshot) ↦ replay_journal stats reads clock m' has_snapshot d.snapshot d.wal
  ]

  -- `main` and `NewServer` with files that can be opened and read, on what stands at their paths.
  unfoldable pub start : (ℕ → ℤ) → File → ByteString → Recovered
  unfolding restore_persistent_state new_wal new_snapshot new_machine
  start clock journal stored = elim (new_wal true true journal) [
    | failure e ↦ failed
    | success w ↦ elim (new_snapshot codecs.decode_string true codecs.parse_saved stored) [
      | failure e ↦ failed
      | success sn ↦
          restore_persistent_state true true clock new_machine
            (record { wal = some w; snapshot = some sn })
    ]
  ]

  -- The state that a snapshot holds.
  unfoldable pub state_of : Machine → ServerSnapshot
  unfolding snapshot
  state_of m = record {
    store = snapshot codecs.marshal_store m.store;
    leases = codecs.marshal_leases (take_lease_snapshot m.lease_mgr);
    current_rev = max_ℤ m.current_rev m.store.current_rev;
  }

  save_marked :
      Saving
      → Clearing
      → Machine
      → ByteString
      → ByteString × ℤ
      → Snapshot
      → Durable
      → Durable × Bool
  unfolding save_with_wal clear_journal
  save_marked saving clearing m content mark sn d =
      let (sn', error) =
        save_with_wal codecs.encode_saved saving
          (record {
            content = content;
            term = pos 0;
            idx = max_ℤ m.current_rev m.store.current_rev;
            wal_offset = mark.1;
            wal_id = mark.0;
          })
          sn in
      let saved = record d { snapshot = some sn' } in
      (elim error [ some e ↦ (saved, false) | none ↦ clear_journal clearing saved ])

  -- The Boolean says that there was no error.
  unfoldable pub save_persistent_state :
      Bool → Saving → Clearing → Machine → Durable → Durable × Bool
  unfolding state_of journal_mark save_marked
  save_persistent_state stats saving clearing m d = elim d.snapshot [
    | none ↦ (d, true)
    | some sn ↦ elim (codecs.marshal_state (state_of m)) [
      | none ↦ (d, false)
      | some content ↦ elim (journal_mark stats d.wal) [
        | failure e ↦ (d, false)
        | success mark ↦ save_marked saving clearing m content mark sn d
      ]
    ]
  ]

abbrev pub close_files : Durable → Durable
close_files d = record {
  wal = elim d.wal [ none ↦ none | some w ↦ some (Wal.close true w).0 ];
  snapshot = elim d.snapshot [ none ↦ none | some sn ↦ some (Snapshot.close true sn).0 ];
}

-- `Shutdown`, after the messages that Raft had committed were applied: it saves only if the start
-- and all journal writes succeeded. The first Boolean says that the start did.
unfoldable pub shutdown :
    Codecs → Bool → Bool → Bool → Saving → Clearing → Machine → Durable → Durable
unfolding save_persistent_state
shutdown codecs started journal_failed stats saving clearing m d =
    let saved = (save_persistent_state codecs stats saving clearing m d).0 in
    close_files (if started && not journal_failed then saved else d)
