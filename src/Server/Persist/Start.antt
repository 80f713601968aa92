-- ===== src/Server/Persist/Start.antt =====
-- cmd/server/server.go and `NewServer` of server/server.go: a start on what stands at the paths.
use wjetcd.Common.{ℕ, ◌≡◌, refl, Bool, true, ByteString, none, some, ℤ}
use wjetcd.Storage.Wal.{File, Wal, success, failure, new_wal}
use wjetcd.Storage.Snapshot.{Saved, Snapshot, load_from_file, new_snapshot}
use wjetcd.Server.State.{Machine, new_machine}
use wjetcd.Server.Recovery.{failed}
use wjetcd.Server.Persist.{
  Codecs, start, restore_persistent_state, restore_snapshot, replay_journal,
}

abbrev pub opened_snapshot : Saved → ByteString → Snapshot
opened_snapshot fields stored = record {
  saved = fields;
  stored = stored;
  is_open = true;
  at_path = true;
}

abbrev pub opened_wal : File → Wal
opened_wal f = record { file = f; is_open = true }

module _ (codecs : Codecs) (clock : ℕ → ℤ) (f : File) (stored : ByteString) where
  -- Once the snapshot is read, the journal is left.
  pub start-loaded :
      (fields : Saved) (m : Machine) (has_snapshot : Bool)
      → load_from_file codecs.decode_string codecs.parse_saved stored ≡ success fields
      → restore_snapshot codecs new_machine (some (opened_snapshot fields stored))
        ≡ some (m, has_snapshot)
      → start codecs clock f stored
        ≡ replay_journal codecs true true clock m has_snapshot
            (some (opened_snapshot fields stored))
            (some (opened_wal f))
  unfolding start new_wal new_snapshot restore_persistent_state
  start-loaded fields m has_snapshot e r =
      rw (start, new_snapshot, e, restore_persistent_state, r) refl

  pub start-unreadable :
      {e : _}
      → load_from_file codecs.decode_string codecs.parse_saved stored ≡ failure e
      → start codecs clock f stored ≡ failed
  unfolding start new_wal new_snapshot
  start-unreadable e = rw (start, new_snapshot, e) refl

  pub start-unrestored :
      (fields : Saved)
      → load_from_file codecs.decode_string codecs.parse_saved stored ≡ success fields
      → restore_snapshot codecs new_machine (some (opened_snapshot fields stored)) ≡ none
      → start codecs clock f stored ≡ failed
  unfolding start new_wal new_snapshot restore_persistent_state
  start-unrestored fields e r = rw (start, new_snapshot, e, restore_persistent_state, r) refl
