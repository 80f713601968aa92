-- ===== src/Storage/Snapshot.antt =====
-- storage/wal.go: the file of the last snapshot. What the operating system does with a call is an
-- argument. The JSON and base64 codecs are parameters.
pub mod Reopen
use wjetcd.Common.{
  Bool, true, false, not, if◌then◌else◌, ltb, Option, none, some, List, [], ◌∷◌, ByteString, bytes,
  bytes_key, ℕ, take, ℤ, pos, Map, lookup, length,
}
use wjetcd.Storage.Wal.{StorageError, closed, io_failure, malformed, Result, success, failure}

-- What `SaveWithWAL` encodes.
pub record Saved : Type 0 where
  pub content : ByteString
  pub term : ℤ
  pub idx : ℤ
  pub wal_offset : ℤ
  pub wal_id : ByteString

-- A dynamic value, and what `decoder.Decode` finds in a file. A number is given by its conversion
-- to an integer.
pub data Field : Type 0 where
  string : ByteString → Field
  number : ℤ → Field
  other : Field

pub data Document : Type 0 where
  not_json null_value trailing_value : Document
  object : Map ByteString Field → Document

-- `stored` is what stands at the snapshot's path. `is_open` says that `s.file` is not nil, and
-- `at_path` that it is the file at the path, and not one that was replaced there.
pub record Snapshot : Type 0 where
  pub saved : Saved
  pub open saved use *
  pub stored : ByteString
  pub is_open : Bool
  pub at_path : Bool

unfoldable pub no_snapshot : Saved
no_snapshot = record { content = []; term = pos 0; idx = pos 0; wal_offset = pos 0; wal_id = [] }

-- The fields that may be missing keep what they have in a new snapshot.
offset_of : Option Field → ℤ
offset_of (some (number n)) = n
offset_of _ = pos 0

id_of : Option Field → ByteString
id_of (some (string s)) = s
id_of _ = []

-- The checks on `term` and `idx`, after the data was decoded.
with_numbers : ByteString → Option Field → Option Field → Map ByteString Field → Result Saved
unfolding offset_of id_of
with_numbers content (some (number term)) (some (number idx)) m = success (record {
  content = content;
  term = term;
  idx = idx;
  wal_offset = offset_of (lookup (bytes "wal_offset") m);
  wal_id = id_of (lookup (bytes "wal_id") m);
})
with_numbers content _ _ m = failure malformed

module _ (decode_string : ByteString → Option ByteString) where
  with_content : Option Field → Map ByteString Field → Result Saved
  unfolding with_numbers
  with_content (some (string s)) m = elim (decode_string s) [
    | none ↦ failure malformed
    | some content ↦ with_numbers content (lookup (bytes "term") m) (lookup (bytes "idx") m) m
  ]
  with_content _ m = failure malformed

  load_document : Document → Result Saved
  unfolding with_content
  load_document (object m) = with_content (lookup (bytes "data") m) m
  load_document _ = failure malformed

  -- `loadFromFile`, where the file can be read.
  unfoldable pub load_from_file : (ByteString → Document) → ByteString → Result Saved
  unfolding no_snapshot load_document
  load_from_file parse [] = success no_snapshot
  load_from_file parse (b ∷ s) = load_document (parse (b ∷ s))

  -- `NewSnapshot`; the first argument says whether the file can be opened, synced and read.
  unfoldable pub new_snapshot : Bool → (ByteString → Document) → ByteString → Result Snapshot
  unfolding load_from_file
  new_snapshot opens parse stored =
      if opens
      then (elim (load_from_file parse stored) [
        | failure e ↦ failure e
        | success saved ↦
            success (record { saved = saved; stored = stored; is_open = true; at_path = true })
      ])
      else failure io_failure

-- The file at the path, and the temporary file with whether it was synced, if there is one.
pub record Files : Type 0 where
  pub target : ByteString
  pub temp : Option (ByteString × Bool)

create_temp : Files → Files
create_temp d = record d { temp = some ([], false) }

write_temp : ByteString → Files → Files
write_temp s d = record d { temp = some (s, false) }

sync_temp : Files → Files
sync_temp d = record d { temp = elim d.temp [ none ↦ none | some (s, synced) ↦ some (s, true) ] }

remove_temp : Files → Files
remove_temp d = record d { temp = none }

-- A file that was not synced is worth nothing after a crash: at worst it is empty.
rename_temp : Files → Files
rename_temp d = elim d.temp [
  | none ↦ d
  | some (s, synced) ↦ record { target = if synced then s else []; temp = none }
]

-- What becomes of `SaveWithWAL`: the call that fails, where a write may leave any number of bytes; or
-- the process dies after so many bytes, or before or after the rename; or all is done.
pub data Saving : Type 0 where
  uncreated : Saving
  torn : ℕ → Saving
  unsynced unclosed unrenamed : Saving
  died_writing : ℕ → Saving
  died_synced died_renamed : Saving
  unopened old_unclosed directory_unsynced : Saving
  done : Saving

-- The files after the calls that were made.
save_files : Saving → ByteString → Files → Files
unfolding create_temp write_temp sync_temp remove_temp rename_temp
save_files uncreated s d = d
save_files (torn n) s d = remove_temp (write_temp (take n s) (create_temp d))
save_files unsynced s d = remove_temp (write_temp s (create_temp d))
save_files unclosed s d = remove_temp (sync_temp (write_temp s (create_temp d)))
save_files unrenamed s d = remove_temp (sync_temp (write_temp s (create_temp d)))
save_files (died_writing n) s d = write_temp (take n s) (create_temp d)
save_files died_synced s d = sync_temp (write_temp s (create_temp d))
save_files _ s d = rename_temp (sync_temp (write_temp s (create_temp d)))

-- The fields of the snapshot, and the error. A process that dies returns nothing, which counts as an
-- error here.
save_fields : Saving → Saved → Snapshot → Snapshot × Option StorageError
save_fields unopened fields sn = (record sn { at_path = false }, some io_failure)
save_fields old_unclosed fields sn = (record sn { at_path = true }, some io_failure)
save_fields directory_unsynced fields sn = (record sn { at_path = true }, some io_failure)
save_fields done fields sn = (record sn { saved = fields; at_path = true }, none)
save_fields _ fields sn = (sn, some io_failure)

save_open : Saving → Saved → ByteString → Snapshot → Snapshot × Option StorageError
unfolding save_files save_fields
save_open how fields s sn =
    let files = save_files how s (record { target = sn.stored; temp = none }) in
    save_fields how fields (record sn { stored = files.target })

unfoldable pub save_with_wal :
    (Saved → Option ByteString) → Saving → Saved → Snapshot → Snapshot × Option StorageError
unfolding save_open
save_with_wal encode how fields sn =
    if sn.is_open
    then (elim (encode fields) [ none ↦ (sn, some malformed) | some s ↦ save_open how fields s sn ])
    else (sn, some closed)

first_offset : List ℤ → ℤ
first_offset [] = pos 0
first_offset (n ∷ rest) = n

unfoldable pub save :
    (Saved → Option ByteString)
    → Saving
    → ByteString
    → ℤ
    → ℤ
    → List ℤ
    → Snapshot
    → Snapshot × Option StorageError
unfolding first_offset save_with_wal
save encode how content term idx offsets sn =
    save_with_wal encode how
      (record {
        content = content;
        term = term;
        idx = idx;
        wal_offset = first_offset offsets;
        wal_id = [];
      })
      sn

unfoldable pub close : Bool → Snapshot → Snapshot × Option StorageError
close closes sn =
    if sn.is_open
    then (record sn { is_open = false }, if closes then none else some io_failure)
    else (sn, none)

unfoldable pub size : Snapshot → ℤ
size sn = pos (length sn.content)

unfoldable pub exists_snapshot : Snapshot → Bool
exists_snapshot sn = ltb 0 (length sn.content)

-- What becomes of `Delete`: the file could not be cut, or not be synced after that, or all is done.
pub data Deleting : Type 0 where
  uncut unfinished finished : Deleting

cut : Deleting → Snapshot → ByteString
cut uncut sn = sn.stored
cut _ sn = if sn.at_path then [] else sn.stored

unfoldable pub delete : Deleting → Snapshot → Snapshot × Option StorageError
unfolding no_snapshot cut
delete how sn =
    if sn.is_open
    then (
      record sn { saved = no_snapshot; stored = cut how sn },
      elim how [ finished ↦ none | _ ↦ some io_failure ],
    )
    else (sn, some closed)

unfoldable pub load : Snapshot → ByteString × ℤ × ℤ
load sn = (sn.content, sn.term, sn.idx)
