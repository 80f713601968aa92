-- ===== src/Storage/Wal.antt =====
-- storage/wal.go: the journal, a file of JSON records that each end in a newline. What the operating
-- system does with a call is an argument; `json.Marshal` and `json.Unmarshal` are parameters.
pub mod Lines
pub mod Records
pub mod Remains
pub mod Torn
use wjetcd.Common.{
  ℕ, suc, ◌-◌, Bool, true, false, not, if◌then◌else◌, ◌==◌, leb, Option, none, some, List, [], ◌∷◌,
  ◌++◌, ByteString, ℤ, pos, leb_ℤ, ltb_ℤ, pos_part, length, last, take, drop, ◌||◌, ◌&&◌, get_elem?,
}

pub record File : Type 0 where
  pub content : ByteString
  pub file_id : ByteString

-- `file` is what stands at the journal's path, and `is_open` says that `w.file` is not nil.
pub record Wal : Type 0 where
  pub file : File
  pub is_open : Bool

pub data StorageError : Type 0 where
  closed io_failure outside_file off_boundary malformed : StorageError

pub data Result {ℓ} (A : Type ℓ) : Type ℓ where
  success : A → Result A
  failure : StorageError → Result A

unfoldable pub new_wal : Bool → Bool → File → Result Wal
new_wal opens dir_syncs file =
    if opens && dir_syncs
    then success (record { file = file; is_open = true })
    else failure io_failure

-- How the bytes of an append reach the file: all of them, durably or with a failed `Sync`, or only
-- the first ones.
pub data Appending : Type 0 where
  synced unsynced : Appending
  torn : ℕ → Appending

abbrev pub with_content : Wal → ByteString → Wal
with_content w content = record w { file = record w.file { content = content } }

write_open : Appending → ByteString → Wal → Wal × Option StorageError
write_open synced s w = (with_content w (w.file.content ++ s), none)
write_open unsynced s w = (with_content w (w.file.content ++ s), some io_failure)
write_open (torn n) s w = (with_content w (w.file.content ++ take n s), some io_failure)

unfoldable pub write : Appending → ByteString → Wal → Wal × Option StorageError
unfolding write_open
write how s w = if w.is_open then write_open how s w else (w, some closed)

unfoldable pub write_entry {ℓ} :
    {A : Type ℓ} → (A → Option ByteString) → Appending → A → Wal → Wal × Option StorageError
unfolding write
write_entry marshal how entry w = elim (marshal entry) [
  | none ↦ (w, some malformed)
  | some line ↦ write how (line ++ 10 ∷ []) w
]

unfoldable pub close : Bool → Wal → Wal × Option StorageError
close closes w =
    if w.is_open
    then (record w { is_open = false }, if closes then none else some io_failure)
    else (w, none)

unfoldable pub read_all : Bool → Wal → Result ByteString
read_all reads w =
    if w.is_open
    then (if reads then success w.file.content else failure io_failure)
    else failure closed

-- `strings.LastIndexByte(s, '\n')`.
unfoldable pub last_newline : ByteString → Option ℕ
last_newline [] = none
last_newline (b ∷ s) = elim (last_newline s) [
  | some i ↦ some (suc i)
  | none ↦ if b == 10 then some 0 else none
]

extend_first : ℕ → List ByteString → List ByteString
extend_first b [] = (b ∷ []) ∷ []
extend_first b (line ∷ lines) = (b ∷ line) ∷ lines

-- `strings.Split(s, "\n")` and `strings.Join(lines, "\n")`.
unfoldable pub split : ByteString → List ByteString
unfolding extend_first
split [] = [] ∷ []
split (b ∷ s) = let rest = split s in if b == 10 then [] ∷ rest else extend_first b rest

unfoldable pub join : List ByteString → ByteString
join [] = []
join (line ∷ []) = line
join (line ∷ next ∷ lines) = line ++ 10 ∷ join (next ∷ lines)

unfoldable pub ends_open : ByteString → Bool
ends_open s = elim (last s) [ none ↦ false | some b ↦ not (b == 10) ]

-- The byte before the offset is a newline, or there is none.
unfoldable pub at_boundary : ℕ → ByteString → Bool
at_boundary n s = n == 0 || (elim (get_elem? s (n - 1)) [ none ↦ false | some b ↦ b == 10 ])

module _ {ℓ} {B : Type ℓ} (unmarshal : ByteString → Option B) where
  unfoldable pub add_entry : Option B → Result (List B) → Result (List B)
  add_entry none entries = failure malformed
  add_entry (some entry) (success entries) = success (entry ∷ entries)
  add_entry (some entry) (failure e) = failure e

  -- The loop over the lines.
  unfoldable pub decode_lines : List ByteString → Result (List B)
  unfolding add_entry
  decode_lines [] = success []
  decode_lines ([] ∷ rest) = decode_lines rest
  decode_lines ((b ∷ line) ∷ rest) = add_entry (unmarshal (b ∷ line)) (decode_lines rest)

  unfoldable pub decode_entries : ByteString → Result (List B)
  unfolding ends_open last_newline split decode_lines
  decode_entries s =
      if ends_open s
      then (elim (last_newline s) [
        | none ↦ success []
        | some i ↦ decode_lines (split (take (suc i) s))
      ])
      else decode_lines (split s)

  unfoldable pub read_entries : Bool → Wal → Result (List B)
  unfolding read_all decode_entries
  read_entries reads w = elim (read_all reads w) [
    | failure e ↦ failure e
    | success s ↦ decode_entries s
  ]

  unfoldable pub decode_from : ℤ → ByteString → Result (List B)
  unfolding at_boundary
  decode_from offset s =
      if ltb_ℤ offset (pos 0) || ltb_ℤ (pos (length s)) offset
      then failure outside_file
      else if at_boundary (pos_part offset) s
      then decode_entries (drop (pos_part offset) s)
      else failure off_boundary

  unfoldable pub read_entries_from : Bool → ℤ → Wal → Result (List B)
  unfolding read_all decode_from
  read_entries_from reads offset w = elim (read_all reads w) [
    | failure e ↦ failure e
    | success s ↦ decode_from offset s
  ]

-- What becomes of `Clear`: the old file stays, the new one stands at the path but could not be
-- opened, or it is open, whether or not the closing of the old one and the directory's sync failed.
pub data Clearing : Type 0 where
  kept : Clearing
  unopened : ByteString → Clearing
  replaced : ByteString → Bool → Clearing

clear_open : Clearing → Wal → Wal × Option StorageError
clear_open kept w = (w, some io_failure)
clear_open (unopened id) w =
    (record { file = record { content = []; file_id = id }; is_open = false }, some io_failure)
clear_open (replaced id durable) w = (
  record { file = record { content = []; file_id = id }; is_open = true },
  if durable then none else some io_failure,
)

unfoldable pub clear : Clearing → Wal → Wal × Option StorageError
unfolding clear_open
clear how w = if w.is_open then clear_open how w else (w, some closed)

-- What becomes of `Truncate`: it could not read, or not cut the file, or not seek in the cut file,
-- or wrote only the first bytes, or wrote all and could not cut or sync the file after that.
pub data Truncating : Type 0 where
  unread uncut unsought unfinished finished : Truncating
  partly_written : ℕ → Truncating

-- Lines without an empty last one.
trim_empty : List ByteString → List ByteString
trim_empty lines = elim (last lines) [
  | some [] ↦ take (length lines - 1) lines
  | some (b ∷ line) ↦ lines
  | none ↦ lines
]

rewritten : Truncating → ByteString → Wal → Wal × Option StorageError
rewritten unread s w = (w, some io_failure)
rewritten uncut s w = (w, some io_failure)
rewritten unsought s w = (with_content w [], some io_failure)
rewritten (partly_written n) s w = (with_content w (take n s), some io_failure)
rewritten unfinished s w = (with_content w s, some io_failure)
rewritten finished s w = (with_content w s, none)

emptied : Truncating → Wal → Wal × Option StorageError
emptied unread w = (w, some io_failure)
emptied uncut w = (w, some io_failure)
emptied finished w = (with_content w [], none)
emptied _ w = (with_content w [], some io_failure)

truncate_open : Truncating → ℕ → Wal → Wal × Option StorageError
unfolding rewritten emptied trim_empty split join
truncate_open how n w =
    let lines = trim_empty (split w.file.content) in
    if leb (length lines) n then emptied how w else rewritten how (join (drop n lines) ++ 10 ∷ []) w

unfoldable pub truncate : Truncating → ℤ → Wal → Wal × Option StorageError
unfolding truncate_open
truncate how index w =
    if not w.is_open
    then (w, some closed)
    else if leb_ℤ index (pos 0)
    then (w, none)
    else truncate_open how (pos_part index) w

unfoldable pub size : Bool → Wal → Result ℤ
size stats w =
    if w.is_open
    then (if stats then success (pos (length w.file.content)) else failure io_failure)
    else failure closed

unfoldable pub file_id : Bool → Wal → Result ByteString
file_id stats w =
    if w.is_open
    then (if stats then success w.file.file_id else failure io_failure)
    else failure closed
