-- ===== src/Examples/Disk.antt =====
-- Runs of the files of storage/wal.go, with a codec that writes numbers in unary.
use mathlib.Core.Path.{subst}
use wjetcd.Common.{
  ℕ, zero, suc, ◌+◌, ◌≤◌, ◌≡◌, refl, ap, ◌∙◌, arith, true, if◌then◌else◌, ◌==◌, ByteString, bytes,
  List, [], ◌∷◌, Option, some, none, length, pos, pos_part,
}
use wjetcd.Command.{Command, zero_command, cmd_put}
use wjetcd.Storage.Wal.{
  Wal, success, failure, malformed, torn, synced, write_entry, read_entries, read_entries_from,
  new_wal,
}
use wjetcd.Storage.Wal.Lines.{Plain}
use wjetcd.Storage.Wal.Records.{
  IsCodec, Holds, exhausted, appended, shortened, wal_after, journal_refines,
}
use wjetcd.Storage.Wal.Remains.{append_all}
use wjetcd.Storage.Wal.Torn.{append_survives, append_after_tear}
use wjetcd.Server.Decode.{Payload, command}

-- A number is as many ones and a comma, and a list the concatenation of its numbers.
abbrev unary : ℕ → ByteString → ByteString
unary zero s = 44 ∷ s
unary (suc n) s = 49 ∷ unary n s

abbrev numbers : List ℕ → ByteString
numbers [] = []
numbers (n ∷ rest) = unary n (numbers rest)

abbrev add_number : ℕ → Option (List ℕ) → Option (List ℕ)
add_number n none = none
add_number n (some rest) = some (n ∷ rest)

abbrev read_numbers : ℕ → ByteString → Option (List ℕ)
read_numbers n [] = if n == 0 then some [] else none
read_numbers n (b ∷ s) =
    let more = read_numbers (suc n) s in
    let next = add_number n (read_numbers 0 s) in
    if b == 49 then more else if b == 44 then next else none

read_numbers-unary :
    (n m : ℕ) (s : ByteString) → read_numbers m (unary n s) ≡ add_number (n + m) (read_numbers 0 s)
read_numbers-unary zero m s = ap (λ k. add_number k (read_numbers 0 s)) (omega arith)
read_numbers-unary (suc n) m s =
    read_numbers-unary n (suc m) s ∙ ap (λ k. add_number k (read_numbers 0 s)) (omega arith)

read_numbers-numbers : (l : List ℕ) → read_numbers 0 (numbers l) ≡ some l
read_numbers-numbers [] = refl
read_numbers-numbers (n ∷ rest) =
    read_numbers-unary n 0 (numbers rest)
    ∙ ap (add_number (n + 0)) (read_numbers-numbers rest)
    ∙ ap (λ k. some (k ∷ rest)) (omega arith)

Plain-unary : (n : ℕ) (s : ByteString) → Plain s → Plain (unary n s)
Plain-unary zero s p = (refl, p)
Plain-unary (suc n) s p = (refl, Plain-unary n s p)

Plain-numbers : (l : List ℕ) → Plain (numbers l)
Plain-numbers [] = tt
Plain-numbers (n ∷ rest) = Plain-unary n (numbers rest) (Plain-numbers rest)

-- A record is a quote and the revision and the key of a put.
abbrev pub put_at : ℕ → ByteString → Command
put_at rev key = record zero_command { type = cmd_put; key = key; revision = pos rev }

abbrev put_of : Option (List ℕ) → Option Payload
put_of none = none
put_of (some []) = none
put_of (some (rev ∷ key)) = some (command (put_at rev key))

abbrev pub encode_put : Command → Option ByteString
encode_put cmd = some (34 ∷ numbers (pos_part cmd.revision ∷ cmd.key))

abbrev pub decode_put : ByteString → Option Payload
decode_put [] = none
decode_put (b ∷ s) = let found = put_of (read_numbers 0 s) in if b == 34 then found else none

abbrev pub view_put : Command → Payload
view_put cmd = command (put_at (pos_part cmd.revision) cmd.key)

pub some-injective {ℓ} : {A : Type ℓ} {a b : A} → some a ≡ some b → a ≡ b
some-injective e = cc

pub put-IsCodec : IsCodec encode_put decode_put view_put
put-IsCodec = record {
  decodes = λ cmd line e.
      subst (λ s. decode_put s ≡ some (view_put cmd)) (some-injective e)
        (ap put_of (read_numbers-numbers (pos_part cmd.revision ∷ cmd.key)));
  plain = λ cmd line e.
      subst Plain (some-injective e) (refl, Plain-numbers (pos_part cmd.revision ∷ cmd.key));
  filled = λ cmd line e. subst (λ s. 1 ≤ length s) (some-injective e) (omega arith);
}

abbrev pub empty_wal : Wal
empty_wal = record { file = record { content = []; file_id = bytes "8:1" }; is_open = true }

pub empty_wal-Holds : Holds encode_put decode_put view_put [] empty_wal
empty_wal-Holds = record { lines = []; holds = exhausted; whole = refl; opened = refl }

abbrev first_put : Command
first_put = put_at 1 (1 ∷ [])

abbrev second_put : Command
second_put = put_at 2 (1 ∷ [])

abbrev third_put : Command
third_put = put_at 3 []

-- Two records are written, and three bytes of a third.
append_survives_example :
    let w' =
      (write_entry encode_put
        (torn 3)
        third_put
        (append_all encode_put (first_put ∷ second_put ∷ []) empty_wal)).0 in
    (read_entries decode_put true w' ≡ success (command first_put ∷ command second_put ∷ []))
    × (read_entries_from decode_put true (pos 0) w'
        ≡ success (command first_put ∷ command second_put ∷ []))
append_survives_example =
    append_survives encode_put decode_put view_put put-IsCodec [] empty_wal
      (first_put ∷ second_put ∷ []) (torn 3) third_put _ empty_wal-Holds refl

-- Three bytes are left of a record when the next one is written.
append_after_tear_example :
    let torn_wal = (write_entry encode_put (torn 3) first_put empty_wal).0 in
    let (later, error) = write_entry encode_put synced second_put torn_wal in
    (read_entries decode_put true torn_wal ≡ success [])
    × (new_wal true true torn_wal.file ≡ success torn_wal)
    × (error ≡ none)
    × (read_entries decode_put true later ≡ failure malformed)
append_after_tear_example =
    append_after_tear encode_put decode_put view_put put-IsCodec [] empty_wal 3 first_put second_put
      _ _ empty_wal-Holds refl refl (omega arith) refl

-- Two records, of which the first is dropped, a third, and a clear before the last.
journal_refines_example :
    read_entries decode_put true (
      wal_after encode_put decode_put view_put
        (appended first_put ∷ appended second_put ∷ shortened (pos 1) ∷ appended third_put ∷ [])
        empty_wal)
    ≡ success (command second_put ∷ command third_put ∷ [])
journal_refines_example =
    journal_refines encode_put decode_put view_put put-IsCodec
      (appended first_put ∷ appended second_put ∷ shortened (pos 1) ∷ appended third_put ∷ []) []
      empty_wal empty_wal-Holds
