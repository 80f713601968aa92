-- ===== src/Common/Bytes.antt =====
-- Go strings as sequences of bytes: equality, the prefix test, and the order of `sort.Strings`.
use Prim.Native.Nat.{ℕ}
use Prim.Native.Char.{code}
use Prim.Native.String.{String}
use mathlib.Core.Path.{◌≡◌, refl}
use mathlib.Core.Logic.{◌↔◌}
use mathlib.Core.Bool.{Bool, true, false, ◌&&◌}
use mathlib.Core.List.{List, [], ◌∷◌}
use native.Mathlib.Omega.{arith}
use wjetcd.Common.Tests.{ltb, ◌==◌, if◌then◌else◌, Eq}

abbrev pub ByteString : Type 0
ByteString = List ℕ

-- The bytes of an ASCII literal.
abbrev pub bytes : String → ByteString
bytes String.[] = []
bytes (String.◌∷◌ c s) = code c ∷ bytes s

unfoldable pub bytes_eq : ByteString → ByteString → Bool
bytes_eq [] [] = true
bytes_eq [] (b ∷ t) = false
bytes_eq (a ∷ s) [] = false
bytes_eq (a ∷ s) (b ∷ t) = a == b && bytes_eq s t

pub bytes_eq_iff : (s t : ByteString) → (bytes_eq s t ≡ true) ↔ (s ≡ t)
unfolding bytes_eq
bytes_eq_iff [] [] = ground arith
bytes_eq_iff [] (b ∷ t) = ground arith
bytes_eq_iff (a ∷ s) [] = ground arith
bytes_eq_iff (a ∷ s) (b ∷ t) = ground (arith, bytes_eq_iff s t)

pub bytes_eq_refl : (s : ByteString) → bytes_eq s s ≡ true
bytes_eq_refl s = (bytes_eq_iff s s).1 refl

instance abbrev pub bytes_key : Eq ByteString
bytes_key = record { beq = bytes_eq; beq_iff = bytes_eq_iff }

-- `len(p) == 0 || len(s) >= len(p) && s[:len(p)] == p`.
unfoldable pub has_prefix : ByteString → ByteString → Bool
has_prefix [] s = true
has_prefix (a ∷ p) [] = false
has_prefix (a ∷ p) (b ∷ s) = b == a && has_prefix p s

-- `s <= t` in the byte order.
unfoldable pub bytes_le : ByteString → ByteString → Bool
bytes_le [] t = true
bytes_le (a ∷ s) [] = false
bytes_le (a ∷ s) (b ∷ t) = if ltb a b then true else if a == b then bytes_le s t else false

-- `sort.Strings`.
unfoldable pub insert_sorted : ByteString → List ByteString → List ByteString
insert_sorted s [] = s ∷ []
insert_sorted s (t ∷ l) = if bytes_le s t then s ∷ t ∷ l else t ∷ insert_sorted s l

unfoldable pub sort_strings : List ByteString → List ByteString
unfolding insert_sorted
sort_strings [] = []
sort_strings (s ∷ l) = insert_sorted s (sort_strings l)
