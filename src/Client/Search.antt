-- ===== src/Client/Search.antt =====
-- `strings.Index` in a text, as cmd/client/client.go uses it on a response.
use wjetcd.Common.{
  ℕ, ◌≡◌, refl, ap, ◌∙◌, false, ◌==◌, some, [], ◌∷◌, ◌++◌, length, take, All, ByteString, bytes,
  has_prefix,
}
use wjetcd.Client.{◌>>=◌, index_of, field_of}

-- No byte of the text is a quotation mark.
abbrev pub IsUnquoted : ByteString → Type 0
IsUnquoted v = All (λ (b : ℕ). (b == 34) ≡ false) v

index_of-quote :
    (v rest : ByteString) → IsUnquoted v → index_of (bytes "\"") (v ++ 34 ∷ rest) ≡ some (length v)
unfolding index_of has_prefix
index_of-quote [] rest p = refl
index_of-quote (b ∷ v) rest p = rw (p.0, index_of-quote v rest p.1) refl

take-prefix : (xs ys : ByteString) → take (length xs) (xs ++ ys) ≡ xs
take-prefix [] ys = refl
take-prefix (x ∷ xs) ys = ap (λ l. x ∷ l) (take-prefix xs ys)

-- The value of a response to a read is found.
pub field_of-value :
    (v : ByteString)
    → IsUnquoted v
    → field_of (bytes "\"value\":\"") 9 (bytes "{\"ok\":true,\"value\":\"" ++ (v ++ bytes "\"}"))
      ≡ some v
unfolding field_of index_of has_prefix
field_of-value v p =
    ap (λ o. o >>= (λ quote. some (take quote (v ++ bytes "\"}")))) (index_of-quote v (bytes "}") p)
    ∙ ap some (take-prefix v (bytes "\"}"))
