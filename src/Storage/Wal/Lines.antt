-- ===== src/Storage/Wal/Lines.antt =====
-- storage/wal.go: how the bytes of a journal fall into lines.
use wjetcd.Common.{
  ℕ, suc, ◌≡◌, refl, sym, ap, ◌∙◌, true, false, ◌==◌, ByteString, List, [], ◌∷◌, ◌++◌, Option, none,
  some, length, last, last-append, take, ++-assoc, append_empty, All,
}
use wjetcd.Storage.Wal.{last_newline, split, ends_open, decode_lines, decode_entries, add_entry}

-- A piece without a newline.
abbrev pub Plain : ByteString → Type 0
Plain s = All (λ b. (b == 10) ≡ false) s

-- Lines that each end in a newline.
abbrev pub frame : List ByteString → ByteString
frame [] = []
frame (line ∷ lines) = line ++ 10 ∷ frame lines

pub frame-append : (ls ms : List ByteString) → frame (ls ++ ms) ≡ frame ls ++ frame ms
frame-append [] ms = refl
frame-append (l ∷ ls) ms =
    ap (λ s. l ++ 10 ∷ s) (frame-append ls ms) ∙ sym (++-assoc l (10 ∷ frame ls) (frame ms))

-- What an append of a whole line makes of the file.
pub frame-add :
    (ls : List ByteString) (line : ByteString)
    → frame ls ++ (line ++ 10 ∷ []) ≡ frame (ls ++ line ∷ [])
frame-add ls line = sym (frame-append ls (line ∷ []))

pub frame-ends :
    (l : ByteString) (ls : List ByteString) → (s : ByteString) × (frame (l ∷ ls) ≡ s ++ 10 ∷ [])
frame-ends l [] = (l, refl)
frame-ends l (m ∷ ls) =
    let (s, e) = frame-ends m ls in
    (l ++ 10 ∷ s, ap (λ t. l ++ 10 ∷ t) e ∙ sym (++-assoc l (10 ∷ s) (10 ∷ [])))

last_newline-Plain : (s : ByteString) → Plain s → last_newline s ≡ none
unfolding last_newline
last_newline-Plain [] h = refl
last_newline-Plain (b ∷ s) h = rw (last_newline-Plain s h.1, h.0) refl

last_newline-append :
    (s tail : ByteString) → Plain tail → last_newline (s ++ 10 ∷ tail) ≡ some (length s)
unfolding last_newline
last_newline-append [] tail h = rw (last_newline-Plain tail h) refl
last_newline-append (b ∷ s) tail h = rw (last_newline-append s tail h) refl

take-frame : (s tail : ByteString) → take (suc (length s)) (s ++ 10 ∷ tail) ≡ s ++ 10 ∷ []
take-frame [] tail = refl
take-frame (b ∷ s) tail = ap (λ l. b ∷ l) (take-frame s tail)

split-line : (line s : ByteString) → Plain line → split (line ++ 10 ∷ s) ≡ line ∷ split s
unfolding split
split-line [] s h = refl
split-line (b ∷ line) s h = rw (split-line line s h.1, h.0) refl

split-Plain : (s : ByteString) → Plain s → split s ≡ s ∷ []
unfolding split
split-Plain [] h = refl
split-Plain (b ∷ s) h = rw (split-Plain s h.1, h.0) refl

pub split-frame :
    (ls : List ByteString) (tail : ByteString)
    → All Plain ls
    → Plain tail
    → split (frame ls ++ tail) ≡ ls ++ tail ∷ []
split-frame [] tail h p = split-Plain tail p
split-frame (l ∷ ls) tail h p =
    ap split (++-assoc l (10 ∷ frame ls) tail)
    ∙ split-line l (frame ls ++ tail) h.0
    ∙ ap (λ m. l ∷ m) (split-frame ls tail h.1 p)

ends_open-frame : (s : ByteString) → ends_open (s ++ 10 ∷ []) ≡ false
unfolding ends_open
ends_open-frame s = rw (ends_open, last-append s 10) refl

last-Plain :
    (b : ℕ) (s : ByteString)
    → Plain (b ∷ s)
    → (c : ℕ) × (last (b ∷ s) ≡ some c) × ((c == 10) ≡ false)
last-Plain b [] h = (b, refl, h.0)
last-Plain b (c ∷ s) h = last-Plain c s h.1

last-append_some : (s : ByteString) (b : ℕ) (t : ByteString) → last (s ++ b ∷ t) ≡ last (b ∷ t)
last-append_some [] b t = refl
last-append_some (a ∷ []) b t = refl
last-append_some (a ∷ c ∷ s) b t = last-append_some (c ∷ s) b t

ends_open-Plain :
    (s : ByteString) (b : ℕ) (t : ByteString) → Plain (b ∷ t) → ends_open (s ++ b ∷ t) ≡ true
unfolding ends_open
ends_open-Plain s b t h =
    let (c, e, f) = last-Plain b t h in rw (ends_open, last-append_some s b t, e, f) refl

module _ {ℓ} {B : Type ℓ} (unmarshal : ByteString → Option B) where
  -- An empty line is passed over.
  decode_lines-empty :
      (ls : List ByteString) → decode_lines unmarshal (ls ++ [] ∷ []) ≡ decode_lines unmarshal ls
  unfolding decode_lines
  decode_lines-empty [] = refl
  decode_lines-empty ([] ∷ ls) = decode_lines-empty ls
  decode_lines-empty ((b ∷ l) ∷ ls) =
      ap (add_entry unmarshal (unmarshal (b ∷ l))) (decode_lines-empty ls)

  whole :
      (ls : List ByteString)
      → All Plain ls
      → decode_lines unmarshal (split (frame ls)) ≡ decode_lines unmarshal ls
  whole ls h =
      ap (λ s. decode_lines unmarshal (split s)) (sym (append_empty (frame ls)))
      ∙ ap (decode_lines unmarshal) (split-frame ls [] h tt)
      ∙ decode_lines-empty ls

  -- Whole lines and what an interrupted append left behind them are read as the lines alone.
  pub decode_entries-frame :
      (ls : List ByteString) (tail : ByteString)
      → All Plain ls
      → Plain tail
      → decode_entries unmarshal (frame ls ++ tail) ≡ decode_lines unmarshal ls
  unfolding decode_entries
  decode_entries-frame [] [] h p = refl
  decode_entries-frame [] (b ∷ t) h p =
      rw (ends_open-Plain [] b t p, last_newline-Plain (b ∷ t) p, decode_lines) refl
  decode_entries-frame (l ∷ ls) [] h p =
      let (s, e) = frame-ends l ls in
      rw (append_empty (frame (l ∷ ls)), e, ends_open-frame s) (rw (sym e) (whole (l ∷ ls) h))
  decode_entries-frame (l ∷ ls) (b ∷ t) h p =
      let (s, e) = frame-ends l ls in
      let same : frame (l ∷ ls) ++ b ∷ t ≡ s ++ 10 ∷ b ∷ t =
        ap (λ r. r ++ b ∷ t) e ∙ ++-assoc s (10 ∷ []) (b ∷ t) in
      let found = ap last_newline same ∙ last_newline-append s (b ∷ t) p in
      let cut = ap (take (suc (length s))) same ∙ take-frame s (b ∷ t) in
      rw (ends_open-Plain (frame (l ∷ ls)) b t p, found, cut) (rw (sym e) (whole (l ∷ ls) h))
