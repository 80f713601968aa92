-- ===== src/Storage/Wal/Records.antt =====
-- storage/wal.go: the journal as a list of records.
use mathlib.Core.Path.{subst}
use wjetcd.Common.{
  ℕ, zero, suc, ◌-◌, ◌≤◌, ◌<◌, ◌≡◌, refl, sym, ap, ◌∙◌, arith, true, false, not, inl, inr, leb,
  Bool-cases, Option-cases, ByteString, List, [], ◌∷◌, ◌++◌, Option, none, some, length,
  last-append, take, drop, length-append, ++-assoc, append_empty, All, ℤ, pos, negsuc, pos_part,
  leb_ℤ, if◌then◌else◌,
}
use wjetcd.Storage.Wal.{
  Wal, with_content, closed, success, Appending, synced, unsynced, torn, write, write_entry,
  read_all, replaced, clear, Truncating, finished, truncate, trim_empty, truncate_open, join, split,
  decode_lines, add_entry, decode_entries, read_entries,
}
use wjetcd.Storage.Wal.Lines.{Plain, frame, frame-add, split-frame, decode_entries-frame}

-- What the code relies on of `json.Marshal` and `json.Unmarshal`: an encoding is not empty and has
-- no newline, and it decodes to the dynamic value of what was encoded.
pub record IsCodec {ℓ} {A B : Type ℓ} (marshal : A → Option ByteString)
    (unmarshal : ByteString → Option B) (view : A → B) : Type ℓ where
  pub decodes : (a : A) (line : ByteString) → marshal a ≡ some line → unmarshal line ≡ some (view a)
  pub plain : (a : A) (line : ByteString) → marshal a ≡ some line → Plain line
  pub filled : (a : A) (line : ByteString) → marshal a ≡ some line → (1 ≤ length line)

-- The bytes of an append that reach the file.
abbrev pub arriving : Appending → ByteString → ByteString
arriving synced s = s
arriving unsynced s = s
arriving (torn n) s = take n s

module _ {ℓ} {A : Type ℓ} where
  take-prefix : (xs ys : List A) → take (length xs) (xs ++ ys) ≡ xs
  take-prefix [] ys = refl
  take-prefix (x ∷ xs) ys = ap (λ l. x ∷ l) (take-prefix xs ys)

  drop-all : (n : ℕ) (xs : List A) → length xs ≤ n → drop n xs ≡ []
  drop-all zero [] h = refl
  drop-all zero (x ∷ xs) h = elim h [ ]
  drop-all (suc n) [] h = refl
  drop-all (suc n) (x ∷ xs) h = drop-all n xs (omega arith)

  drop-some : (n : ℕ) (xs : List A) → n < length xs → (x : A) × (ys : List A) × (drop n xs ≡ x ∷ ys)
  drop-some n [] h = elim h [ ]
  drop-some zero (x ∷ xs) h = (x, xs, refl)
  drop-some (suc n) (x ∷ xs) h = drop-some n xs (omega arith)

trim_empty-add : (ls : List ByteString) → trim_empty (ls ++ [] ∷ []) ≡ ls
unfolding trim_empty
trim_empty-add ls =
    let short : length (ls ++ [] ∷ []) - 1 ≡ length ls =
      omega (arith, length-append ls ([] ∷ [])) in
    rw (trim_empty, last-append ls [])
      (ap (λ n. take n (ls ++ [] ∷ [])) short ∙ take-prefix ls ([] ∷ []))

join-frame : (l : ByteString) (ls : List ByteString) → join (l ∷ ls) ++ 10 ∷ [] ≡ frame (l ∷ ls)
unfolding join
join-frame l [] = refl
join-frame l (m ∷ ls) =
    ++-assoc l (10 ∷ join (m ∷ ls)) (10 ∷ []) ∙ ap (λ s. l ++ 10 ∷ s) (join-frame m ls)

trimmed-frame : (ls : List ByteString) → All Plain ls → trim_empty (split (frame ls)) ≡ ls
trimmed-frame ls h =
    ap (λ s. trim_empty (split s)) (sym (append_empty (frame ls)))
    ∙ ap trim_empty (split-frame ls [] h tt)
    ∙ trim_empty-add ls

truncate_open-frame :
    (ls : List ByteString) (n : ℕ) (w : Wal)
    → All Plain ls
    → w.file.content ≡ frame ls
    → (truncate_open finished n w).0 ≡ with_content w (frame (drop n ls))
unfolding truncate_open
truncate_open-frame ls n w h e =
    let lines = ap (λ s. trim_empty (split s)) e ∙ trimmed-frame ls h in
    elim (Bool-cases (leb (length ls) n)) [
      | inl t ↦ rw (truncate_open, lines, t, drop-all n ls (ground (arith, t))) refl
      | inr f ↦
          let (l, rest, d) = drop-some n ls (ground (arith, f)) in
          rw (truncate_open, lines, f, d) (ap (with_content w) (join-frame l rest))
    ]

truncate-opened :
    (how : Truncating) (n : ℤ) (w : Wal)
    → w.is_open ≡ true
    → truncate how n w ≡ (if leb_ℤ n (pos 0) then (w, none) else truncate_open how (pos_part n) w)
unfolding truncate
truncate-opened how n w o =
    ap
      (λ b.
        if not b
        then (w, some closed)
        else if leb_ℤ n (pos 0)
        then (w, none)
        else truncate_open how (pos_part n) w)
      o

abbrev pub added {ℓ} : {B : Type ℓ} → Option ByteString → B → List B → List B
added none e es = es
added (some line) e es = es ++ e ∷ []

-- A change of the journal that meets no fault.
pub data Change {ℓ} (A : Type ℓ) : Type ℓ where
  appended : A → Change A
  shortened : ℤ → Change A
  emptied_to : ByteString → Change A

module _ {ℓ} {A B : Type ℓ} (marshal : A → Option ByteString) (unmarshal : ByteString → Option B)
    (view : A → B) where
  -- The lines hold the records.
  pub data Decodes : List ByteString → List B → Type ℓ where
    exhausted : Decodes [] []
    record_of :
        (l : ByteString) (ls : List ByteString) (e : B) (es : List B)
        → Plain l
        → 1 ≤ length l
        → unmarshal l ≡ some e
        → Decodes ls es
        → Decodes (l ∷ ls) (e ∷ es)

  -- An open journal whose file holds the records and nothing else.
  pub record Holds (es : List B) (w : Wal) : Type ℓ where
    pub lines : List ByteString
    pub holds : Decodes lines es
    pub whole : w.file.content ≡ frame lines
    pub opened : w.is_open ≡ true

  pub Decodes-Plain : (ls : List ByteString) (es : List B) → Decodes ls es → All Plain ls
  Decodes-Plain ls es exhausted = tt
  Decodes-Plain ls es (record_of l ls' e es' p f u d) = (p, Decodes-Plain ls' es' d)

  pub decode_lines-Decodes :
      (ls : List ByteString) (es : List B) → Decodes ls es → decode_lines unmarshal ls ≡ success es
  unfolding decode_lines add_entry
  decode_lines-Decodes ls es exhausted = refl
  decode_lines-Decodes ls es (record_of [] ls' e es' p f u d) = elim f [ ]
  decode_lines-Decodes ls es (record_of (b ∷ l) ls' e es' p f u d) =
      rw (u, decode_lines-Decodes ls' es' d) refl

  pub Decodes-append :
      (ls ms : List ByteString) (es fs : List B)
      → Decodes ls es
      → Decodes ms fs
      → Decodes (ls ++ ms) (es ++ fs)
  Decodes-append ls ms es fs exhausted k = k
  Decodes-append ls ms es fs (record_of l ls' e es' p f u d) k =
      record_of l (ls' ++ ms) e (es' ++ fs) p f u (Decodes-append ls' ms es' fs d k)

  pub Decodes-drop :
      (n : ℕ) (ls : List ByteString) (es : List B) → Decodes ls es → Decodes (drop n ls) (drop n es)
  Decodes-drop zero ls es d = d
  Decodes-drop (suc n) ls es exhausted = exhausted
  Decodes-drop (suc n) ls es (record_of l ls' e es' p f u d) = Decodes-drop n ls' es' d

  pub read_entries-Holds :
      (es : List B) (w : Wal) → Holds es w → read_entries unmarshal true w ≡ success es
  unfolding read_entries read_all
  read_entries-Holds es w h =
      rw (read_all, h.opened)
        (ap (decode_entries unmarshal) h.whole
          ∙ ap (decode_entries unmarshal) (sym (append_empty (frame h.lines)))
          ∙ decode_entries-frame unmarshal h.lines [] (Decodes-Plain h.lines es h.holds) tt
          ∙ decode_lines-Decodes h.lines es h.holds)

  -- What an open journal's file gains.
  pub write_entry-content :
      (how : Appending) (w : Wal) (a : A) (line : ByteString)
      → w.is_open ≡ true
      → marshal a ≡ some line
      → (write_entry marshal how a w).0
        ≡ with_content w (w.file.content ++ arriving how (line ++ 10 ∷ []))
  unfolding write_entry write
  write_entry-content synced w a line o m = rw (write_entry, m, write, o) refl
  write_entry-content unsynced w a line o m = rw (write_entry, m, write, o) refl
  write_entry-content (torn n) w a line o m = rw (write_entry, m, write, o) refl

  -- What a change makes of the list of records.
  abbrev pub changed_records : Change A → List B → List B
  changed_records (appended a) es = added (marshal a) (view a) es
  changed_records (shortened n) es = drop (pos_part n) es
  changed_records (emptied_to id) es = []

  abbrev pub changed_wal : Change A → Wal → Wal
  changed_wal (appended a) w = (write_entry marshal synced a w).0
  changed_wal (shortened n) w = (truncate finished n w).0
  changed_wal (emptied_to id) w = (clear (replaced id true) w).0

  abbrev pub records_after : List (Change A) → List B → List B
  records_after [] es = es
  records_after (c ∷ cs) es = records_after cs (changed_records c es)

  abbrev pub wal_after : List (Change A) → Wal → Wal
  wal_after [] w = w
  wal_after (c ∷ cs) w = wal_after cs (changed_wal c w)

  module _ (codec : IsCodec marshal unmarshal view) where
    pub record-Decodes :
        (a : A) (line : ByteString) → marshal a ≡ some line → Decodes (line ∷ []) (view a ∷ [])
    record-Decodes a line m =
        record_of line [] (view a) [] (codec.plain a line m) (codec.filled a line m)
          (codec.decodes a line m) exhausted

    pub write_entry-Holds :
        (es : List B) (w : Wal) (a : A) (line : ByteString)
        → Holds es w
        → marshal a ≡ some line
        → Holds (es ++ view a ∷ []) (write_entry marshal synced a w).0
    write_entry-Holds es w a line h m =
        subst (Holds (es ++ view a ∷ [])) (sym (write_entry-content synced w a line h.opened m))
          (record {
            lines = h.lines ++ line ∷ [];
            holds =
                Decodes-append h.lines (line ∷ []) es (view a ∷ []) h.holds
                  (record-Decodes a line m);
            whole = ap (λ c. c ++ (line ++ 10 ∷ [])) h.whole ∙ frame-add h.lines line;
            opened = h.opened;
          })

    truncate-Holds :
        (n : ℤ) (es : List B) (w : Wal)
        → Holds es w
        → Holds (drop (pos_part n) es) (truncate finished n w).0
    truncate-Holds (negsuc k) es w h =
        let low : leb_ℤ (negsuc k) (pos 0) ≡ true = ground arith in
        subst (Holds es)
          (sym (ap (λ r. r.0) (rw low at (truncate-opened finished (negsuc k) w h.opened)))) h
    truncate-Holds (pos zero) es w h =
        subst (Holds es) (sym (ap (λ r. r.0) (truncate-opened finished (pos 0) w h.opened))) h
    truncate-Holds (pos (suc k)) es w h =
        let high : leb_ℤ (pos (suc k)) (pos 0) ≡ false = ground arith in
        let cut =
          truncate_open-frame h.lines (suc k) w (Decodes-Plain h.lines es h.holds) h.whole in
        subst (Holds (drop (suc k) es))
          (sym
            (ap (λ r. r.0) (rw high at (truncate-opened finished (pos (suc k)) w h.opened)) ∙ cut))
          (record {
            lines = drop (suc k) h.lines;
            holds = Decodes-drop (suc k) h.lines es h.holds;
            whole = refl;
            opened = h.opened;
          })

    changed-Holds :
        (c : Change A) (es : List B) (w : Wal)
        → Holds es w
        → Holds (changed_records c es) (changed_wal c w)
    unfolding clear write_entry
    changed-Holds (appended a) es w h = elim (Option-cases (marshal a)) [
      | inl e ↦
          subst (λ o. Holds (added o (view a) es) (write_entry marshal synced a w).0) (sym e)
            (rw (write_entry, e) h)
      | inr (line, e) ↦
          subst (λ o. Holds (added o (view a) es) (write_entry marshal synced a w).0) (sym e)
            (write_entry-Holds es w a line h e)
    ]
    changed-Holds (shortened n) es w h = truncate-Holds n es w h
    changed-Holds (emptied_to id) es w h =
        rw (clear, h.opened) (record { lines = []; holds = exhausted; whole = refl; opened = refl })

    wal_after-Holds :
        (cs : List (Change A)) (es : List B) (w : Wal)
        → Holds es w
        → Holds (records_after cs es) (wal_after cs w)
    wal_after-Holds [] es w h = h
    wal_after-Holds (c ∷ cs) es w h =
        wal_after-Holds cs (changed_records c es) (changed_wal c w) (changed-Holds c es w h)

    -- Appends, truncations and clears that meet no fault, in any order and number, and then a read,
    -- give what the same changes make of the list of records: an append adds the record at the end,
    -- unless it has no encoding, a truncation drops the first records, and a clear drops all.
    pub journal_refines :
        (cs : List (Change A)) (es : List B) (w : Wal)
        → Holds es w
        → read_entries unmarshal true (wal_after cs w) ≡ success (records_after cs es)
    journal_refines cs es w h =
        read_entries-Holds (records_after cs es) (wal_after cs w) (wal_after-Holds cs es w h)
