-- ===== src/Storage/Wal/Remains.antt =====
-- What the file of the journal of storage/wal.go holds past an offset, after appends of which the
-- last may have been interrupted, and that a read finds it.
use mathlib.Core.Path.{subst}
use wjetcd.Common.{
  ℕ, zero, suc, ◌-◌, ◌≤◌, ◌<◌, ◌≡◌, refl, sym, ap, ◌∙◌, arith, Bool, true, false, inl, inr, ◌⊎◌,
  ◌||◌, ltb, Bool-cases, Option-cases, ByteString, List, [], ◌∷◌, ◌++◌, Option, some, length, take,
  drop, get_elem?, length-append, ++-assoc, append_empty, pos, ltb_ℤ, if◌then◌else◌,
}
use wjetcd.Storage.Wal.{
  Wal, with_content, success, Appending, synced, unsynced, torn, write_entry, read_all, new_wal,
  decode_entries, read_entries, at_boundary, decode_from, read_entries_from,
}
use wjetcd.Storage.Wal.Lines.{Plain, frame, frame-ends, frame-add, decode_entries-frame}
use wjetcd.Storage.Wal.Records.{
  IsCodec, arriving, Decodes, exhausted, Holds, Decodes-Plain, Decodes-append, decode_lines-Decodes,
  write_entry-content, record-Decodes, added,
}

module _ {ℓ} {A : Type ℓ} where
  drop-prefix : (xs ys : List A) → drop (length xs) (xs ++ ys) ≡ ys
  drop-prefix [] ys = refl
  drop-prefix (x ∷ xs) ys = drop-prefix xs ys

  get_elem?-end :
      (xs : List A) (y : A) (ys : List A) → get_elem? (xs ++ y ∷ ys) (length xs) ≡ some y
  get_elem?-end [] y ys = refl
  get_elem?-end (x ∷ xs) y ys = get_elem?-end xs y ys

-- The end of a line is a boundary.
at_boundary-end : (s t : ByteString) → at_boundary (suc (length s)) (s ++ 10 ∷ t) ≡ true
unfolding at_boundary
at_boundary-end s t =
    let same : suc (length s) - 1 ≡ length s = omega arith in
    rw (at_boundary, same, get_elem?-end s 10 t) (ground arith)

at_boundary-frame :
    (ls : List ByteString) (t : ByteString) → at_boundary (length (frame ls)) (frame ls ++ t) ≡ true
unfolding at_boundary
at_boundary-frame [] t = refl
at_boundary-frame (l ∷ ls) t =
    let (s, e) = frame-ends l ls in
    let n : length (s ++ 10 ∷ []) ≡ suc (length s) = omega (arith, length-append s (10 ∷ [])) in
    rw e (
      rw n (
        subst (λ r. at_boundary (suc (length s)) r ≡ true) (sym (++-assoc s (10 ∷ []) t))
          (at_boundary-end s t)))

pub new_wal-opened : (w : Wal) → w.is_open ≡ true → new_wal true true w.file ≡ success w
unfolding new_wal
new_wal-opened w o = ap (λ b. success (record { file = w.file; is_open = b })) (sym o)

-- The whole record reaches the file.
abbrev pub arrives : Appending → ByteString → Bool
arrives synced line = true
arrives unsynced line = true
arrives (torn n) line = ltb (length line) n

-- Appends that meet no fault.
abbrev pub append_all {ℓ} : {A : Type ℓ} → (A → Option ByteString) → List A → Wal → Wal
append_all marshal [] w = w
append_all marshal (a ∷ rest) w = append_all marshal rest (write_entry marshal synced a w).0

abbrev pub recorded {ℓ} :
    {A B : Type ℓ} → (A → Option ByteString) → (A → B) → List A → List B → List B
recorded marshal view [] es = es
recorded marshal view (a ∷ rest) es = recorded marshal view rest (added (marshal a) (view a) es)

-- One more append, which may be interrupted.
abbrev pub finally {ℓ} : {B : Type ℓ} → Appending → ByteString → B → List B → List B
finally how line e es = if arrives how line then es ++ e ∷ [] else es

pub Plain-take : (n : ℕ) (s : ByteString) → Plain s → Plain (take n s)
Plain-take zero s p = tt
Plain-take (suc n) [] p = tt
Plain-take (suc n) (b ∷ s) p = (p.0, Plain-take n s p.1)

pub take-short : (n : ℕ) (s t : ByteString) → n ≤ length s → take n (s ++ t) ≡ take n s
take-short zero s t h = refl
take-short (suc n) [] t h = elim h [ ]
take-short (suc n) (b ∷ s) t h = ap (λ l. b ∷ l) (take-short n s t (omega arith))

take-long : (n : ℕ) (s : ByteString) → length s < n → take n (s ++ 10 ∷ []) ≡ s ++ 10 ∷ []
take-long zero s h = elim h [ ]
take-long (suc zero) [] h = refl
take-long (suc (suc n)) [] h = refl
take-long (suc n) (b ∷ s) h = ap (λ l. b ∷ l) (take-long n s (omega arith))

arriving-cases :
    (how : Appending) (line : ByteString)
    → Plain line
    → (arrives how line ≡ true) × (arriving how (line ++ 10 ∷ []) ≡ line ++ 10 ∷ [])
      ⊎ (arrives how line ≡ false) × Plain (arriving how (line ++ 10 ∷ []))
arriving-cases synced line p = inl (refl, refl)
arriving-cases unsynced line p = inl (refl, refl)
arriving-cases (torn n) line p = elim (Bool-cases (ltb (length line) n)) [
  | inl t ↦ inl (t, take-long n line (ground (arith, t)))
  | inr f ↦
      inr (
        f,
        subst Plain (sym (take-short n line (10 ∷ []) (ground (arith, f)))) (Plain-take n line p),
      )
]

module _ {ℓ} {A B : Type ℓ} (marshal : A → Option ByteString) (unmarshal : ByteString → Option B)
    (view : A → B) where
  -- The records of an open journal past an offset: whole lines, and after them at most what an
  -- interrupted append left behind.
  pub record Remains (offset : ℕ) (es : List B) (w : Wal) : Type ℓ where
    pub before : List ByteString
    pub lines : List ByteString
    pub rest : ByteString
    pub holds : Decodes marshal unmarshal view lines es
    pub plain : Plain rest
    pub place : offset ≡ length (frame before)
    pub whole : w.file.content ≡ frame before ++ (frame lines ++ rest)
    pub opened : w.is_open ≡ true

  decode_from-frame :
      (before : List ByteString) (s : ByteString)
      → decode_from unmarshal (pos (length (frame before))) (frame before ++ s)
        ≡ decode_entries unmarshal s
  unfolding decode_from
  decode_from-frame before s =
      let inside : (ltb_ℤ (pos (length (frame before))) (pos 0)
            || ltb_ℤ (pos (length (frame before ++ s))) (pos (length (frame before))))
          ≡ false =
        ground (arith, length-append (frame before) s) in
      rw (decode_from, inside, at_boundary-frame before s, drop-prefix (frame before) s) refl

  pub read_entries_from-Remains :
      (offset : ℕ) (es : List B) (w : Wal)
      → Remains offset es w
      → read_entries_from unmarshal true (pos offset) w ≡ success es
  unfolding read_entries_from read_all
  read_entries_from-Remains offset es w r =
      rw (read_all, r.opened)
        (ap (decode_from unmarshal (pos offset)) r.whole
          ∙ ap (λ n. decode_from unmarshal (pos n) (frame r.before ++ (frame r.lines ++ r.rest)))
              r.place
          ∙ decode_from-frame r.before (frame r.lines ++ r.rest)
          ∙ decode_entries-frame unmarshal r.lines r.rest
              (Decodes-Plain marshal unmarshal view r.lines es r.holds) r.plain
          ∙ decode_lines-Decodes marshal unmarshal view r.lines es r.holds)

  pub read_entries-opened :
      (w : Wal)
      → w.is_open ≡ true
      → read_entries unmarshal true w ≡ decode_entries unmarshal w.file.content
  unfolding read_entries read_all
  read_entries-opened w o = rw (read_all, o) refl

  pub from_start :
      (w : Wal) → read_entries unmarshal true w ≡ read_entries_from unmarshal true (pos 0) w
  unfolding read_entries read_entries_from read_all decode_from at_boundary
  from_start w = ground arith

  -- The same, without anything after the lines.
  pub record Clean (offset : ℕ) (es : List B) (w : Wal) : Type ℓ where
    pub before : List ByteString
    pub lines : List ByteString
    pub holds : Decodes marshal unmarshal view lines es
    pub place : offset ≡ length (frame before)
    pub whole : w.file.content ≡ frame before ++ frame lines
    pub opened : w.is_open ≡ true

  pub Clean-start : (es : List B) (w : Wal) → Holds marshal unmarshal view es w → Clean 0 es w
  Clean-start es w h = record {
    before = [];
    lines = h.lines;
    holds = h.holds;
    place = refl;
    whole = h.whole;
    opened = h.opened;
  }

  pub Clean-end :
      (es : List B) (w : Wal)
      → Holds marshal unmarshal view es w
      → Clean (length w.file.content) [] w
  Clean-end es w h = record {
    before = h.lines;
    lines = [];
    holds = exhausted;
    place = ap length h.whole;
    whole = h.whole ∙ sym (append_empty (frame h.lines));
    opened = h.opened;
  }

  pub Clean-Remains : (offset : ℕ) (es : List B) (w : Wal) → Clean offset es w → Remains offset es w
  Clean-Remains offset es w c = record {
    before = c.before;
    lines = c.lines;
    rest = [];
    holds = c.holds;
    plain = tt;
    place = c.place;
    whole = c.whole ∙ ap (λ s. frame c.before ++ s) (sym (append_empty (frame c.lines)));
    opened = c.opened;
  }

  -- What an interrupted append leaves behind.
  Clean-torn :
      (offset : ℕ) (es : List B) (w : Wal) (s : ByteString)
      → Clean offset es w
      → Plain s
      → Remains offset es (with_content w (w.file.content ++ s))
  Clean-torn offset es w s c p = record {
    before = c.before;
    lines = c.lines;
    rest = s;
    holds = c.holds;
    plain = p;
    place = c.place;
    whole = ap (λ t. t ++ s) c.whole ∙ ++-assoc (frame c.before) (frame c.lines) s;
    opened = c.opened;
  }

  module _ (codec : IsCodec marshal unmarshal view) where
    Clean-whole :
        (offset : ℕ) (es : List B) (w : Wal) (a : A) (line : ByteString)
        → Clean offset es w
        → marshal a ≡ some line
        → Clean offset (es ++ view a ∷ []) (with_content w (w.file.content ++ (line ++ 10 ∷ [])))
    Clean-whole offset es w a line c m = record {
      before = c.before;
      lines = c.lines ++ line ∷ [];
      holds =
          Decodes-append marshal unmarshal view c.lines (line ∷ []) es (view a ∷ []) c.holds
            (record-Decodes marshal unmarshal view codec a line m);
      place = c.place;
      whole =
          ap (λ t. t ++ (line ++ 10 ∷ [])) c.whole
          ∙ ++-assoc (frame c.before) (frame c.lines) (line ++ 10 ∷ [])
          ∙ ap (λ t. frame c.before ++ t) (frame-add c.lines line);
      opened = c.opened;
    }

    pub append_all-Clean :
        (offset : ℕ) (entries : List A) (es : List B) (w : Wal)
        → Clean offset es w
        → Clean offset (recorded marshal view entries es) (append_all marshal entries w)
    unfolding write_entry
    append_all-Clean offset [] es w c = c
    append_all-Clean offset (a ∷ rest) es w c =
        append_all-Clean offset rest (added (marshal a) (view a) es)
          (write_entry marshal synced a w).0
          (elim (Option-cases (marshal a)) [
            | inl e ↦
                subst (λ o. Clean offset (added o (view a) es) (write_entry marshal synced a w).0)
                  (sym e) (rw (write_entry, e) c)
            | inr (line, e) ↦
                subst (λ o. Clean offset (added o (view a) es) (write_entry marshal synced a w).0)
                  (sym e)
                  (subst (Clean offset (es ++ view a ∷ []))
                    (sym (write_entry-content marshal unmarshal view synced w a line c.opened e))
                    (Clean-whole offset es w a line c e))
          ])

    pub last-Remains :
        (offset : ℕ) (es : List B) (w : Wal) (how : Appending) (a : A) (line : ByteString)
        → Clean offset es w
        → marshal a ≡ some line
        → Remains offset (finally how line (view a) es) (write_entry marshal how a w).0
    last-Remains offset es w how a line c m =
        subst (Remains offset (finally how line (view a) es))
          (sym (write_entry-content marshal unmarshal view how w a line c.opened m))
          (elim (arriving-cases how line (codec.plain a line m)) [
            | inl (t, e) ↦
                rw (t, e)
                  (Clean-Remains offset (es ++ view a ∷ [])
                    (with_content w (w.file.content ++ (line ++ 10 ∷ [])))
                    (Clean-whole offset es w a line c m))
            | inr (f, p) ↦ rw f (Clean-torn offset es w (arriving how (line ++ 10 ∷ [])) c p)
          ])
