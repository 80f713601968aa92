-- ===== src/Storage/Wal/Torn.antt =====
-- storage/wal.go: an append that a crash or a fault interrupts, and what is read after it.
use mathlib.Core.Path.{subst}
use wjetcd.Common.{
  ℕ, ◌≤◌, ◌≡◌, refl, sym, ap, ◌∙◌, arith, true, false, ◌==◌, ByteString, List, [], ◌∷◌, ◌++◌,
  Option, none, some, length, take, length-append, ++-assoc, append_empty, All-append, pos,
  if◌then◌else◌,
}
use wjetcd.Storage.Wal.{
  Wal, with_content, malformed, success, failure, Appending, synced, torn, write, write_entry,
  new_wal, decode_lines, add_entry, decode_entries, read_entries, read_entries_from,
}
use wjetcd.Storage.Wal.Lines.{Plain, frame, frame-add, decode_entries-frame}
use wjetcd.Storage.Wal.Records.{
  IsCodec, Decodes, exhausted, record_of, Holds, Decodes-Plain, write_entry-content,
}
use wjetcd.Storage.Wal.Remains.{
  new_wal-opened, arrives, append_all, recorded, finally, Plain-take, take-short, Remains,
  read_entries_from-Remains, read_entries-opened, from_start, Clean-start, Clean-end,
  append_all-Clean, last-Remains,
}

module _ {ℓ} {A B : Type ℓ} (marshal : A → Option ByteString) (unmarshal : ByteString → Option B)
    (view : A → B) (codec : IsCodec marshal unmarshal view) where
  -- After any number of appends to an open journal of whole records, and one more that a fault or
  -- a crash may interrupt after any number of bytes, a read gives the records that were there and
  -- those appended, with the last one just where all of its bytes and the newline reached the
  -- file. A read from the size that the file had before gives the appended ones alone.
  pub append_survives :
      (es : List B) (w : Wal) (entries : List A) (how : Appending) (a : A) (line : ByteString)
      → Holds marshal unmarshal view es w
      → marshal a ≡ some line
      → let w' = (write_entry marshal how a (append_all marshal entries w)).0 in
        (read_entries unmarshal true w'
          ≡ success (finally how line (view a) (recorded marshal view entries es)))
        × (read_entries_from unmarshal true (pos (length w.file.content)) w'
            ≡ success (finally how line (view a) (recorded marshal view entries [])))
  append_survives es w entries how a line h m =
      let w1 = append_all marshal entries w in
      let w' = (write_entry marshal how a w1).0 in
      let all =
        append_all-Clean marshal unmarshal view codec 0 entries es w
          (Clean-start marshal unmarshal view es w h) in
      let mark = length w.file.content in
      let new =
        append_all-Clean marshal unmarshal view codec mark entries [] w
          (Clean-end marshal unmarshal view es w h) in
      (
        from_start marshal unmarshal view w'
            ∙ read_entries_from-Remains marshal unmarshal view 0
                (finally how line (view a) (recorded marshal view entries es)) w'
                (last-Remains marshal unmarshal view codec 0 (recorded marshal view entries es) w1
                  how a line all m),
        read_entries_from-Remains marshal unmarshal view mark
            (finally how line (view a) (recorded marshal view entries [])) w'
            (last-Remains marshal unmarshal view codec mark (recorded marshal view entries []) w1
              how a line new m),
      )

  decode_lines-bad :
      (ls : List ByteString) (es : List B) (bad : ByteString)
      → Decodes marshal unmarshal view ls es
      → 1 ≤ length bad
      → unmarshal bad ≡ none
      → decode_lines unmarshal (ls ++ bad ∷ []) ≡ failure malformed
  unfolding decode_lines add_entry
  decode_lines-bad ls es [] d f u = elim f [ ]
  decode_lines-bad ls es (b ∷ bad) exhausted f u = rw u refl
  decode_lines-bad ls es bad (record_of [] ls' e es' p g v d) f u = elim g [ ]
  decode_lines-bad ls es bad (record_of (c ∷ l) ls' e es' p g v d) f u =
      rw (v, decode_lines-bad ls' es' bad d f u) refl

  written_later :
      (b : A) (next : ByteString) (w : Wal)
      → w.is_open ≡ true
      → marshal b ≡ some next
      → (write_entry marshal synced b w).1 ≡ none
  unfolding write_entry write
  written_later b next w o m = rw (write_entry, m, write, o) refl

  glued_unreadable :
      (es : List B) (b : A) (next : ByteString) (ls : List ByteString) (left : ByteString) (w : Wal)
      → Decodes marshal unmarshal view ls es
      → w.is_open ≡ true
      → w.file.content ≡ frame ls ++ left
      → marshal b ≡ some next
      → Plain left
      → unmarshal (left ++ next) ≡ none
      → read_entries unmarshal true (write_entry marshal synced b w).0 ≡ failure malformed
  glued_unreadable es b next ls left w d o c m p bad =
      let later = with_content w (w.file.content ++ (next ++ 10 ∷ [])) in
      let glued = left ++ next in
      let plain = All-append (λ x. (x == 10) ≡ false) left next p (codec.plain b next m) in
      let filled : 1 ≤ length glued =
        omega (arith, length-append left next, codec.filled b next m) in
      let content : later.file.content ≡ frame (ls ++ glued ∷ []) =
        ap (λ s. s ++ (next ++ 10 ∷ [])) c
        ∙ ++-assoc (frame ls) left (next ++ 10 ∷ [])
        ∙ ap (λ s. frame ls ++ s) (sym (++-assoc left next (10 ∷ [])))
        ∙ frame-add ls glued in
      let lines_plain =
        All-append Plain ls (glued ∷ []) (Decodes-Plain marshal unmarshal view ls es d)
          (plain, tt) in
      ap (λ v. read_entries unmarshal true v)
        (write_entry-content marshal unmarshal view synced w b next o m)
      ∙ read_entries-opened marshal unmarshal view later o
      ∙ ap (decode_entries unmarshal) (content ∙ sym (append_empty (frame (ls ++ glued ∷ []))))
      ∙ decode_entries-frame unmarshal (ls ++ glued ∷ []) [] lines_plain tt
      ∙ decode_lines-bad ls es glued d filled bad

  -- An append is interrupted inside its line, and the file is opened again. All the earlier
  -- records are read. The next append then reports success, but its record is glued to what the
  -- interrupted one left behind, and where that line does not decode, no record can be read any
  -- more.
  pub append_after_tear :
      (es : List B) (w : Wal) (n : ℕ) (a b : A) (line next : ByteString)
      → Holds marshal unmarshal view es w
      → marshal a ≡ some line
      → marshal b ≡ some next
      → n ≤ length line
      → unmarshal (take n line ++ next) ≡ none
      → let torn_wal = (write_entry marshal (torn n) a w).0 in
        let (later, error) = write_entry marshal synced b torn_wal in
        (read_entries unmarshal true torn_wal ≡ success es)
        × (new_wal true true torn_wal.file ≡ success torn_wal)
        × (error ≡ none)
        × (read_entries unmarshal true later ≡ failure malformed)
  append_after_tear es w n a b line next h ma mb short bad =
      let torn_wal = (write_entry marshal (torn n) a w).0 in
      let left = take n line in
      let is_torn =
        write_entry-content marshal unmarshal view (torn n) w a line h.opened ma
        ∙ ap (λ s. with_content w (w.file.content ++ s)) (take-short n line (10 ∷ []) short) in
      let opened : torn_wal.is_open ≡ true = ap (λ v. v.is_open) is_torn ∙ h.opened in
      let content : torn_wal.file.content ≡ frame h.lines ++ left =
        ap (λ v. v.file.content) is_torn ∙ ap (λ s. s ++ left) h.whole in
      let torn_in_line : arrives (torn n) line ≡ false = ground arith in
      (
        from_start marshal unmarshal view torn_wal
            ∙ read_entries_from-Remains marshal unmarshal view 0 es torn_wal (
                subst (λ fs. Remains marshal unmarshal view 0 fs torn_wal)
                  (ap (λ x. if x then es ++ view a ∷ [] else es) torn_in_line)
                  (last-Remains marshal unmarshal view codec 0 es w (torn n) a line
                    (Clean-start marshal unmarshal view es w h) ma)),
        new_wal-opened torn_wal opened,
        written_later b next torn_wal opened mb,
        glued_unreadable es b next h.lines left torn_wal h.holds opened content mb
            (Plain-take n line (codec.plain a line ma)) bad,
      )
