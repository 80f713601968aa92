-- ===== src/Storage/Snapshot/Reopen.antt =====
-- storage/wal.go: a snapshot that is opened again.
use mathlib.Core.Path.{subst}
use wjetcd.Common.{
  All, ◌<◌, ◌≤ℤ◌, negsuc, ◌≡◌, ◌≢◌, refl, sym, ap, ◌∙◌, Bool, inl, inr, ◌⊎◌, ByteString, bytes,
  bytes_eq, bytes_key, [], ◌∷◌, Option, none, some, Option-cases, Bool-cases, lookup, ℤ, pos,
  if◌then◌else◌,
}
use wjetcd.Storage.Wal.{StorageError, malformed, closed, success}
use wjetcd.Storage.Snapshot.{
  Saved, string, number, Document, object, Snapshot, load_from_file, load_document, with_content,
  with_numbers, offset_of, id_of, Saving, uncreated, torn, unsynced, unclosed, unrenamed,
  died_writing, died_synced, died_renamed, unopened, old_unclosed, directory_unsynced, done,
  save_files, save_fields, create_temp, write_temp, sync_temp, remove_temp, rename_temp,
  save_with_wal, save_open,
}

abbrev pub InFloat : ℤ → Type 0
InFloat n = (negsuc 9007199254740991 ≤ℤ n) × (n ≤ℤ pos 9007199254740992)

-- Fields that JSON keeps: numbers that a `float64` represents, and an identity in ASCII.
pub record IsExact (fields : Saved) : Type 0 where
  pub term : InFloat fields.term
  pub idx : InFloat fields.idx
  pub offset : InFloat fields.wal_offset
  pub ascii : All (λ b. b < 128) fields.wal_id

-- What the code relies on of the codecs: an encoding is not empty and parses to an object with the
-- five fields, the data in base64.
pub record IsCodec (encode : Saved → Option ByteString) (parse : ByteString → Document)
    (encode_string : ByteString → ByteString) (decode_string : ByteString → Option ByteString)
    : Type 0 where
  pub text : (s : ByteString) → decode_string (encode_string s) ≡ some s
  pub filled : (fields : Saved) → encode fields ≢ some []
  pub parses :
      (fields : Saved) (s : ByteString)
      → IsExact fields
      → encode fields ≡ some s
      → parse s
        ≡ object (
            (bytes "data", string (encode_string fields.content))
            ∷ (bytes "idx", number fields.idx)
            ∷ (bytes "term", number fields.term)
            ∷ (bytes "wal_id", string fields.wal_id)
            ∷ (bytes "wal_offset", number fields.wal_offset)
            ∷ [])

abbrev written : Saving → Saved → Snapshot → Option ByteString → Snapshot × Option StorageError
written how fields sn none = (sn, some malformed)
written how fields sn (some s) = save_open how fields s sn

module _ (encode : Saved → Option ByteString) (parse : ByteString → Document)
    (encode_string : ByteString → ByteString) (decode_string : ByteString → Option ByteString) where
  module _ (codec : IsCodec encode parse encode_string decode_string) where
    pub load-encode :
        (fields : Saved) (s : ByteString)
        → IsExact fields
        → encode fields ≡ some s
        → load_from_file decode_string parse s ≡ success fields
    unfolding load_from_file load_document with_content with_numbers offset_of id_of lookup bytes_eq
    load-encode fields [] x e = elim (codec.filled fields e) [ ]
    load-encode fields (b ∷ s) x e =
        rw (codec.parses fields (b ∷ s) x e, codec.text fields.content) refl

    -- What a snapshot and an error are after a save.
    abbrev pub Outcome : Saved → Snapshot → Snapshot × Option StorageError → Type 0
    Outcome fields sn (sn', error) =
        (sn'.stored ≡ sn.stored) × (error ≢ none)
        ⊎ (load_from_file decode_string parse sn'.stored ≡ success fields)
          × ((error ≢ none) ⊎ (sn'.saved ≡ fields))

    save_open-Outcome :
        (how : Saving) (fields : Saved) (s : ByteString) (sn : Snapshot)
        → IsExact fields
        → encode fields ≡ some s
        → Outcome fields sn (save_open how fields s sn)
    unfolding save_open save_files save_fields create_temp write_temp sync_temp remove_temp
        rename_temp
    save_open-Outcome uncreated fields s sn x e = inl (refl, λ n. cc)
    save_open-Outcome (torn n) fields s sn x e = inl (refl, λ n. cc)
    save_open-Outcome unsynced fields s sn x e = inl (refl, λ n. cc)
    save_open-Outcome unclosed fields s sn x e = inl (refl, λ n. cc)
    save_open-Outcome unrenamed fields s sn x e = inl (refl, λ n. cc)
    save_open-Outcome (died_writing n) fields s sn x e = inl (refl, λ n. cc)
    save_open-Outcome died_synced fields s sn x e = inl (refl, λ n. cc)
    save_open-Outcome died_renamed fields s sn x e = inr (load-encode fields s x e, inl (λ n. cc))
    save_open-Outcome unopened fields s sn x e = inr (load-encode fields s x e, inl (λ n. cc))
    save_open-Outcome old_unclosed fields s sn x e = inr (load-encode fields s x e, inl (λ n. cc))
    save_open-Outcome directory_unsynced fields s sn x e =
        inr (load-encode fields s x e, inl (λ n. cc))
    save_open-Outcome done fields s sn x e = inr (load-encode fields s x e, inr refl)

    -- However a save of fields that JSON keeps ends, in a call that fails, after any number of bytes,
    -- or with the process, the file stays as it was, or a snapshot that is opened on the file has the
    -- new fields, although a file that was not synced is lost. No error is reported only where the
    -- saved one has them too; the end of the process counts as an error.
    pub save_is_atomic :
        (how : Saving) (fields : Saved) (sn : Snapshot)
        → IsExact fields
        → let (sn', error) = save_with_wal encode how fields sn in
          (sn'.stored ≡ sn.stored) × (error ≢ none)
          ⊎ (load_from_file decode_string parse sn'.stored ≡ success fields)
            × ((error ≢ none) ⊎ (sn'.saved ≡ fields))
    unfolding save_with_wal
    save_is_atomic how fields sn x = elim (Bool-cases sn.is_open) [
      | inl o ↦ elim (Option-cases (encode fields)) [
        | inl e ↦
            subst (Outcome fields sn) (sym (opened o ∙ ap (written how fields sn) e))
              (inl (refl, λ n. cc))
        | inr (s, e) ↦
            subst (Outcome fields sn) (sym (opened o ∙ ap (written how fields sn) e))
              (save_open-Outcome how fields s sn x e)
      ]
      | inr f ↦ subst (Outcome fields sn) (sym (opened f)) (inl (refl, λ n. cc))
    ]
      where
        opened :
            {b : Bool}
            → sn.is_open ≡ b
            → save_with_wal encode how fields sn
              ≡ (if b then written how fields sn (encode fields) else (sn, some closed))
        opened e =
            ap (λ b. if b then written how fields sn (encode fields) else (sn, some closed)) e
