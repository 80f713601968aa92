-- ===== src/Kv/History.antt =====
-- How the writes of kv/store.go extend the version histories.
use mathlib.Core.List.{reverse-append}
use wjetcd.Common.{
  ◌≡◌, refl, Bool, List, [], ◌∷◌, ◌++◌, reverse, arith, if◌then◌else◌, ByteString, bytes, bytes_eq,
  bytes_eq_iff, bytes_key, ℤ, pos, leb_ℤ, eqb_ℤ, max_int64, lookup-insert, Bool-cases, inl, inr,
}
use wjetcd.Kv.{
  VersionEntry, KvStore, history, append_version, assign_rev, advance_rev, write_version, scan_back,
  get_at_revision,
}

pub history-append_version :
    (kv : KvStore) (k j : ByteString) (entry : VersionEntry)
    → history (append_version kv k entry) j
      ≡ (if bytes_eq k j then history kv k ++ entry ∷ [] else history kv j)
unfolding append_version
history-append_version kv k j entry =
    ground (arith, lookup-insert k j (history kv k ++ entry ∷ []) kv.versions)

pub versions-advance_rev : (kv : KvStore) (rev : ℤ) → (advance_rev kv rev).versions ≡ kv.versions
unfolding advance_rev
versions-advance_rev kv rev = ground arith

pub history-write_version :
    (kv : KvStore) (k j : ByteString) (rev : ℤ) (value : ByteString) (tombstone : Bool)
    → history (write_version kv k rev value tombstone) j ≡ (
        if bytes_eq k j
        then history kv k
          ++ record { revision = assign_rev kv rev; value = value; tombstone = tombstone } ∷ []
        else history kv j)
unfolding write_version
history-write_version kv k j rev value tombstone =
    rw (history-append_version (advance_rev kv rev) k j _) (rw (versions-advance_rev kv rev) refl)

pub scan_back-append :
    (rev : ℤ) (entries : List VersionEntry) (entry : VersionEntry)
    → scan_back rev (reverse (entries ++ entry ∷ [])) ≡ (
        if leb_ℤ entry.revision rev
        then (if entry.tombstone then bytes "" else entry.value, entry.revision)
        else scan_back rev (reverse entries))
unfolding scan_back
scan_back-append rev entries entry = rw (reverse-append entries (entry ∷ []))

-- `GetAtRevision` with 0 reads at the largest revision.
abbrev pub read_rev : ℤ → ℤ
read_rev rev = if eqb_ℤ rev (pos 0) then max_int64 else rev

-- A read after a write sees the written version if it is of the key and not too new, and else what
-- it saw before.
pub get_at_revision-write_version :
    (kv : KvStore) (k j : ByteString) (rev : ℤ) (value : ByteString) (tombstone : Bool) (at : ℤ)
    → get_at_revision (write_version kv k rev value tombstone) j at ≡ (
        if bytes_eq k j
        then (if leb_ℤ (assign_rev kv rev) (read_rev at)
            then (if tombstone then bytes "" else value, assign_rev kv rev)
            else get_at_revision kv j at)
        else get_at_revision kv j at)
unfolding get_at_revision
get_at_revision-write_version kv k j rev value tombstone at = elim (Bool-cases (bytes_eq k j)) [
  | inl same ↦
      let e : k ≡ j = (bytes_eq_iff k j).0 same in
      rw (history-write_version kv k j rev value tombstone, same)
        (rw (scan_back-append (read_rev at) (history kv k) _) (rw e refl))
  | inr other ↦ rw (history-write_version kv k j rev value tombstone, other)
]
