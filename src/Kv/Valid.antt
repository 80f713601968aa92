-- ===== src/Kv/Valid.antt =====
-- The invariant of the store of kv/store.go: every history has ascending positive revisions, the
-- last at most the store's.
use wjetcd.Common.{
  ◌≡◌, Bool, true, false, arith, if◌then◌else◌, ByteString, bytes, bytes_eq, Bool-cases, inl, inr,
  bytes_key, List, [], ◌∷◌, ◌++◌, none, some, Map, insert, lookup, ℤ, pos, ◌≤ℤ◌, ◌<ℤ◌, ltb_ℤ,
}
use wjetcd.Command.{CommandType, Command, cmd_put, cmd_delete, cmd_lease_attach, cmd_cas}
use wjetcd.Kv.{
  VersionEntry, KvStore, history, assign_rev, advance_rev, write_version, apply, apply_typed,
  apply_put, apply_delete, apply_cas, apply_lease_attach, set_key_lease, cas_matches,
  append_version,
}
use wjetcd.Kv.History.{versions-advance_rev}
use wjetcd.Kv.Reads.{IsFresh, HasRoom, assign_rev-fresh}

-- Revisions strictly ascend from above `low` and do not pass `top`.
abbrev pub Ascending : ℤ → List VersionEntry → ℤ → Type 0
Ascending low [] top = low ≤ℤ top
Ascending low (entry ∷ rest) top = (low <ℤ entry.revision) × Ascending entry.revision rest top

abbrev pub Histories : ℤ → Map ByteString (List VersionEntry) → Type 0
Histories top [] = Unit {0}
Histories top ((key, entries) ∷ rest) = Ascending (pos 0) entries top × Histories top rest

pub record IsValid (kv : KvStore) : Type 0 where
  pub counted : pos 0 ≤ℤ kv.current_rev
  pub ascending : Histories kv.current_rev kv.versions

Ascending-mono :
    (low : ℤ) (entries : List VersionEntry) (top top' : ℤ)
    → top ≤ℤ top'
    → Ascending low entries top
    → Ascending low entries top'
Ascending-mono low [] top top' h a = omega arith
Ascending-mono low (entry ∷ rest) top top' h a =
    (a.0, Ascending-mono entry.revision rest top top' h a.1)

Ascending-append :
    (low : ℤ) (entries : List VersionEntry) (top : ℤ) (entry : VersionEntry) (top' : ℤ)
    → Ascending low entries top
    → top <ℤ entry.revision
    → entry.revision ≤ℤ top'
    → Ascending low (entries ++ entry ∷ []) top'
Ascending-append low [] top entry top' a h k = (omega arith, omega arith)
Ascending-append low (e ∷ rest) top entry top' a h k =
    (a.0, Ascending-append e.revision rest top entry top' a.1 h k)

Histories-mono :
    (top top' : ℤ) (m : Map ByteString (List VersionEntry))
    → top ≤ℤ top'
    → Histories top m
    → Histories top' m
Histories-mono top top' [] h a = tt
Histories-mono top top' ((key, entries) ∷ rest) h a =
    (Ascending-mono (pos 0) entries top top' h a.0, Histories-mono top top' rest h a.1)

Histories-insert :
    (top : ℤ) (m : Map ByteString (List VersionEntry)) (key : ByteString)
    (entries : List VersionEntry)
    → Histories top m
    → Ascending (pos 0) entries top
    → Histories top (insert key entries m)
unfolding insert
Histories-insert top [] key entries a h = (h, tt)
Histories-insert top ((k, old) ∷ rest) key entries a h =
    elim (bytes_eq k key)
      as (λ b.
        Histories top (if b then (k, entries) ∷ rest else (k, old) ∷ insert key entries rest)) [
          | true ↦ (h, a.1)
          | false ↦ (a.0, Histories-insert top rest key entries a.1 h)
        ]

pub Histories-lookup :
    (top : ℤ) (m : Map ByteString (List VersionEntry)) (key : ByteString)
    → pos 0 ≤ℤ top
    → Histories top m
    → Ascending (pos 0) (elim (lookup key m) [ none ↦ [] | some entries ↦ entries ]) top
unfolding lookup
Histories-lookup top [] key nonneg a = omega arith
Histories-lookup top ((k, entries) ∷ rest) key nonneg a =
    elim (bytes_eq k key)
      as (λ b.
        Ascending (ℤ.pos 0)
          (elim (if b then some entries else lookup key rest) [ none ↦ [] | some found ↦ found ])
          top) [ true ↦ a.0 | false ↦ Histories-lookup top rest key nonneg a.1 ]

current_rev-advance_rev :
    (kv : KvStore) (rev : ℤ)
    → HasRoom kv
    → IsFresh kv rev
    → (advance_rev kv rev).current_rev ≡ assign_rev kv rev
unfolding advance_rev assign_rev
current_rev-advance_rev kv rev room fresh = ground arith

abbrev new_history : KvStore → ByteString → ℤ → ByteString → Bool → List VersionEntry
new_history kv key rev value tombstone =
    history kv key
    ++ record { revision = assign_rev kv rev; value = value; tombstone = tombstone } ∷ []

history-advance_rev :
    (kv : KvStore) (rev : ℤ) (key : ByteString) → history (advance_rev kv rev) key ≡ history kv key
unfolding advance_rev
history-advance_rev kv rev key = ground arith

versions-write_version :
    (kv : KvStore) (key : ByteString) (rev : ℤ) (value : ByteString) (tombstone : Bool)
    → (write_version kv key rev value tombstone).versions
      ≡ insert key (new_history kv key rev value tombstone) kv.versions
unfolding write_version append_version
versions-write_version kv key rev value tombstone =
    simp (history-advance_rev kv rev key, versions-advance_rev kv rev)

-- A write with a fresh revision sets the counter to it.
pub current_rev-write_version :
    (kv : KvStore) (key : ByteString) (rev : ℤ) (value : ByteString) (tombstone : Bool)
    → HasRoom kv
    → IsFresh kv rev
    → (write_version kv key rev value tombstone).current_rev ≡ assign_rev kv rev
unfolding write_version append_version
current_rev-write_version kv key rev value tombstone room fresh =
    current_rev-advance_rev kv rev room fresh

pub write_version-IsValid :
    (kv : KvStore) (key : ByteString) (rev : ℤ) (value : ByteString) (tombstone : Bool)
    → HasRoom kv
    → IsFresh kv rev
    → IsValid kv
    → IsValid (write_version kv key rev value tombstone)
write_version-IsValid kv key rev value tombstone room fresh v =
    let top = assign_rev kv rev in
    let grows = assign_rev-fresh kv rev room fresh in
    let counter = current_rev-write_version kv key rev value tombstone room fresh in
    record {
      counted = rw counter (omega arith);
      ascending =
          rw (counter, versions-write_version kv key rev value tombstone)
            (Histories-insert top kv.versions key _
              (Histories-mono kv.current_rev top kv.versions (omega arith) v.ascending)
              (Ascending-append (pos 0) (history kv key) kv.current_rev _ top
                (Histories-lookup kv.current_rev kv.versions key v.counted v.ascending) grows
                (omega arith)));
    }

apply_typed-IsValid :
    (type : CommandType) (kv : KvStore) (cmd : Command)
    → HasRoom kv
    → IsFresh kv cmd.revision
    → IsValid kv
    → IsValid (apply_typed type kv cmd).0
unfolding apply_typed apply_put apply_delete apply_cas apply_lease_attach set_key_lease
apply_typed-IsValid cmd_put kv cmd room fresh v =
    let w = write_version-IsValid kv cmd.key cmd.revision cmd.value false room fresh v in
    record { counted = w.counted; ascending = w.ascending }
apply_typed-IsValid cmd_delete kv cmd room fresh v =
    let w = write_version-IsValid kv cmd.key cmd.revision (bytes "") true room fresh v in
    record { counted = w.counted; ascending = w.ascending }
apply_typed-IsValid cmd_cas kv cmd room fresh v = elim (Bool-cases (cas_matches kv cmd)) [
  | inl hit ↦ rw hit (write_version-IsValid kv cmd.key cmd.revision cmd.value false room fresh v)
  | inr miss ↦ rw miss v
]
apply_typed-IsValid cmd_lease_attach kv cmd room fresh v =
    let held = record kv { key2lease = insert cmd.key cmd.lease_id kv.key2lease } in
    let held_valid : IsValid held = record { counted = v.counted; ascending = v.ascending } in
    elim (ltb_ℤ (pos 0) cmd.lease_id)
      as (λ b.
        IsValid (if b then write_version held cmd.key cmd.revision cmd.value false else kv)) [
          | true ↦
              write_version-IsValid held cmd.key cmd.revision cmd.value false room fresh held_valid
          | false ↦ v
        ]
apply_typed-IsValid _ kv cmd room fresh v = v

-- Every command keeps the histories ascending and under the counter, if its revision is 0 or past
-- the counter and the counter is not at the top of its range.
pub apply-IsValid :
    (kv : KvStore) (cmd : Command)
    → HasRoom kv
    → IsFresh kv cmd.revision
    → IsValid kv
    → IsValid (apply kv cmd).0
unfolding apply
apply-IsValid kv cmd room fresh v = apply_typed-IsValid cmd.type kv cmd room fresh v
