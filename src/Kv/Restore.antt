-- ===== src/Kv/Restore.antt =====
-- `Snapshot` and `Restore` of kv/store.go.
use wjetcd.Common.{
  ◌≡◌, refl, arith, true, ByteString, List, [], ◌∷◌, Option, none, some, Map, ℤ, pos, ◌≤ℤ◌,
}
use wjetcd.Kv.{
  VersionEntry, KvStore, StoreSnapshot, RestoreError, take_snapshot, snapshot, restore,
  restore_decoded, restore_fields, restore_checked, revisions_valid, histories_valid,
}
use wjetcd.Kv.Valid.{Ascending, Histories, IsValid}

Ascending-bounds :
    (low : ℤ) (entries : List VersionEntry) (top : ℤ) → Ascending low entries top → low ≤ℤ top
Ascending-bounds low [] top a = a
Ascending-bounds low (e ∷ rest) top a =
    let below = Ascending-bounds e.revision rest top a.1 in omega arith

revisions_valid-Ascending :
    (low : ℤ) (entries : List VersionEntry) (top : ℤ)
    → pos 0 ≤ℤ low
    → Ascending low entries top
    → revisions_valid top entries ≡ true
unfolding revisions_valid
revisions_valid-Ascending low [] top h a = refl
revisions_valid-Ascending low (e ∷ rest) top h a = ground (
  arith,
  Ascending-bounds e.revision rest top a.1,
  revisions_valid-Ascending e.revision rest top (omega arith) a.1,
)

histories_valid-Histories :
    (top : ℤ) (m : Map ByteString (List VersionEntry))
    → Histories top m
    → histories_valid top m ≡ true
unfolding histories_valid
histories_valid-Histories top [] h = refl
histories_valid-Histories top ((k, entries) ∷ rest) h = ground (
  arith,
  revisions_valid-Ascending (pos 0) entries top (omega arith) h.0,
  histories_valid-Histories top rest h.1,
)

module _ (marshal : StoreSnapshot → ByteString)
    (unmarshal : ByteString → Option StoreSnapshot) where
  -- A snapshot of a valid store restores to that store, whatever store it is restored over, where
  -- decoding its JSON gives back what was encoded.
  pub restore-snapshot :
      (kv old : KvStore)
      → unmarshal (marshal (take_snapshot kv)) ≡ some (take_snapshot kv)
      → IsValid kv
      → restore unmarshal old (snapshot marshal kv) ≡ (kv, none)
  unfolding restore snapshot restore_decoded restore_fields restore_checked take_snapshot
  restore-snapshot kv old round_trip v =
      ground (arith, histories_valid-Histories kv.current_rev kv.versions v.ascending)

restore_checked-error :
    (kv : KvStore) (versions : Map ByteString (List VersionEntry)) (leases : Map ByteString ℤ)
    (top : ℤ) (e : RestoreError)
    → (restore_checked kv versions leases top).1 ≡ some e
    → (restore_checked kv versions leases top).0 ≡ kv
unfolding restore_checked
restore_checked-error kv versions leases top e h = ground arith

restore_decoded-error :
    (kv : KvStore) (decoded : Option StoreSnapshot) (e : RestoreError)
    → (restore_decoded kv decoded).1 ≡ some e
    → (restore_decoded kv decoded).0 ≡ kv
unfolding restore_decoded restore_fields
restore_decoded-error kv none e h = refl
restore_decoded-error kv (some s) e h = ground (
  arith,
  λ (m : Map ByteString (List VersionEntry)) (l : Map ByteString ℤ).
      restore_checked-error kv m l s.snapshot_rev e,
)

-- A restore that reports an error leaves the store as it was.
pub restore-error :
    (unmarshal : ByteString → Option StoreSnapshot) (kv : KvStore) (snap : ByteString)
    (e : RestoreError)
    → (restore unmarshal kv snap).1 ≡ some e
    → (restore unmarshal kv snap).0 ≡ kv
unfolding restore
restore-error unmarshal kv snap e h = restore_decoded-error kv (unmarshal snap) e h
