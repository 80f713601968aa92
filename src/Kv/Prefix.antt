-- ===== src/Kv/Prefix.antt =====
-- `DeletePrefix`, `GetPrefix`, `Keys` and `Size` of kv/store.go.
use wjetcd.Common.{
  ◌≡◌, refl, ap, ◌∙◌, arith, Bool, true, false, ◌&&◌, ◌||◌, if◌then◌else◌, ByteString, bytes,
  bytes_eq, bytes_eq_iff, bytes_eq_refl, bytes_key, has_prefix, insert_sorted, sort_strings, List,
  [], ◌∷◌, ◌++◌, last-append, length, Option, none, some, Map, keys, lookup, pos, Bool-cases, inl,
  inr,
}
use wjetcd.Command.{Command, cmd_delete}
use wjetcd.Kv.{
  apply, apply_typed, apply_delete, VersionEntry, KvStore, history, live_value, live_keys,
  live_count, keys_of, size, matching_keys, bury, bury_all, delete_key, doomed_keys, delete_prefix,
  collect_prefix, get_prefix,
}
use wjetcd.Kv.History.{history-write_version}

-- The value of the key's newest version, if that is no tombstone.
abbrev pub live : KvStore → ByteString → Option ByteString
live kv key = live_value (history kv key)

pub live_value-append :
    (entries : List VersionEntry) (entry : VersionEntry)
    → live_value (entries ++ entry ∷ []) ≡ (if entry.tombstone then none else some entry.value)
unfolding live_value
live_value-append entries entry = ground (arith, last-append entries entry)

live-bury :
    (kv : KvStore) (k j : ByteString)
    → live (bury kv k) j ≡ (if bytes_eq k j then none else live kv j)
unfolding bury delete_key
live-bury kv k j = elim (Bool-cases (bytes_eq k j)) [
  | inl same ↦
      rw (history-write_version kv k j (pos 0) (bytes "") true, same)
        (live_value-append (history kv k) _)
  | inr other ↦ rw (history-write_version kv k j (pos 0) (bytes "") true, other)
]

-- A deletion ends the value of its key and of no other.
pub live-apply_delete :
    (kv : KvStore) (cmd : Command) (j : ByteString)
    → cmd.type ≡ cmd_delete
    → live (apply kv cmd).0 j ≡ (if bytes_eq cmd.key j then none else live kv j)
unfolding apply apply_typed apply_delete
live-apply_delete kv cmd j e = elim (Bool-cases (bytes_eq cmd.key j)) [
  | inl same ↦
      rw (e, apply_typed, same)
        (ap live_value (history-write_version kv cmd.key j cmd.revision (bytes "") true)
          ∙ rw same (live_value-append (history kv cmd.key) _))
  | inr other ↦
      rw (e, apply_typed, other)
        (ap live_value (history-write_version kv cmd.key j cmd.revision (bytes "") true)
          ∙ rw other refl)
]

unfoldable pub contains : List ByteString → ByteString → Bool
contains [] j = false
contains (k ∷ rest) j = bytes_eq k j || contains rest j

live-bury_all :
    (kv : KvStore) (ks : List ByteString) (j : ByteString)
    → live (bury_all kv ks) j ≡ (if contains ks j then none else live kv j)
unfolding bury_all contains
live-bury_all kv [] j = refl
live-bury_all kv (k ∷ rest) j = ground (arith, live-bury_all (bury kv k) rest j, live-bury kv k j)

contains-insert_sorted :
    (s : ByteString) (l : List ByteString) (j : ByteString)
    → contains (insert_sorted s l) j ≡ bytes_eq s j || contains l j
unfolding contains insert_sorted
contains-insert_sorted s [] j = refl
contains-insert_sorted s (t ∷ l) j = ground (arith, contains-insert_sorted s l j)

pub contains-sort_strings :
    (l : List ByteString) (j : ByteString) → contains (sort_strings l) j ≡ contains l j
unfolding contains sort_strings
contains-sort_strings [] j = refl
contains-sort_strings (s ∷ l) j =
    ground (arith, contains-insert_sorted s (sort_strings l) j, contains-sort_strings l j)

contains-matching_keys :
    (prefix : ByteString) (l : List ByteString) (j : ByteString)
    → contains (matching_keys prefix l) j ≡ contains l j && has_prefix prefix j
unfolding contains matching_keys
contains-matching_keys prefix [] j = refl
contains-matching_keys prefix (k ∷ rest) j = elim (Bool-cases (bytes_eq k j)) [
  | inl same ↦
      rw ((bytes_eq_iff k j).0 same)
        (ground (arith, contains-matching_keys prefix rest j, bytes_eq_refl j))
  | inr other ↦ ground (arith, contains-matching_keys prefix rest j)
]

live_of_absent :
    (m : Map ByteString (List VersionEntry)) (j : ByteString)
    → contains (keys m) j ≡ false
    → live_value (elim (lookup j m) [ none ↦ [] | some entries ↦ entries ]) ≡ none
unfolding contains lookup live_value
live_of_absent [] j h = refl
live_of_absent ((k, entries) ∷ rest) j h = ground (arith, live_of_absent rest j)

-- After `DeletePrefix` no key with the prefix has a live value, and every other key has the value
-- that it had before.
pub live-delete_prefix :
    (kv : KvStore) (prefix j : ByteString)
    → live (delete_prefix kv prefix).0 j ≡ (if has_prefix prefix j then none else live kv j)
unfolding delete_prefix doomed_keys
live-delete_prefix kv prefix j =
    live-bury_all kv (doomed_keys kv prefix) j
    ∙ ground (
      arith,
      contains-sort_strings (matching_keys prefix (keys kv.versions)) j,
      contains-matching_keys prefix (keys kv.versions) j,
      live_of_absent kv.versions j,
    )

lookup-collect_prefix :
    (prefix : ByteString) (m : Map ByteString (List VersionEntry)) (j : ByteString)
    → contains (keys m) j ≡ false
    → lookup j (collect_prefix prefix m) ≡ none
unfolding contains lookup collect_prefix
lookup-collect_prefix prefix [] j h = refl
lookup-collect_prefix prefix ((k, entries) ∷ rest) j h =
    ground (arith, lookup-collect_prefix prefix rest j)

-- The keys of a Go map are distinct.
abbrev pub HasDistinctKeys : List ByteString → Type 0
HasDistinctKeys [] = Unit {0}
HasDistinctKeys (k ∷ rest) = (contains rest k ≡ false) × HasDistinctKeys rest

lookup_collected :
    (prefix : ByteString) (m : Map ByteString (List VersionEntry)) (j : ByteString)
    → HasDistinctKeys (keys m)
    → lookup j (collect_prefix prefix m) ≡ (
        if has_prefix prefix j
        then live_value (elim (lookup j m) [ none ↦ [] | some entries ↦ entries ])
        else none)
unfolding lookup collect_prefix live_value
lookup_collected prefix [] j h = ground arith
lookup_collected prefix ((k, entries) ∷ rest) j h = elim (Bool-cases (bytes_eq k j)) [
  | inl same ↦
      rw (← (bytes_eq_iff k j).0 same)
        (ground (arith, lookup-collect_prefix prefix rest k h.0, bytes_eq_refl k))
  | inr other ↦ ground (arith, lookup_collected prefix rest j h.1)
]

-- `GetPrefix` holds exactly the live values of the keys with the prefix, in a store whose keys are
-- distinct.
pub lookup-get_prefix :
    (kv : KvStore) (prefix j : ByteString)
    → HasDistinctKeys (keys kv.versions)
    → lookup j (get_prefix kv prefix) ≡ (if has_prefix prefix j then live kv j else none)
unfolding get_prefix
lookup-get_prefix kv prefix j h = lookup_collected prefix kv.versions j h

contains-live_keys_absent :
    (m : Map ByteString (List VersionEntry)) (j : ByteString)
    → contains (keys m) j ≡ false
    → contains (live_keys m) j ≡ false
unfolding contains live_keys
contains-live_keys_absent [] j h = refl
contains-live_keys_absent ((k, entries) ∷ rest) j h =
    ground (arith, contains-live_keys_absent rest j)

abbrev pub is_live : Option ByteString → Bool
is_live none = false
is_live (some value) = true

contains-live_keys :
    (m : Map ByteString (List VersionEntry)) (j : ByteString)
    → HasDistinctKeys (keys m)
    → contains (live_keys m) j
      ≡ is_live (live_value (elim (lookup j m) [ none ↦ [] | some entries ↦ entries ]))
unfolding contains lookup live_keys live_value
contains-live_keys [] j h = refl
contains-live_keys ((k, entries) ∷ rest) j h = elim (Bool-cases (bytes_eq k j)) [
  | inl same ↦
      rw (← (bytes_eq_iff k j).0 same)
        (ground (arith, contains-live_keys_absent rest k h.0, bytes_eq_refl k))
  | inr other ↦ ground (arith, contains-live_keys rest j h.1)
]

live_count-eq-length :
    (m : Map ByteString (List VersionEntry)) → live_count m ≡ length (live_keys m)
unfolding live_count live_keys
live_count-eq-length [] = refl
live_count-eq-length ((k, entries) ∷ rest) = ground (arith, live_count-eq-length rest)

-- In a store with distinct keys, `Keys` lists exactly the keys with a live value, and `Size` is
-- their number.
pub keys_of-size :
    (kv : KvStore) (j : ByteString)
    → HasDistinctKeys (keys kv.versions)
    → (contains (keys_of kv) j ≡ is_live (live kv j)) × (size kv ≡ length (keys_of kv))
unfolding keys_of size
keys_of-size kv j h = (contains-live_keys kv.versions j h, live_count-eq-length kv.versions)
