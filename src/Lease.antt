-- ===== src/Lease.antt =====
-- The lease manager of server/server.go: leases by id, and a binary min-heap of their expiry times.
-- `time.Now().UnixNano()` is an argument. Every index that the heap's loops use lies in the slice:
-- a parent, a child that was compared with the length, or the index of a found item.
pub mod Heap
pub mod Entries
pub mod Schedule
pub mod Table
pub mod Expiry
pub mod Checkpoint
use wjetcd.Common.{
  ℕ, zero, suc, ◌+◌, ◌-◌, ◌*◌, ◌/◌, Bool, true, false, not, ◌&&◌, ◌||◌, Option, none, some, List,
  [], ◌∷◌, ◌++◌, if◌then◌else◌, ltb, ◌==◌, ByteString, bytes_key, sort_strings, ℤ, pos, ltb_ℤ,
  leb_ℤ, eqb_ℤ, int_eq, inc64, wrap64, ◌+ℤ◌, ◌*ℤ◌, Map, keys, lookup, insert, delete, length, last,
  take, set,
}
use wjetcd.Lease.Heap.{LeaseItem, bubble_up, bubble_down, heapify, index_of, remove_at}

pub record Lease : Type 0 where
  pub id : ℤ
  pub ttl : ℤ
  pub expire_at : ℤ
  pub attached : Map ByteString ByteString

pub record LeaseManager : Type 0 where
  pub leases : Map ℤ Lease
  pub lease_id : ℤ
  pub heap : List LeaseItem

unfoldable pub new_lease_manager : LeaseManager
new_lease_manager = record { leases = []; lease_id = pos 0; heap = [] }

-- The nanosecond at which a lease granted now for `ttl` seconds expires, in `int64` arithmetic.
unfoldable pub expiry_after : ℤ → ℤ → ℤ
expiry_after now ttl = wrap64 (now +ℤ wrap64 (ttl *ℤ pos 1000000000))

unfoldable pub grant_until : LeaseManager → ℤ → ℤ → LeaseManager × ℤ
grant_until le ttl expire_at =
    let id = inc64 le.lease_id in
    let lease : Lease = record { id = id; ttl = ttl; expire_at = expire_at; attached = [] } in
    let grown = le.heap ++ record { id = id; expire_at = expire_at } ∷ [] in
    (
      record {
        leases = insert id lease le.leases;
        lease_id = id;
        heap = bubble_up grown (length grown - 1);
      },
      id,
    )

unfoldable pub grant : ℤ → LeaseManager → ℤ → LeaseManager × ℤ
grant now le ttl = grant_until le ttl (expiry_after now ttl)

unfoldable pub attach : LeaseManager → ℤ → ByteString → ByteString → LeaseManager
attach le lease_id key value = elim (lookup lease_id le.leases) [
  | none ↦ le
  | some lease ↦ record le {
    leases =
        insert lease_id (record lease { attached = insert key value lease.attached }) le.leases;
  }
]

-- The first lease that the key is attached to. Go goes through the map in any order: the list stands
-- for one of them.
unfoldable pub holder : ByteString → Map ℤ Lease → Option (ℤ × Lease)
holder key [] = none
holder key ((id, lease) ∷ rest) = elim (lookup key lease.attached) [
  | none ↦ holder key rest
  | some value ↦ some (id, lease)
]

unfoldable pub revoke : LeaseManager → ByteString → LeaseManager × ℤ
revoke le key = elim (holder key le.leases) [
  | none ↦ (le, pos 0)
  | some (id, lease) ↦ (
    record le {
      leases = insert id (record lease { attached = delete key lease.attached }) le.leases;
    },
    id,
  )
]

unfoldable pub get_lease : LeaseManager → ℤ → Option Lease
get_lease le lease_id = lookup lease_id le.leases

-- The item of the lease takes the new expiry and moves to its place.
unfoldable pub reschedule : List LeaseItem → ℤ → ℤ → List LeaseItem
reschedule heap lease_id expire_at = elim (index_of lease_id heap) [
  | none ↦ heap
  | some i ↦
      bubble_up (bubble_down (set heap i (record { id = lease_id; expire_at = expire_at })) i) i
]

unfoldable pub keep_alive_until : LeaseManager → ℤ → ℤ → ℤ → LeaseManager × Bool
keep_alive_until le lease_id ttl expire_at = elim (lookup lease_id le.leases) [
  | none ↦ (le, false)
  | some lease ↦ (
    record le {
      leases = insert lease_id (record lease { ttl = ttl; expire_at = expire_at }) le.leases;
      heap = reschedule le.heap lease_id expire_at;
    },
    true,
  )
]

unfoldable pub keep_alive : ℤ → LeaseManager → ℤ → ℤ → LeaseManager × Bool
keep_alive now le lease_id ttl = keep_alive_until le lease_id ttl (expiry_after now ttl)

unfoldable pub unschedule : List LeaseItem → ℤ → List LeaseItem
unschedule heap lease_id = elim (index_of lease_id heap) [ none ↦ heap | some i ↦ remove_at heap i ]

-- `RevokeLease` and `revokeLeaseLocked`: the keys are sorted, and a missing lease has none.
unfoldable pub revoke_lease : LeaseManager → ℤ → LeaseManager × List ByteString
revoke_lease le lease_id = elim (lookup lease_id le.leases) [
  | none ↦ (le, [])
  | some lease ↦ (
    record le { leases = delete lease_id le.leases; heap = unschedule le.heap lease_id },
    sort_strings (keys lease.attached),
  )
]

unfoldable pub revoke_lease_if_matches : LeaseManager → ℤ → ℤ → LeaseManager × List ByteString
revoke_lease_if_matches le lease_id expected_expire_at = elim (lookup lease_id le.leases) [
  | none ↦ (le, [])
  | some lease ↦
      if eqb_ℤ lease.expire_at expected_expire_at then revoke_lease le lease_id else (le, [])
]

unfoldable pub get_expiring_lease : LeaseManager → Option LeaseItem
get_expiring_lease le = elim le.heap [ [] ↦ none | item ∷ rest ↦ some item ]

-- The keys are in the order of the map's iteration; 0 stands for no lease.
unfoldable pub remove_expired_lease : ℤ → LeaseManager → LeaseManager × List ByteString × ℤ
remove_expired_lease now le = elim le.heap [
  | [] ↦ (le, [], pos 0)
  | item ∷ rest ↦
      if ltb_ℤ now item.expire_at then (le, [], pos 0) else (elim (lookup item.id le.leases) [
        | none ↦ (le, [], pos 0)
        | some lease ↦ (
          record le { leases = delete item.id le.leases; heap = remove_at le.heap 0 },
          keys lease.attached,
          item.id,
        )
      ])
]

-- `leaseStateEntry` and `leaseSnapshot`.
pub record LeaseSnapshot : Type 0 where
  pub counter : ℤ
  pub entries : List Lease

snapshot_entries : Map ℤ Lease → List Lease
snapshot_entries [] = []
snapshot_entries ((id, lease) ∷ rest) = lease ∷ snapshot_entries rest

-- What `Snapshot` hands to `json.Marshal`.
unfoldable pub take_lease_snapshot : LeaseManager → LeaseSnapshot
unfolding snapshot_entries
take_lease_snapshot le = record { counter = le.lease_id; entries = snapshot_entries le.leases }

pub data LeaseRestoreError : Type 0 where
  bad_lease_json invalid_entry duplicate_entry low_counter : LeaseRestoreError

-- The loop of `Restore`: the leases and the items so far, and the largest id.
pub record Rebuilt : Type 0 where
  pub leases : Map ℤ Lease
  pub items : List LeaseItem
  pub max_id : ℤ

pub data Rebuilding : Type 0 where
  rebuilt : Rebuilt → Rebuilding
  refused : LeaseRestoreError → Rebuilding

entry_invalid : Lease → Bool
entry_invalid entry =
    leb_ℤ entry.id (pos 0) || leb_ℤ entry.ttl (pos 0) || leb_ℤ entry.expire_at (pos 0)

rebuild_step : Rebuilt → Lease → Rebuilt
rebuild_step acc entry = record {
  leases = insert entry.id entry acc.leases;
  items = acc.items ++ record { id = entry.id; expire_at = entry.expire_at } ∷ [];
  max_id = if ltb_ℤ acc.max_id entry.id then entry.id else acc.max_id;
}

rebuild : Rebuilt → List Lease → Rebuilding
unfolding entry_invalid rebuild_step
rebuild acc [] = rebuilt acc
rebuild acc (entry ∷ rest) =
    let next = rebuild (rebuild_step acc entry) rest in
    if entry_invalid entry
    then refused invalid_entry
    else (elim (lookup entry.id acc.leases) [ some old ↦ refused duplicate_entry | none ↦ next ])

finish_restore : LeaseManager → ℤ → Rebuilding → LeaseManager × Option LeaseRestoreError
finish_restore le counter (refused e) = (le, some e)
finish_restore le counter (rebuilt r) =
    if ltb_ℤ counter r.max_id
    then (le, some low_counter)
    else (record { leases = r.leases; lease_id = counter; heap = heapify r.items }, none)

restore_leases_decoded :
    LeaseManager → Option LeaseSnapshot → LeaseManager × Option LeaseRestoreError
unfolding finish_restore rebuild
restore_leases_decoded le none = (le, some bad_lease_json)
restore_leases_decoded le (some s) =
    finish_restore le s.counter
      (rebuild (record { leases = []; items = []; max_id = pos 0 }) s.entries)

-- `json.Unmarshal` is a parameter. An error leaves the leases as they were.
unfoldable pub restore_leases :
    (ByteString → Option LeaseSnapshot)
    → LeaseManager
    → ByteString
    → LeaseManager × Option LeaseRestoreError
unfolding restore_leases_decoded
restore_leases unmarshal le snap = restore_leases_decoded le (unmarshal snap)
