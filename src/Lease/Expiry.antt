-- ===== src/Lease/Expiry.antt =====
-- server/server.go: which lease `GetExpiringLease` reports, whatever was done to the leases before.
use mathlib.Core.List.{Perm}
use mathlib.Core.List.Perm
use wjetcd.Common.{
  ◌≡◌, refl, arith, inl, inr, ByteString, List, [], ◌∷◌, Option-cases, Option, none, some, ℤ, pos,
  ◌≤ℤ◌, ◌<ℤ◌, max_int64, int_eq, Map, lookup,
}
use wjetcd.Lease.{
  Lease, LeaseManager, new_lease_manager, grant_until, attach, revoke, keep_alive_until,
  revoke_lease, revoke_lease_if_matches, remove_expired_lease, get_expiring_lease,
}
use wjetcd.Lease.Heap.{LeaseItem, index_of}
use wjetcd.Lease.Heap.Order.{first_expires}
use wjetcd.Lease.Entries.{Listed, items_of}
use wjetcd.Lease.Schedule.{IsScheduled, leased, indexed, named}
use wjetcd.Lease.Table.{
  HasLeases, no_leases, grant_until-HasLeases, attach-HasLeases, revoke-HasLeases,
  keep_alive_until-HasLeases, revoke_lease-HasLeases, revoke_lease_if_matches-HasLeases,
  remove_expired_lease-HasLeases,
}

-- A call of a method that changes the leases; times to live and expiries are positive.
pub data LeaseStep (le : LeaseManager) : LeaseManager → Type 0 where
  granted :
      (ttl expire_at : ℤ)
      → pos 0 <ℤ ttl
      → pos 0 <ℤ expire_at
      → le.lease_id <ℤ max_int64
      → LeaseStep le (grant_until le ttl expire_at).0
  attached : (id : ℤ) (key value : ByteString) → LeaseStep le (attach le id key value)
  detached : (key : ByteString) → LeaseStep le (revoke le key).0
  prolonged :
      (id ttl expire_at : ℤ)
      → pos 0 <ℤ ttl
      → pos 0 <ℤ expire_at
      → LeaseStep le (keep_alive_until le id ttl expire_at).0
  revoked : (id : ℤ) → LeaseStep le (revoke_lease le id).0
  revoked_if : (id expire_at : ℤ) → LeaseStep le (revoke_lease_if_matches le id expire_at).0
  expired : (now : ℤ) → LeaseStep le (remove_expired_lease now le).0

pub data Reaches (le : LeaseManager) : LeaseManager → Type 0 where
  here : Reaches le le
  next : {le' le'' : LeaseManager} → Reaches le le' → LeaseStep le' le'' → Reaches le le''

LeaseStep-HasLeases : {le le' : LeaseManager} → LeaseStep le le' → HasLeases le → HasLeases le'
LeaseStep-HasLeases {le} (granted ttl expire_at long after room) h =
    grant_until-HasLeases le ttl expire_at long after room h
LeaseStep-HasLeases {le} (attached id key value) h = attach-HasLeases le id key value h
LeaseStep-HasLeases {le} (detached key) h = revoke-HasLeases le key h
LeaseStep-HasLeases {le} (prolonged id ttl expire_at long after) h =
    keep_alive_until-HasLeases le id ttl expire_at long after h
LeaseStep-HasLeases {le} (revoked id) h = revoke_lease-HasLeases le id h
LeaseStep-HasLeases {le} (revoked_if id expire_at) h =
    revoke_lease_if_matches-HasLeases le id expire_at h
LeaseStep-HasLeases {le} (expired now) h = remove_expired_lease-HasLeases now le h

Reaches-HasLeases : {le le' : LeaseManager} → HasLeases le → Reaches le le' → HasLeases le'
Reaches-HasLeases h here = h
Reaches-HasLeases h (next run step) = LeaseStep-HasLeases step (Reaches-HasLeases h run)

-- What `GetExpiringLease` reports: a lease of the table with its expiry, and no lease expires
-- before it; nothing only where there is no lease.
pub data Reports (m : Map ℤ Lease) : Option LeaseItem → Type 0 where
  idle : m ≡ [] → Reports m none
  first :
      (item : LeaseItem) (lease : Lease)
      → lookup item.id m ≡ some lease
      → lease.expire_at ≡ item.expire_at
      → ((id : ℤ) (other : Lease) → lookup id m ≡ some other → item.expire_at ≤ℤ other.expire_at)
      → Reports m (some item)

no_items : (m : Map ℤ Lease) → Perm [] (items_of m) → m ≡ []
no_items [] p = refl
no_items (entry ∷ m) p = cc (Perm.nil-eq p)

module _ (top : ℤ) (m : Map ℤ Lease) (item : LeaseItem) (rest : List LeaseItem)
    (listed : Listed top m) (s : IsScheduled m (item ∷ rest)) where
  first-least :
      (id : ℤ) (other : Lease) → lookup id m ≡ some other → item.expire_at ≤ℤ other.expire_at
  first-least id other found = elim (Option-cases (index_of id (item ∷ rest))) [
    | inl absent ↦ absurd (indexed top m (item ∷ rest) s listed id other found absent)
    | inr (i, at) ↦
        let (inside, same) = named top m (item ∷ rest) s listed id other found i at in
        let least = first_expires (item ∷ rest) i s.ordered inside in ground (arith, same, least)
  ]

reported :
    (top : ℤ) (m : Map ℤ Lease) (h : List LeaseItem)
    → Listed top m
    → IsScheduled m h
    → Reports m (elim h [ [] ↦ none | item ∷ rest ↦ some item ])
reported top m [] listed s = idle (no_items m s.agrees)
reported top m (item ∷ rest) listed s =
    let (lease, found, due) = leased top m (item ∷ rest) s 0 listed (omega arith) in
    first item lease found due (first-least top m item rest listed s)

pub HasLeases-Reports :
    (le : LeaseManager) → HasLeases le → Reports le.leases (get_expiring_lease le)
unfolding get_expiring_lease
HasLeases-Reports le h = reported le.lease_id le.leases le.heap h.listed h.scheduled

-- Whatever was done to the leases of a new manager, with positive times to live and expiries and
-- ids left, `GetExpiringLease` reports a lease of the table with its expiry, before which no lease
-- expires, or nothing where there is no lease.
pub get_expiring_lease-least :
    (le : LeaseManager) → Reaches new_lease_manager le → Reports le.leases (get_expiring_lease le)
unfolding new_lease_manager
get_expiring_lease-least le run = HasLeases-Reports le (Reaches-HasLeases no_leases run)
