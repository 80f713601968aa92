-- ===== src/Lock/Leases.antt =====
-- What the lock manager's calls of the lease manager leave alive.
use wjetcd.Common.{
  ◌≡◌, refl, arith, true, false, Option-cases, inl, inr, bytes_key, ℤ, eqb_ℤ, int_eq, inc64, lookup,
  lookup-insert, lookup-delete,
}
use wjetcd.Lease.{expiry_after, LeaseManager, get_lease, grant, revoke_lease, keep_alive}
use wjetcd.Lock.{lease_lives}

pub revoke_lease-lives :
    (le : LeaseManager) (id other : ℤ)
    → eqb_ℤ other id ≡ false
    → lease_lives (revoke_lease le other).0 id ≡ lease_lives le id
unfolding revoke_lease get_lease
revoke_lease-lives le id other h = ground (arith, h, lookup-delete other id le.leases)

pub keep_alive-lives :
    (now : ℤ) (le : LeaseManager) (id other ttl : ℤ)
    → lease_lives le id ≡ true
    → lease_lives (keep_alive now le other ttl).0 id ≡ true
unfolding keep_alive get_lease wjetcd.Lease.keep_alive_until lookup
keep_alive-lives now le id other ttl h = elim (Option-cases (lookup other le.leases)) [
  | inl gone ↦ rw (lease_lives, keep_alive, gone) h
  | inr (lease, found) ↦
      let new = record lease { ttl = ttl; expire_at = expiry_after now ttl } in
      rw (lease_lives, keep_alive, found) (ground (arith, h, lookup-insert other id new le.leases))
]

pub keep_alive-counter :
    (now : ℤ) (le : LeaseManager) (other ttl : ℤ)
    → (keep_alive now le other ttl).0.lease_id ≡ le.lease_id
unfolding keep_alive wjetcd.Lease.keep_alive_until
keep_alive-counter now le other ttl = ground arith

pub revoke_lease-counter :
    (le : LeaseManager) (other : ℤ) → (revoke_lease le other).0.lease_id ≡ le.lease_id
unfolding revoke_lease
revoke_lease-counter le other = ground arith

pub grant-counter :
    (now : ℤ) (le : LeaseManager) (ttl : ℤ) → (grant now le ttl).0.lease_id ≡ inc64 le.lease_id
unfolding grant inc64 wjetcd.Lease.grant_until
grant-counter now le ttl = refl
