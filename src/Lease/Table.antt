-- ===== src/Lease/Table.antt =====
-- The table of leases of server/server.go: what every operation on it keeps.
use mathlib.Core.List.Perm
use mathlib.Core.Path.{subst, sym, ◌∙◌}
use wjetcd.Common.{
  ◌≡◌, refl, ap, arith, false, inl, inr, ByteString, bytes_key, [], ◌∷◌, some, Option-cases,
  Bool-cases, ℤ, pos, ◌≤ℤ◌, ◌<ℤ◌, ltb_ℤ, List, max_int64, inc64, inc64_nonneg, eqb_ℤ, eqb_ℤ_iff,
  int_eq, Map, lookup, insert, delete, lookup-insert, lookup-delete,
}
use wjetcd.Lease.Entries.{IsGood, Listed, some-injective, lookup-Listed, fresh-Listed}
use wjetcd.Lease.Heap.{LeaseItem}
use wjetcd.Lease.Schedule.{
  IsScheduled, grow-IsScheduled, keep-IsScheduled, reschedule-IsScheduled, unschedule-IsScheduled,
  unschedule_first-IsScheduled,
}
use wjetcd.Lease.{
  remove_expired_lease, Lease, LeaseManager, attach, revoke, holder, revoke_lease,
  revoke_lease_if_matches, keep_alive_until, grant_until,
}

pub record HasLeases (le : LeaseManager) : Type 0 where
  pub counted : pos 0 ≤ℤ le.lease_id
  pub listed : Listed le.lease_id le.leases
  pub scheduled : IsScheduled le.leases le.heap

insert-Listed :
    (top : ℤ) (m : Map ℤ Lease) (id : ℤ) (lease : Lease)
    → Listed top m
    → IsGood top id lease
    → Listed top (insert id lease m)
unfolding insert lookup
insert-Listed top [] id lease h g = (g, refl, tt)
insert-Listed top ((j, l) ∷ m) id lease h g = elim (Bool-cases (eqb_ℤ j id)) [
  | inl t ↦ rw t (subst (λ i. IsGood top i lease) (sym ((eqb_ℤ_iff j id).0 t)) g, h.1, h.2)
  | inr f ↦
      let apart : eqb_ℤ id j ≡ false = ground (arith, eqb_ℤ_iff j id, eqb_ℤ_iff id j) in
      rw f (h.0, lookup-insert id j lease m ∙ rw apart h.1, insert-Listed top m id lease h.2 g)
]

delete-Listed : (top : ℤ) (m : Map ℤ Lease) (id : ℤ) → Listed top m → Listed top (delete id m)
unfolding delete
delete-Listed top [] id h = tt
delete-Listed top ((j, l) ∷ m) id h = elim (Bool-cases (eqb_ℤ j id)) [
  | inl t ↦ rw t (delete-Listed top m id h.2)
  | inr f ↦
      let apart : eqb_ℤ id j ≡ false = ground (arith, eqb_ℤ_iff j id, eqb_ℤ_iff id j) in
      rw f (h.0, lookup-delete id j m ∙ rw apart h.1, delete-Listed top m id h.2)
]

raise-Listed : (top top' : ℤ) (m : Map ℤ Lease) → top ≤ℤ top' → Listed top m → Listed top' m
raise-Listed top top' [] up h = tt
raise-Listed top top' ((j, l) ∷ m) up h =
    let g = h.0 in
    (
      record {
        own_id = g.own_id;
        positive = g.positive;
        counted = omega (arith, g.counted);
        lives = g.lives;
        expires = g.expires;
      },
      h.1,
      raise-Listed top top' m up h.2,
    )

holder-Listed :
    (top : ℤ) (key : ByteString) (m : Map ℤ Lease) (id : ℤ) (lease : Lease)
    → Listed top m
    → holder key m ≡ some (id, lease)
    → IsGood top id lease
unfolding holder
holder-Listed top key [] id lease h e = cc
holder-Listed top key ((j, l) ∷ m) id lease h e = elim (Option-cases (lookup key l.attached)) [
  | inl n ↦ holder-Listed top key m id lease h.2 (rw (holder, n) at e)
  | inr (v, s) ↦ subst (λ p. IsGood top p.0 p.1) (some-injective (rw (holder, s) at e)) h.0
]

-- A manager without leases.
pub no_leases : HasLeases (record { leases = []; lease_id = pos 0; heap = [] })
no_leases = record {
  counted = omega arith;
  listed = tt;
  scheduled = record { ordered = λ c p q r. absurd (omega arith); agrees = Perm.rfl };
}

-- The lease that a key is attached to is in the table under its id.
holder-lookup :
    (top : ℤ) (key : ByteString) (m : Map ℤ Lease) (id : ℤ) (lease : Lease)
    → Listed top m
    → holder key m ≡ some (id, lease)
    → lookup id m ≡ some lease
unfolding holder lookup
holder-lookup top key [] id lease h e = cc
holder-lookup top key ((j, l) ∷ m) id lease h e = elim (Option-cases (lookup key l.attached)) [
  | inl n ↦
      let deeper = holder-lookup top key m id lease h.2 (rw (holder, n) at e) in
      elim (Bool-cases (eqb_ℤ j id)) [
        | inl t ↦ cc (deeper, rw ((eqb_ℤ_iff j id).0 t) at h.1)
        | inr f ↦ rw f deeper
      ]
  | inr (v, s) ↦
      let same = some-injective (rw (holder, s) at e) in
      ground (arith, ap (λ p. p.0) same, ap (λ p. p.1) same, eqb_ℤ_iff j id)
]

reattached :
    (top id : ℤ) (lease : Lease) (attached : Map ByteString ByteString)
    → IsGood top id lease
    → IsGood top id (record lease { attached = attached })
reattached top id lease attached g = record {
  own_id = g.own_id;
  positive = g.positive;
  counted = g.counted;
  lives = g.lives;
  expires = g.expires;
}

pub revoke-HasLeases :
    (le : LeaseManager) (key : ByteString) → HasLeases le → HasLeases (revoke le key).0
unfolding revoke
revoke-HasLeases le key h = elim (Option-cases (holder key le.leases)) [
  | inl e ↦ rw (revoke, e) h
  | inr ((id, lease), e) ↦
      rw (revoke, e)
        (record {
          counted = h.counted;
          listed =
              insert-Listed le.lease_id le.leases id
                (record lease { attached = delete key lease.attached }) h.listed
                (reattached le.lease_id id lease (delete key lease.attached)
                  (holder-Listed le.lease_id key le.leases id lease h.listed e));
          scheduled =
              keep-IsScheduled le.lease_id le.leases le.heap h.scheduled h.listed id lease
                (holder-lookup le.lease_id key le.leases id lease h.listed e)
                (record lease { attached = delete key lease.attached }) refl;
        })
]

pub attach-HasLeases :
    (le : LeaseManager) (id : ℤ) (key value : ByteString)
    → HasLeases le
    → HasLeases (attach le id key value)
unfolding attach
attach-HasLeases le id key value h = elim (Option-cases (lookup id le.leases)) [
  | inl e ↦ rw (attach, e) h
  | inr (lease, e) ↦
      rw (attach, e)
        (record {
          counted = h.counted;
          listed =
              insert-Listed le.lease_id le.leases id
                (record lease { attached = insert key value lease.attached }) h.listed
                (reattached le.lease_id id lease (insert key value lease.attached)
                  (lookup-Listed le.lease_id le.leases id lease h.listed e));
          scheduled =
              keep-IsScheduled le.lease_id le.leases le.heap h.scheduled h.listed id lease e
                (record lease { attached = insert key value lease.attached }) refl;
        })
]

pub keep_alive_until-HasLeases :
    (le : LeaseManager) (id ttl expire_at : ℤ)
    → pos 0 <ℤ ttl
    → pos 0 <ℤ expire_at
    → HasLeases le
    → HasLeases (keep_alive_until le id ttl expire_at).0
unfolding keep_alive_until
keep_alive_until-HasLeases le id ttl expire_at long after h =
    elim (Option-cases (lookup id le.leases)) [
      | inl e ↦ rw (keep_alive_until, e) h
      | inr (lease, e) ↦
          rw (keep_alive_until, e)
            (record {
              counted = h.counted;
              listed =
                  (let g = lookup-Listed le.lease_id le.leases id lease h.listed e in
                    insert-Listed le.lease_id le.leases id
                      (record lease { ttl = ttl; expire_at = expire_at }) h.listed
                      (record {
                        own_id = g.own_id;
                        positive = g.positive;
                        counted = g.counted;
                        lives = long;
                        expires = after;
                      }));
              scheduled =
                  reschedule-IsScheduled le.lease_id le.leases le.heap h.scheduled h.listed id lease
                    e (record lease { ttl = ttl; expire_at = expire_at })
                    (lookup-Listed le.lease_id le.leases id lease h.listed e).own_id;
            })
    ]

pub grant_until-HasLeases :
    (le : LeaseManager) (ttl expire_at : ℤ)
    → pos 0 <ℤ ttl
    → pos 0 <ℤ expire_at
    → le.lease_id <ℤ max_int64
    → HasLeases le
    → HasLeases (grant_until le ttl expire_at).0
unfolding grant_until
grant_until-HasLeases le ttl expire_at long after room h =
    let next = inc64_nonneg le.lease_id h.counted room in
    record {
      counted = omega (arith, next);
      listed =
          insert-Listed (inc64 le.lease_id) le.leases (inc64 le.lease_id) _
            (raise-Listed le.lease_id (inc64 le.lease_id) le.leases (omega (arith, next)) h.listed)
            (record {
              own_id = refl;
              positive = omega (arith, next);
              counted = omega arith;
              lives = long;
              expires = after;
            });
      scheduled =
          grow-IsScheduled le.lease_id le.leases le.heap h.scheduled (inc64 le.lease_id) _
            (fresh-Listed le.lease_id le.leases (inc64 le.lease_id) h.listed (omega (arith, next)));
    }

pub revoke_lease-HasLeases :
    (le : LeaseManager) (id : ℤ) → HasLeases le → HasLeases (revoke_lease le id).0
unfolding revoke_lease
revoke_lease-HasLeases le id h = elim (Option-cases (lookup id le.leases)) [
  | inl e ↦ rw (revoke_lease, e) h
  | inr (lease, e) ↦
      rw (revoke_lease, e)
        (record {
          counted = h.counted;
          listed = delete-Listed le.lease_id le.leases id h.listed;
          scheduled =
              unschedule-IsScheduled le.lease_id le.leases le.heap h.scheduled h.listed id lease e;
        })
]

pub revoke_lease_if_matches-HasLeases :
    (le : LeaseManager) (id expire_at : ℤ)
    → HasLeases le
    → HasLeases (revoke_lease_if_matches le id expire_at).0
unfolding revoke_lease_if_matches
revoke_lease_if_matches-HasLeases le id expire_at h = elim (Option-cases (lookup id le.leases)) [
  | inl e ↦ rw (revoke_lease_if_matches, e) h
  | inr (lease, e) ↦ elim (Bool-cases (eqb_ℤ lease.expire_at expire_at)) [
    | inl same ↦ rw (revoke_lease_if_matches, e, same) (revoke_lease-HasLeases le id h)
    | inr other ↦ rw (revoke_lease_if_matches, e, other) h
  ]
]

pub remove_expired_lease-HasLeases :
    (now : ℤ) (le : LeaseManager) → HasLeases le → HasLeases (remove_expired_lease now le).0
unfolding remove_expired_lease
remove_expired_lease-HasLeases now le h = removed le.heap refl
  where
    removed : (items : List LeaseItem) → le.heap ≡ items → HasLeases (remove_expired_lease now le).0
    removed [] e = rw (remove_expired_lease, e) h
    removed (item ∷ rest) e = elim (Bool-cases (ltb_ℤ now item.expire_at)) [
      | inl later ↦ rw (remove_expired_lease, e, later) h
      | inr due ↦ elim (Option-cases (lookup item.id le.leases)) [
        | inl absent ↦ rw (remove_expired_lease, e, due, absent) h
        | inr (lease, found) ↦
            rw (remove_expired_lease, e, due, found)
              (record {
                counted = h.counted;
                listed = delete-Listed le.lease_id le.leases item.id h.listed;
                scheduled =
                    unschedule_first-IsScheduled le.lease_id le.leases le.heap h.scheduled h.listed
                      item.id lease found (rw e (omega arith)) (rw e refl);
              })
      ]
    ]
