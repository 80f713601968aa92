-- ===== src/Server/Cleanup/Round.antt =====
-- server/server.go: one round of `cleanupExpiredLeases`, when the loop applies its command.
use mathlib.Core.Path.{subst}
use wjetcd.Common.{
  ◌≡◌, refl, sym, ap, ◌∙◌, arith, Bool, true, false, if◌then◌else◌, ◌||◌, Option, none, some, List,
  [], ◌∷◌, ◌++◌, ByteString, bytes, bytes_eq, inc64, keys, sort_strings, ℤ, pos, ltb_ℤ, eqb_ℤ_iff,
  int_eq, lookup,
}
use wjetcd.Kv.Prefix.{live, live-apply_delete, contains, contains-sort_strings}
use wjetcd.Command.{Command, cmd_lease_revoke}
use wjetcd.Lease.{Lease, LeaseManager, revoke_lease, revoke_lease_if_matches}
use wjetcd.Lease.Heap.{LeaseItem}
use wjetcd.Lease.Entries.{lookup-Listed}
use wjetcd.Lease.Table.{HasLeases}
use wjetcd.Server.State.{Server, notify_watchers, notify_reply, text}
use wjetcd.Server.Recovery.{deletion, takes_revision, revoked_keys}
use wjetcd.Server.Loop.{
  server_of, apply_command, journal_and_execute, stamp, execute_typed, live_revoke,
  delete_and_notify, finish,
}
use wjetcd.Server.Health.{journal_writes, execute_typed-Keeps}
use wjetcd.Server.Submit.{register}
use wjetcd.Server.Cleanup.{revocation}

delete_and_notify-leases :
    (keys : List ByteString) (s : Server) → (delete_and_notify s keys).lease_mgr ≡ s.lease_mgr
unfolding delete_and_notify notify_watchers
delete_and_notify-leases [] s = refl
delete_and_notify-leases (key ∷ rest) s = delete_and_notify-leases rest _

either_or :
    (a b : Bool) (o : Option ByteString)
    → (if a then none else if b then none else o) ≡ (if b || a then none else o)
either_or a b o = ground arith

delete_and_notify-live :
    (ks : List ByteString) (s : Server) (j : ByteString)
    → live (delete_and_notify s ks).store j ≡ (if contains ks j then none else live s.store j)
unfolding delete_and_notify notify_watchers contains
delete_and_notify-live [] s j = refl
delete_and_notify-live (key ∷ rest) s j =
    delete_and_notify-live rest _ j
    ∙ ap (λ o. if contains rest j then none else o)
        (live-apply_delete s.store (deletion key (inc64 s.machine.current_rev)) j refl)
    ∙ either_or (contains rest j) (bytes_eq key j) (live s.store j)

matching :
    (le : LeaseManager) (id expire_at : ℤ) (lease : Lease)
    → lookup id le.leases ≡ some lease
    → lease.expire_at ≡ expire_at
    → revoke_lease_if_matches le id expire_at ≡ revoke_lease le id
unfolding revoke_lease_if_matches
matching le id expire_at lease found same =
    rw (revoke_lease_if_matches, found, (eqb_ℤ_iff lease.expire_at expire_at).1 same) refl

revoke_lease-keys :
    (le : LeaseManager) (id : ℤ) (lease : Lease)
    → lookup id le.leases ≡ some lease
    → (revoke_lease le id).1 ≡ sort_strings (keys lease.attached)
unfolding revoke_lease
revoke_lease-keys le id lease found = rw (revoke_lease, found) refl

-- A lease that the manager holds, with the expiry of the item.
pub record IsDue (le : LeaseManager) (item : LeaseItem) : Type 0 where
  pub lease : Lease
  pub found : lookup item.id le.leases ≡ some lease
  pub same : lease.expire_at ≡ item.expire_at

module _ (s : Server) (item : LeaseItem) (h : HasLeases s.lease_mgr)
    (due : IsDue s.lease_mgr item) where
  live_revoke-leases :
      (live_revoke s (revocation item)).lease_mgr ≡ (revoke_lease s.lease_mgr item.id).0
  unfolding live_revoke revoked_keys
  live_revoke-leases =
      let good =
        lookup-Listed s.lease_mgr.lease_id s.lease_mgr.leases item.id due.lease h.listed
          due.found in
      let positive : ltb_ℤ (pos 0) item.id ≡ true = ground (arith, good.positive) in
      let dated : ltb_ℤ (pos 0) item.expire_at ≡ true = ground (arith, good.expires, due.same) in
      rw (positive, dated, matching s.lease_mgr item.id item.expire_at due.lease due.found due.same)
        (delete_and_notify-leases (revoke_lease s.lease_mgr item.id).1 _)

  live_revoke-live :
      (j : ByteString)
      → live (live_revoke s (revocation item)).store j
        ≡ (if contains (keys due.lease.attached) j then none else live s.store j)
  unfolding live_revoke revoked_keys
  live_revoke-live j =
      let good =
        lookup-Listed s.lease_mgr.lease_id s.lease_mgr.leases item.id due.lease h.listed
          due.found in
      let positive : ltb_ℤ (pos 0) item.id ≡ true = ground (arith, good.positive) in
      let dated : ltb_ℤ (pos 0) item.expire_at ≡ true = ground (arith, good.expires, due.same) in
      rw
        (
          positive,
          dated,
          matching s.lease_mgr item.id item.expire_at due.lease due.found due.same,
          delete_and_notify-live (revoke_lease s.lease_mgr item.id).1 _ j,
          revoke_lease-keys s.lease_mgr item.id due.lease due.found,
        )
        (rw (contains-sort_strings (keys due.lease.attached) j) refl)

-- The loop's server after a command that revoked a lease.
pub record Revoked (s s' : Server) (id : ℤ) (lease : Lease) : Type 0 where
  pub leases : s'.lease_mgr ≡ (revoke_lease s.lease_mgr id).0
  pub healthy : s'.persistence_failed ≡ false
  pub values :
      (j : ByteString)
      → live s'.store j ≡ (if contains (keys lease.attached) j then none else live s.store j)

finish-store :
    (index : ℤ) (s : Server) → (server_of (finish index s (text (bytes "OK")))).store ≡ s.store
unfolding finish notify_reply
finish-store index s = ground arith

finish-leases :
    (index : ℤ) (s : Server)
    → (server_of (finish index s (text (bytes "OK")))).lease_mgr ≡ s.lease_mgr
unfolding finish notify_reply
finish-leases index s = ground arith

executed :
    (index : ℤ) (s : Server) (item : LeaseItem)
    → s.persistence_failed ≡ false
    → HasLeases s.lease_mgr
    → (due : IsDue s.lease_mgr item)
    → Revoked s
        (server_of (execute_typed cmd_lease_revoke index s (revocation item)))
        item.id
        due.lease
unfolding execute_typed
executed index s item healthy h due = record {
  leases = finish-leases index (live_revoke s (revocation item)) ∙ live_revoke-leases s item h due;
  values = λ j.
      ap (λ kv. live kv j) (finish-store index (live_revoke s (revocation item)))
      ∙ live_revoke-live s item h due j;
  healthy =
      ap (λ j. j.1) (execute_typed-Keeps cmd_lease_revoke index s (revocation item)) ∙ healthy;
}

not_journalled :
    (index : ℤ) (s : Server) (cmd : Command)
    → s.persistence_failed ≡ false
    → s.wal ≡ none
    → journal_and_execute true index s cmd ≡ execute_typed cmd.type index s cmd
unfolding journal_and_execute
not_journalled index s cmd healthy e = ground arith

journalled :
    (wal : Option (List Command)) (index : ℤ) (s : Server) (item : LeaseItem)
    → s.wal ≡ wal
    → s.persistence_failed ≡ false
    → HasLeases s.lease_mgr
    → (due : IsDue s.lease_mgr item)
    → Revoked s (server_of (journal_and_execute true index s (revocation item))) item.id due.lease
journalled none index s item e healthy h due =
    subst (λ out. Revoked s (server_of out) item.id due.lease)
      (sym (not_journalled index s (revocation item) healthy e))
      (executed index s item healthy h due)
journalled (some log) index s item e healthy h due =
    let written = record s { wal = some (log ++ revocation item ∷ []) } in
    let r = executed index written item healthy h due in
    subst (λ out. Revoked s (server_of out) item.id due.lease)
      (sym (journal_writes index s (revocation item) log healthy e))
      (record { leases = r.leases; healthy = r.healthy; values = r.values })

-- A revocation that the loop applies takes the lease.
pub applied :
    (now index : ℤ) (s : Server) (item : LeaseItem)
    → s.persistence_failed ≡ false
    → HasLeases s.lease_mgr
    → (due : IsDue s.lease_mgr item)
    → Revoked s
        (server_of (apply_command now true index (register index s) (revocation item)))
        item.id
        due.lease
unfolding apply_command stamp register takes_revision
applied now index s item healthy h due =
    let s1 = register index s in
    let r = journalled s1.wal index s1 item refl healthy h due in
    record { leases = r.leases; healthy = r.healthy; values = r.values }
