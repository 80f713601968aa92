-- ===== src/Server/Persist/Snapshots.antt =====
-- server/server.go: a server's state that goes through a snapshot.
use wjetcd.Common.{
  ◌≡◌, ◌≢◌, refl, sym, ap, ◌∙◌, arith, false, ByteString, bytes_eq, [], ◌∷◌, some, max_ℤ,
}
use wjetcd.Kv.{take_snapshot, snapshot, restore}
use wjetcd.Kv.Valid.{IsValid}
use wjetcd.Kv.Restore.{restore-snapshot}
use wjetcd.Lease.{take_lease_snapshot, restore_leases}
use wjetcd.Lease.Table.{HasLeases}
use wjetcd.Lease.Checkpoint.{reheaped, restore_leases-snapshot}
use wjetcd.Server.State.{Machine}
use wjetcd.Server.Revisions.{InStep}
use wjetcd.Server.Persist.{
  Codecs, restore_state, restore_store, with_store, with_leases, restore_lease_part, is_blank,
  take_rev, state_of,
}

-- What the code relies on of the codecs for the parts of one machine's snapshot: they are not
-- empty, and decoding gives back what was encoded.
pub record Encodes (codecs : Codecs) (m : Machine) : Type 0 where
  pub store_back :
      codecs.unmarshal_store (codecs.marshal_store (take_snapshot m.store))
      ≡ some (take_snapshot m.store)
  pub store_filled : codecs.marshal_store (take_snapshot m.store) ≢ []
  pub leases_back :
      codecs.unmarshal_leases (codecs.marshal_leases (take_lease_snapshot m.lease_mgr))
      ≡ some (take_lease_snapshot m.lease_mgr)
  pub leases_filled : codecs.marshal_leases (take_lease_snapshot m.lease_mgr) ≢ []
  pub content : ByteString
  pub encoded : codecs.marshal_state (state_of codecs m) ≡ some content
  pub filled : content ≢ []
  pub state_back : codecs.unmarshal_state content ≡ some (state_of codecs m)

-- A machine that a snapshot can hold.
pub record IsKept (m : Machine) : Type 0 where
  pub store : IsValid m.store
  pub leases : HasLeases m.lease_mgr
  pub in_step : InStep m

-- The machine after a snapshot: the heap is built anew from the leases.
abbrev pub rebuilt_machine : Machine → Machine
rebuilt_machine m = record m { lease_mgr = reheaped m.lease_mgr }

module _ (codecs : Codecs) (m old : Machine) (c : Encodes codecs m) (k : IsKept m) where
  restore_store-encoded :
      (s : ByteString)
      → codecs.marshal_store (take_snapshot m.store) ≡ s
      → s ≢ []
      → restore_store codecs old s ≡ some (record old { store = m.store })
  unfolding restore_store snapshot with_store
  restore_store-encoded [] e f = elim (f refl) [ ]
  restore_store-encoded (b ∷ s) e f = ap (with_store old) (
      ap (restore codecs.unmarshal_store old.store) (sym e)
      ∙ restore-snapshot codecs.marshal_store codecs.unmarshal_store m.store old.store c.store_back
          k.store)

  restore_lease_part-encoded :
      (s : ByteString)
      → codecs.marshal_leases (take_lease_snapshot m.lease_mgr) ≡ s
      → s ≢ []
      → restore_lease_part codecs old s ≡ some (record old { lease_mgr = reheaped m.lease_mgr })
  unfolding restore_lease_part with_leases
  restore_lease_part-encoded [] e f = elim (f refl) [ ]
  restore_lease_part-encoded (b ∷ s) e f = ap (with_leases old) (
      ap (restore_leases codecs.unmarshal_leases old.lease_mgr) (sym e)
      ∙ restore_leases-snapshot codecs.marshal_leases codecs.unmarshal_leases m.lease_mgr
          old.lease_mgr c.leases_back k.leases)

pub filled-bytes_eq : (s : ByteString) → s ≢ [] → bytes_eq s [] ≡ false
unfolding bytes_eq
filled-bytes_eq [] f = elim (f refl) [ ]
filled-bytes_eq (b ∷ s) f = refl

-- Over any machine, a kept machine's snapshot restores to it, with the heap built anew.
pub restore_state-state_of :
    (codecs : Codecs) (m old : Machine)
    → Encodes codecs m
    → IsKept m
    → restore_state codecs old (state_of codecs m) ≡ some (rebuilt_machine m)
unfolding restore_state state_of snapshot is_blank take_rev
restore_state-state_of codecs m old c k =
    let top : max_ℤ (max_ℤ m.current_rev m.store.current_rev) m.store.current_rev ≡ m.current_rev =
      ground (arith, k.in_step.1) in
    rw
      (
        restore_state,
        filled-bytes_eq _ c.store_filled,
        restore_store-encoded codecs m old c k _ refl c.store_filled,
        restore_lease_part-encoded codecs m (record old { store = m.store }) c k _ refl
            c.leases_filled,
        top,
      )
      refl
