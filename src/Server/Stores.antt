-- ===== src/Server/Stores.antt =====
-- What every replayed command of server/server.go keeps of the store: ascending histories under
-- the counter.
use wjetcd.Common.{
  ◌≡◌, refl, arith, true, false, inl, inr, ByteString, bytes, List, [], ◌∷◌, length, ℤ, pos, inc64,
  inc64_nonneg,
}
use wjetcd.Command.{
  CommandType, Command, cmd_put, cmd_get, cmd_delete, cmd_lease_grant, cmd_lease_revoke,
  cmd_lease_attach, cmd_lease_keep_alive, cmd_cas, cmd_delete_prefix, cmd_get_prefix, cmd_other,
}
use wjetcd.Kv.{
  KvStore, apply, set_key_lease, bury, bury_all, delete_key, delete_prefix, doomed_keys,
}
use wjetcd.Kv.Counter.{Spare, current_rev-bury}
use wjetcd.Kv.Valid.{IsValid, write_version-IsValid, apply-IsValid}
use wjetcd.Server.State.{Machine}
use wjetcd.Server.Recovery.{
  Recovered, recovered, failed, stuck, takes_revision, deletion, delete_revoked, revoked_keys,
  attach_recovered, cas_recovered, write_recovered, revoke_recovered, delete_prefix_recovered,
  grant_recovered, keep_alive_recovered, recover_typed,
}
use wjetcd.Server.Revisions.{InStep, Stamped, delete_revoked-InStep}

-- The store of what recovery gives is valid.
abbrev pub Stores : Recovered → Type 0
Stores (recovered m) = IsValid m.store
Stores failed = Unit {0}
Stores stuck = Unit {0}

-- The leases of the keys are no part of it.
set_key_lease-IsValid :
    (kv : KvStore) (key : ByteString) (id : ℤ) → IsValid kv → IsValid (set_key_lease kv key id)
unfolding set_key_lease
set_key_lease-IsValid kv key id v = record { counted = v.counted; ascending = v.ascending }

bury-IsValid :
    (kv : KvStore) (key : ByteString) → Spare 1 kv.current_rev → IsValid kv → IsValid (bury kv key)
unfolding bury delete_key
bury-IsValid kv key spare v =
    let w = write_version-IsValid kv key (pos 0) (bytes "") true (omega arith) (inl refl) v in
    record { counted = w.counted; ascending = w.ascending }

bury_all-IsValid :
    (ks : List ByteString) (kv : KvStore)
    → Spare (length ks) kv.current_rev
    → IsValid kv
    → IsValid (bury_all kv ks)
unfolding bury_all
bury_all-IsValid [] kv spare v = v
bury_all-IsValid (key ∷ rest) kv spare v =
    let one = current_rev-bury kv key (omega arith) in
    let next = inc64_nonneg kv.current_rev (omega arith) (omega arith) in
    bury_all-IsValid rest (bury kv key) (rw one (omega arith)) (bury-IsValid kv key (omega arith) v)

delete_revoked-IsValid :
    (ks : List ByteString) (m : Machine)
    → InStep m
    → Spare (length ks) m.current_rev
    → IsValid m.store
    → IsValid (delete_revoked m ks).store
unfolding delete_revoked
delete_revoked-IsValid [] m h spare v = v
delete_revoked-IsValid (key ∷ rest) m h spare v =
    let next = inc64_nonneg m.current_rev (omega arith) (omega arith) in
    let one = delete_revoked-InStep (key ∷ []) m h (omega arith) in
    let w =
      apply-IsValid m.store (deletion key (inc64 m.current_rev)) (omega arith) (inr (omega arith))
        v in
    delete_revoked-IsValid rest _ one (omega arith) w

module _ (m : Machine) (cmd : Command) (h : Stamped m cmd) (v : IsValid m.store) where
  applied-IsValid : IsValid (apply m.store cmd).0
  applied-IsValid = apply-IsValid m.store cmd (omega (arith, h)) (inr (rw h.0 h.2)) v

  write_recovered-IsValid : IsValid (write_recovered m cmd).store
  unfolding write_recovered
  write_recovered-IsValid = ground (
    arith,
    applied-IsValid,
    set_key_lease-IsValid (apply m.store cmd).0 cmd.key cmd.lease_id applied-IsValid,
  )

  attach_recovered-IsValid : IsValid (attach_recovered m cmd).store
  unfolding attach_recovered
  attach_recovered-IsValid =
      let labelled = set_key_lease m.store cmd.key cmd.lease_id in
      ground (
        arith,
        v,
        apply-IsValid labelled (record cmd { type = cmd_put })
            (unfold set_key_lease in omega (arith, h)) (unfold set_key_lease in inr (rw h.0 h.2))
            (set_key_lease-IsValid m.store cmd.key cmd.lease_id v),
      )

pub revised-Stores :
    (type : CommandType) (now : ℤ) (m : Machine) (cmd : Command)
    → takes_revision type ≡ true
    → Stamped m cmd
    → Spare (length (doomed_keys m.store cmd.prefix)) m.store.current_rev
    → IsValid m.store
    → Stores (recover_typed type now m cmd)
unfolding recover_typed takes_revision delete_prefix_recovered delete_prefix cas_recovered
revised-Stores cmd_put now m cmd t h spare v = write_recovered-IsValid m cmd h v
revised-Stores cmd_delete now m cmd t h spare v = write_recovered-IsValid m cmd h v
revised-Stores cmd_cas now m cmd t h spare v = applied-IsValid m cmd h v
revised-Stores cmd_lease_attach now m cmd t h spare v = attach_recovered-IsValid m cmd h v
revised-Stores cmd_delete_prefix now m cmd t h spare v =
    bury_all-IsValid (doomed_keys m.store cmd.prefix) m.store spare v
revised-Stores _ now m cmd t h spare v = cc

pub unrevised-Stores :
    (type : CommandType) (now : ℤ) (m : Machine) (cmd : Command)
    → takes_revision type ≡ false
    → InStep m
    → Spare (length (revoked_keys m.lease_mgr cmd).1) m.current_rev
    → IsValid m.store
    → Stores (recover_typed type now m cmd)
unfolding recover_typed takes_revision grant_recovered keep_alive_recovered revoke_recovered
unrevised-Stores cmd_lease_grant now m cmd t h spare v = v
unrevised-Stores cmd_lease_keep_alive now m cmd t h spare v = v
unrevised-Stores cmd_lease_revoke now m cmd t h spare v =
    delete_revoked-IsValid (revoked_keys m.lease_mgr cmd).1
      (record m { lease_mgr = (revoked_keys m.lease_mgr cmd).0 }) h spare v
unrevised-Stores cmd_get_prefix now m cmd t h spare v = v
unrevised-Stores cmd_get now m cmd t h spare v = tt
unrevised-Stores cmd_other now m cmd t h spare v = tt
unrevised-Stores _ now m cmd t h spare v = cc
