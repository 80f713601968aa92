-- ===== src/Server/Revisions.antt =====
-- The counters of server/server.go: the server's revision is never behind its store's.
use wjetcd.Common.{
  ◌≡◌, arith, inr, ByteString, List, [], ◌∷◌, length, pos, ◌≤ℤ◌, ◌<ℤ◌, max_int64, inc64,
  inc64_nonneg,
}
use wjetcd.Command.{Command, cmd_put}
use wjetcd.Kv.{KvStore, apply, set_key_lease, assign_rev}
use wjetcd.Kv.Counter.{Spare, current_rev-apply}
use wjetcd.Server.State.{Machine}
use wjetcd.Server.Recovery.{
  deletion, delete_revoked, catch_up_rev, attach_recovered, cas_recovered, write_recovered,
}

-- The store's counter is not negative, and not ahead of the server's.
abbrev pub InStep : Machine → Type 0
InStep m = (pos 0 ≤ℤ m.store.current_rev) × (m.store.current_rev ≤ℤ m.current_rev)

pub catch_up_rev-InStep : (m : Machine) → InStep m → catch_up_rev m ≡ m
unfolding catch_up_rev
catch_up_rev-InStep m h = ground arith

pub catch_up_rev-twice : (m : Machine) → catch_up_rev (catch_up_rev m) ≡ catch_up_rev m
unfolding catch_up_rev
catch_up_rev-twice m = ground arith

-- A command with a revision past the store's leaves its counter between the two.
applied-bounds :
    (kv : KvStore) (cmd : Command)
    → pos 0 ≤ℤ kv.current_rev
    → kv.current_rev <ℤ cmd.revision
    → cmd.revision <ℤ max_int64
    → (pos 0 ≤ℤ (apply kv cmd).0.current_rev) × ((apply kv cmd).0.current_rev ≤ℤ cmd.revision)
unfolding assign_rev
applied-bounds kv cmd low fresh top =
    let b = current_rev-apply kv cmd (omega arith) (inr fresh) in ground (arith, b)

-- The command carries the revision that the server just took, and that is past the store's.
abbrev pub Stamped : Machine → Command → Type 0
Stamped m cmd =
    (cmd.revision ≡ m.current_rev)
    × (pos 0 ≤ℤ m.store.current_rev)
    × (m.store.current_rev <ℤ m.current_rev)
    × (m.current_rev <ℤ max_int64)

module _ (m : Machine) (cmd : Command) (h : Stamped m cmd) where
  stored :
      (pos 0 ≤ℤ (apply m.store cmd).0.current_rev)
      × ((apply m.store cmd).0.current_rev ≤ℤ cmd.revision)
  stored = applied-bounds m.store cmd h.1 (rw h.0 h.2) (rw h.0 h.3)

  pub write_recovered-InStep : InStep (write_recovered m cmd)
  unfolding write_recovered set_key_lease
  write_recovered-InStep = ground (arith, stored, h.0)

  pub cas_recovered-InStep : InStep (cas_recovered m cmd)
  unfolding cas_recovered
  cas_recovered-InStep = ground (arith, stored, h.0)

  pub attach_recovered-InStep : InStep (attach_recovered m cmd)
  unfolding attach_recovered
  attach_recovered-InStep = ground (
    arith,
    applied-bounds (set_key_lease m.store cmd.key cmd.lease_id) (record cmd { type = cmd_put })
        (unfold set_key_lease in h.1) (unfold set_key_lease in rw h.0 h.2) (rw h.0 h.3),
    h,
  )

pub delete_revoked-InStep :
    (ks : List ByteString) (m : Machine)
    → InStep m
    → Spare (length ks) m.current_rev
    → InStep (delete_revoked m ks)
unfolding delete_revoked
delete_revoked-InStep [] m h spare = h
delete_revoked-InStep (key ∷ rest) m h spare =
    let next = inc64_nonneg m.current_rev (omega arith) (omega arith) in
    let b =
      applied-bounds m.store (deletion key (inc64 m.current_rev)) h.0 (omega arith) (omega arith) in
    delete_revoked-InStep rest _ b (omega arith)
