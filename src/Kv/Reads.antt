-- ===== src/Kv/Reads.antt =====
-- What `GetAtRevision` of kv/store.go sees after a command was applied.
use wjetcd.Common.{
  ◌≡◌, refl, ap, Bool, true, false, arith, if◌then◌else◌, ◌⊎◌, ByteString, bytes, bytes_eq, ℤ, pos,
  ◌≤ℤ◌, ◌<ℤ◌, max_int64, inc64_parts, Map, ◌∙◌,
}
use wjetcd.Command.{CommandType, Command, cmd_put, cmd_delete, cmd_lease_attach, cmd_cas}
use wjetcd.Kv.{
  KvStore, done, assign_rev, write_version, get_at_revision, apply, apply_typed, apply_put,
  apply_delete, apply_cas, apply_lease_attach, set_key_lease,
}
use wjetcd.Kv.History.{get_at_revision-write_version}

-- The command asks for the next revision, or brings one past the store's.
abbrev pub IsFresh : KvStore → ℤ → Type 0
IsFresh kv rev = (rev ≡ pos 0) ⊎ (kv.current_rev <ℤ rev)

-- The store's counter is in range and not at its top.
abbrev pub HasRoom : KvStore → Type 0
HasRoom kv = (pos 0 ≤ℤ kv.current_rev) × (kv.current_rev <ℤ max_int64)

pub assign_rev-fresh :
    (kv : KvStore) (rev : ℤ) → HasRoom kv → IsFresh kv rev → kv.current_rev <ℤ assign_rev kv rev
unfolding assign_rev
assign_rev-fresh kv rev room fresh = ground (arith, inc64_parts kv.current_rev)

-- A write with a fresh revision is not seen by a read at a revision that was already current.
write_version-stable :
    (kv : KvStore) (k j : ByteString) (rev : ℤ) (value : ByteString) (tombstone : Bool) (at : ℤ)
    → HasRoom kv
    → IsFresh kv rev
    → pos 0 <ℤ at
    → at ≤ℤ kv.current_rev
    → get_at_revision (write_version kv k rev value tombstone) j at ≡ get_at_revision kv j at
write_version-stable kv k j rev value tombstone at room fresh low high = ground (
  arith,
  get_at_revision-write_version kv k j rev value tombstone at,
  assign_rev-fresh kv rev room fresh,
)

set_key_lease-read :
    (kv : KvStore) (k j : ByteString) (id at : ℤ)
    → get_at_revision (set_key_lease kv k id) j at ≡ get_at_revision kv j at
unfolding get_at_revision set_key_lease
set_key_lease-read kv k j id at = refl

with_leases-read :
    (kv : KvStore) (leases : Map ByteString ℤ) (j : ByteString) (at : ℤ)
    → get_at_revision (record kv { key2lease = leases }) j at ≡ get_at_revision kv j at
unfolding get_at_revision
with_leases-read kv leases j at = refl

apply_typed-stable :
    (type : CommandType) (kv : KvStore) (cmd : Command) (j : ByteString) (at : ℤ)
    → HasRoom kv
    → IsFresh kv cmd.revision
    → pos 0 <ℤ at
    → at ≤ℤ kv.current_rev
    → get_at_revision (apply_typed type kv cmd).0 j at ≡ get_at_revision kv j at
unfolding apply_typed apply_put apply_delete apply_cas apply_lease_attach
apply_typed-stable cmd_put kv cmd j at room fresh low high =
    with_leases-read (write_version kv cmd.key cmd.revision cmd.value false) _ j at
    ∙ write_version-stable kv cmd.key j cmd.revision cmd.value false at room fresh low high
apply_typed-stable cmd_delete kv cmd j at room fresh low high =
    with_leases-read (write_version kv cmd.key cmd.revision (bytes "") true) _ j at
    ∙ write_version-stable kv cmd.key j cmd.revision (bytes "") true at room fresh low high
apply_typed-stable cmd_cas kv cmd j at room fresh low high =
    ground
      (arith, write_version-stable kv cmd.key j cmd.revision cmd.value false at room fresh low high)
apply_typed-stable cmd_lease_attach kv cmd j at room fresh low high = ground (
  arith,
  write_version-stable (set_key_lease kv cmd.key cmd.lease_id) cmd.key j cmd.revision cmd.value
      false at (unfold set_key_lease in room) (unfold set_key_lease in fresh) low
      (unfold set_key_lease in high),
  set_key_lease-read kv cmd.key j cmd.lease_id at,
)
apply_typed-stable _ kv cmd j at room fresh low high = refl

-- No command changes what a read at an already current revision returns, provided that its own
-- revision is fresh and the counter is not at the top of its range.
pub snapshot_read_stable :
    (kv : KvStore) (cmd : Command) (j : ByteString) (at : ℤ)
    → HasRoom kv
    → IsFresh kv cmd.revision
    → pos 0 <ℤ at
    → at ≤ℤ kv.current_rev
    → get_at_revision (apply kv cmd).0 j at ≡ get_at_revision kv j at
unfolding apply
snapshot_read_stable kv cmd j at room fresh low high =
    apply_typed-stable cmd.type kv cmd j at room fresh low high

assign_rev-le-max :
    (kv : KvStore) (rev : ℤ) → HasRoom kv → rev ≤ℤ max_int64 → assign_rev kv rev ≤ℤ max_int64
unfolding assign_rev
assign_rev-le-max kv rev room h = ground (arith, inc64_parts kv.current_rev)

latest_read :
    (kv : KvStore) (k j : ByteString) (rev : ℤ) (value : ByteString) (tombstone : Bool)
    → HasRoom kv
    → rev ≤ℤ max_int64
    → get_at_revision (write_version kv k rev value tombstone) j (pos 0) ≡ (
        if bytes_eq k j
        then (if tombstone then bytes "" else value, assign_rev kv rev)
        else get_at_revision kv j (pos 0))
latest_read kv k j rev value tombstone room h = ground (
  arith,
  get_at_revision-write_version kv k j rev value tombstone (pos 0),
  assign_rev-le-max kv rev room h,
)

module _ (kv : KvStore) (cmd : Command) (j : ByteString) (room : HasRoom kv)
    (h : cmd.revision ≤ℤ max_int64) where
  -- After CmdPut a read of the latest revision gives the written value and the assigned revision
  -- at the command's key, and what it gave before at every other key, if the counter is not at the
  -- top of its range and the command's revision is an `int64`.
  pub read_after_put :
      cmd.type ≡ cmd_put
      → get_at_revision (apply kv cmd).0 j (pos 0) ≡ (
          if bytes_eq cmd.key j
          then (cmd.value, assign_rev kv cmd.revision)
          else get_at_revision kv j (pos 0))
  unfolding apply apply_typed apply_put
  read_after_put e =
      rw (e, apply_typed)
        (with_leases-read (write_version kv cmd.key cmd.revision cmd.value false) _ j (pos 0)
          ∙ latest_read kv cmd.key j cmd.revision cmd.value false room h)

  -- After CmdDelete a read of the latest revision gives the empty string and the assigned revision
  -- at the command's key, and what it gave before at every other key, if the counter is not at the
  -- top of its range and the command's revision is an `int64`.
  pub read_after_delete :
      cmd.type ≡ cmd_delete
      → get_at_revision (apply kv cmd).0 j (pos 0) ≡ (
          if bytes_eq cmd.key j
          then (bytes "", assign_rev kv cmd.revision)
          else get_at_revision kv j (pos 0))
  unfolding apply apply_typed apply_delete
  read_after_delete e =
      rw (e, apply_typed)
        (with_leases-read (write_version kv cmd.key cmd.revision (bytes "") true) _ j (pos 0)
          ∙ latest_read kv cmd.key j cmd.revision (bytes "") true room h)

-- A put answers with nothing.
pub put-answer :
    (kv : KvStore) (cmd : Command) → cmd.type ≡ cmd_put → (apply kv cmd).1 ≡ done (bytes "")
unfolding apply apply_typed
put-answer kv cmd put = ap (λ t. (apply_typed t kv cmd).1) put
