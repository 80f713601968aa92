-- ===== src/Kv/Counter.antt =====
-- The revision counter of kv/store.go after a command and after a deletion by prefix.
use wjetcd.Common.{
  ℕ, ◌+◌, ◌<◌, ◌≡◌, refl, arith, Bool, true, false, inl, inr, ByteString, bytes, List, [], ◌∷◌,
  length, ℤ, pos, ◌≤ℤ◌, pos_part, inc64, inc64_parts, ltb_ℤ, Bool-cases,
}
use wjetcd.Command.{CommandType, Command, cmd_put, cmd_delete, cmd_lease_attach, cmd_cas}
use wjetcd.Kv.{
  KvStore, write_version, assign_rev, apply, apply_typed, apply_put, apply_delete, apply_cas,
  apply_lease_attach, set_key_lease, cas_matches, bury, bury_all, delete_key,
}
use wjetcd.Kv.Reads.{HasRoom, IsFresh, assign_rev-fresh}
use wjetcd.Kv.Valid.{current_rev-write_version}

-- The counter moved up, and not past `top`.
abbrev pub Between : ℤ → ℤ → ℤ → Type 0
Between low rev top = (low ≤ℤ rev) × (rev ≤ℤ top)

write_version-counter :
    (kv : KvStore) (key : ByteString) (rev : ℤ) (value : ByteString) (tombstone : Bool)
    → HasRoom kv
    → IsFresh kv rev
    → Between kv.current_rev
        (write_version kv key rev value tombstone).current_rev
        (assign_rev kv rev)
write_version-counter kv key rev value tombstone room fresh =
    rw (current_rev-write_version kv key rev value tombstone room fresh)
      (let grows = assign_rev-fresh kv rev room fresh in omega arith)

idle-counter :
    (kv : KvStore) (rev : ℤ)
    → HasRoom kv
    → IsFresh kv rev
    → Between kv.current_rev kv.current_rev (assign_rev kv rev)
idle-counter kv rev room fresh = let grows = assign_rev-fresh kv rev room fresh in omega arith

apply_typed-counter :
    (type : CommandType) (kv : KvStore) (cmd : Command)
    → HasRoom kv
    → IsFresh kv cmd.revision
    → Between kv.current_rev (apply_typed type kv cmd).0.current_rev (assign_rev kv cmd.revision)
unfolding apply_typed apply_put apply_delete apply_cas apply_lease_attach set_key_lease assign_rev
apply_typed-counter cmd_put kv cmd room fresh =
    write_version-counter kv cmd.key cmd.revision cmd.value false room fresh
apply_typed-counter cmd_delete kv cmd room fresh =
    write_version-counter kv cmd.key cmd.revision (bytes "") true room fresh
apply_typed-counter cmd_cas kv cmd room fresh = elim (Bool-cases (cas_matches kv cmd)) [
  | inl hit ↦ rw hit (write_version-counter kv cmd.key cmd.revision cmd.value false room fresh)
  | inr miss ↦ rw miss (idle-counter kv cmd.revision room fresh)
]
apply_typed-counter cmd_lease_attach kv cmd room fresh =
    elim (Bool-cases (ltb_ℤ (pos 0) cmd.lease_id)) [
      | inl held ↦ rw held (
          write_version-counter (set_key_lease kv cmd.key cmd.lease_id) cmd.key cmd.revision
            cmd.value false room fresh)
      | inr free ↦ rw free (idle-counter kv cmd.revision room fresh)
    ]
apply_typed-counter _ kv cmd room fresh = idle-counter kv cmd.revision room fresh

-- A command with a fresh revision moves the counter up, at most to that revision.
pub current_rev-apply :
    (kv : KvStore) (cmd : Command)
    → HasRoom kv
    → IsFresh kv cmd.revision
    → Between kv.current_rev (apply kv cmd).0.current_rev (assign_rev kv cmd.revision)
unfolding apply
current_rev-apply kv cmd room fresh = apply_typed-counter cmd.type kv cmd room fresh

-- `n` more revisions can be assigned.
abbrev pub Spare : ℕ → ℤ → Type 0
Spare n rev = (pos 0 ≤ℤ rev) × (pos_part rev + n < 9223372036854775807)

pub current_rev-bury :
    (kv : KvStore) (key : ByteString)
    → Spare 1 kv.current_rev
    → (bury kv key).current_rev ≡ inc64 kv.current_rev
unfolding bury delete_key assign_rev
current_rev-bury kv key spare =
    current_rev-write_version kv key (pos 0) (bytes "") true (omega arith) (inl refl)

-- Deleting a list of keys, as a deletion by prefix does, takes one revision for each key, if the
-- counter is not negative and leaves room for them.
pub current_rev-bury_all :
    (kv : KvStore) (ks : List ByteString)
    → Spare (length ks) kv.current_rev
    → pos_part (bury_all kv ks).current_rev ≡ pos_part kv.current_rev + length ks
unfolding bury_all
current_rev-bury_all kv [] spare = omega arith
current_rev-bury_all kv (key ∷ rest) spare =
    let one = current_rev-bury kv key (omega arith) in
    let next = inc64_parts kv.current_rev (omega arith) (omega arith) in
    ground (arith, one, next, current_rev-bury_all (bury kv key) rest)
