-- ===== src/Server/Recovery.antt =====
-- server/server.go: `applyRecoveredCommand` and `replayEntries`, which rebuild the state machine from
-- the journal when a server starts.
use wjetcd.Common.{
  Bool, true, false, List, [], ◌∷◌, if◌then◌else◌, ByteString, bytes, bytes_eq, ◌&&◌, ℤ, pos, ltb_ℤ,
  leb_ℤ, eqb_ℤ, inc64,
}
use wjetcd.Command.{
  CommandType, Command, zero_command, cmd_put, cmd_get, cmd_delete, cmd_lease_grant,
  cmd_lease_revoke, cmd_lease_attach, cmd_lease_keep_alive, cmd_cas, cmd_delete_prefix,
  cmd_get_prefix, cmd_other,
}
use wjetcd.Kv.{done, unknown_command, deadlock, apply, delete_prefix, set_key_lease, get_key_lease}
use wjetcd.Lease.{
  LeaseManager, grant_until, attach, revoke, keep_alive_until, revoke_lease,
  revoke_lease_if_matches, expiry_after,
}
use wjetcd.Server.State.{Machine}

-- A replayed command is applied, refused with an error, or never returns.
pub data Recovered : Type 0 where
  recovered : Machine → Recovered
  failed : Recovered
  stuck : Recovered

-- The commands that take a revision.
unfoldable pub takes_revision : CommandType → Bool
takes_revision cmd_put = true
takes_revision cmd_delete = true
takes_revision cmd_cas = true
takes_revision cmd_lease_attach = true
takes_revision cmd_delete_prefix = true
takes_revision _ = false

-- A lease without a positive time to live gets 10 seconds.
abbrev pub effective_ttl : Command → ℤ
effective_ttl cmd = if leb_ℤ cmd.ttl (pos 0) then pos 10 else cmd.ttl

unfoldable pub effective_expiry : ℤ → Command → ℤ
effective_expiry now cmd =
    if leb_ℤ cmd.expire_at (pos 0) then expiry_after now (effective_ttl cmd) else cmd.expire_at

-- The first `if` of `applyRecoveredCommand`.
unfoldable pub restamp : Machine → Command → Machine × Command
restamp m cmd =
    if takes_revision cmd.type
    then (if eqb_ℤ cmd.revision (pos 0)
        then (
          record m { current_rev = inc64 m.current_rev },
          record cmd { revision = inc64 m.current_rev },
        )
        else if ltb_ℤ m.current_rev cmd.revision
        then (record m { current_rev = cmd.revision }, cmd)
        else (m, cmd))
    else (m, cmd)

-- `kv.Command{Type: kv.CmdDelete, Key: key, Revision: rev}`
abbrev pub deletion : ByteString → ℤ → Command
deletion key rev = record zero_command { type = cmd_delete; key = key; revision = rev }

-- Deletes the keys of a revoked lease, each at a revision of its own.
unfoldable pub delete_revoked : Machine → List ByteString → Machine
delete_revoked m [] = m
delete_revoked m (key ∷ rest) =
    let rev = inc64 m.current_rev in
    delete_revoked (record m { store = (apply m.store (deletion key rev)).0; current_rev = rev })
      rest

unfoldable pub revoked_keys : LeaseManager → Command → LeaseManager × List ByteString
revoked_keys le cmd =
    if ltb_ℤ (pos 0) cmd.expire_at
    then revoke_lease_if_matches le cmd.lease_id cmd.expire_at
    else revoke_lease le cmd.lease_id

unfoldable pub revoke_each : LeaseManager → List ByteString → LeaseManager
revoke_each le [] = le
revoke_each le (key ∷ rest) = revoke_each (revoke le key).0 rest

-- The counter is not left behind the store's.
unfoldable pub catch_up_rev : Machine → Machine
catch_up_rev m =
    if ltb_ℤ m.current_rev m.store.current_rev
    then record m { current_rev = m.store.current_rev }
    else m

unfoldable pub attach_recovered : Machine → Command → Machine
attach_recovered m cmd =
    if ltb_ℤ (pos 0) cmd.lease_id
    then record m {
      lease_mgr = attach (revoke m.lease_mgr cmd.key).0 cmd.lease_id cmd.key cmd.value;
      store =
          (apply (set_key_lease m.store cmd.key cmd.lease_id) (record cmd { type = cmd_put })).0;
    }
    else m

unfoldable pub cas_recovered : Machine → Command → Machine
cas_recovered m cmd =
    let lease_id = get_key_lease m.store cmd.key in
    let (store, result) = apply m.store cmd in
    record m {
      store = store;
      lease_mgr = elim result [
        | done answer ↦
            if bytes_eq answer (bytes "OK") && ltb_ℤ (pos 0) lease_id
            then attach m.lease_mgr lease_id cmd.key cmd.value
            else m.lease_mgr
        | unknown_command ↦ m.lease_mgr
        | deadlock ↦ m.lease_mgr
      ];
    }

-- The default branch on CmdPut and CmdDelete.
unfoldable pub write_recovered : Machine → Command → Machine
write_recovered m cmd =
    let detached = (revoke m.lease_mgr cmd.key).0 in
    let written = (apply m.store cmd).0 in
    elim cmd.type [
      | cmd_put ↦
          if ltb_ℤ (pos 0) cmd.lease_id
          then record m {
            lease_mgr = attach detached cmd.lease_id cmd.key cmd.value;
            store = set_key_lease written cmd.key cmd.lease_id;
          }
          else record m { lease_mgr = detached; store = written }
      | _ ↦ record m { lease_mgr = detached; store = written }
    ]

unfoldable pub revoke_recovered : Machine → Command → Machine
revoke_recovered m cmd =
    let (le, revoked) = revoked_keys m.lease_mgr cmd in
    delete_revoked (record m { lease_mgr = le }) revoked

unfoldable pub delete_prefix_recovered : Machine → Command → Machine
delete_prefix_recovered m cmd =
    let (store, deleted) = delete_prefix m.store cmd.prefix in
    record m { store = store; lease_mgr = revoke_each m.lease_mgr deleted }

unfoldable pub grant_recovered : ℤ → Machine → Command → Machine
grant_recovered now m cmd = record m {
  lease_mgr = (grant_until m.lease_mgr (effective_ttl cmd) (effective_expiry now cmd)).0;
}

unfoldable pub keep_alive_recovered : ℤ → Machine → Command → Machine
keep_alive_recovered now m cmd = record m {
  lease_mgr =
      (keep_alive_until m.lease_mgr cmd.lease_id (effective_ttl cmd) (effective_expiry now cmd)).0;
}

-- The switch. `Apply` returns an error for a type that it does not know, and does not return at all
-- on CmdGet.
unfoldable pub recover_typed : CommandType → ℤ → Machine → Command → Recovered
recover_typed cmd_lease_grant now m cmd = recovered (grant_recovered now m cmd)
recover_typed cmd_lease_revoke now m cmd = recovered (revoke_recovered m cmd)
recover_typed cmd_lease_keep_alive now m cmd = recovered (keep_alive_recovered now m cmd)
recover_typed cmd_lease_attach now m cmd = recovered (attach_recovered m cmd)
recover_typed cmd_delete_prefix now m cmd = recovered (delete_prefix_recovered m cmd)
recover_typed cmd_get_prefix now m cmd = recovered m
recover_typed cmd_cas now m cmd = recovered (cas_recovered m cmd)
recover_typed cmd_put now m cmd = recovered (write_recovered m cmd)
recover_typed cmd_delete now m cmd = recovered (write_recovered m cmd)
recover_typed cmd_get now m cmd = stuck
recover_typed cmd_other now m cmd = failed

abbrev pub caught_up : Recovered → Recovered
caught_up (recovered m) = recovered (catch_up_rev m)
caught_up failed = failed
caught_up stuck = stuck

unfoldable pub apply_recovered_command : ℤ → Machine → Command → Recovered
apply_recovered_command now m cmd =
    let (stamped, command) = restamp m cmd in
    caught_up (recover_typed command.type now stamped command)

-- The reference for `replayEntries`, over the commands themselves, without their records; the time
-- is read anew for each.
unfoldable pub replay_entries : Machine → List (ℤ × Command) → Recovered
replay_entries m [] = recovered m
replay_entries m ((now, cmd) ∷ rest) = elim (apply_recovered_command now m cmd) [
  | recovered m' ↦ replay_entries m' rest
  | failed ↦ failed
  | stuck ↦ stuck
]
