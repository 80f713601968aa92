-- ===== src/Server/Loop.antt =====
-- server/server.go: `applyLoop`, one committed message at a time. The time and whether the journal
-- takes the write are arguments.
use wjetcd.Common.{
  Bool, true, false, none, some, List, [], ◌∷◌, ◌++◌, if◌then◌else◌, ByteString, bytes, bytes_eq, ℤ,
  pos, ltb_ℤ, leb_ℤ, inc64,
}
use wjetcd.Command.{
  CommandType, Command, cmd_put, cmd_get, cmd_delete, cmd_lease_grant, cmd_lease_revoke,
  cmd_lease_attach, cmd_lease_keep_alive, cmd_cas, cmd_delete_prefix, cmd_get_prefix,
}
use wjetcd.Kv.{
  Applied, done, unknown_command, deadlock, apply, delete_prefix, set_key_lease, get_key_lease,
}
use wjetcd.Lease.{grant_until, attach, revoke, keep_alive_until}
use wjetcd.Server.State.{
  Machine, Server, Reply, text, decimal, persistence_error, with_machine, notify_watchers,
  notify_reply,
}
use wjetcd.Server.Recovery.{
  takes_revision, effective_ttl, effective_expiry, deletion, revoked_keys, revoke_each,
  catch_up_rev,
}
use wjetcd.Server.Decode.{Payload, command_from_value}

-- After a message the loop goes on, or it hangs: it waits for ever with `s.mu` locked, so that no
-- later message is applied and no request is served.
pub data Outcome : Type 0 where
  running : Server → Outcome
  hung : Server → Outcome

abbrev pub server_of : Outcome → Server
server_of (running s) = s
server_of (hung s) = s

-- The revision and the expiry that the loop puts into a command.
unfoldable pub stamp : ℤ → Machine → Command → Machine × Command
stamp now m cmd =
    if takes_revision cmd.type
    then (
      record m { current_rev = inc64 m.current_rev },
      record cmd { revision = inc64 m.current_rev },
    )
    else (
      m,
      elim cmd.type [
        | cmd_lease_grant ↦ record cmd { expire_at = effective_expiry now cmd }
        | cmd_lease_keep_alive ↦ record cmd { expire_at = effective_expiry now cmd }
        | _ ↦ cmd
      ],
    )

-- A deletion of a revoked lease's keys is announced too.
unfoldable pub delete_and_notify : Server → List ByteString → Server
delete_and_notify s [] = s
delete_and_notify s (key ∷ rest) =
    let rev = inc64 s.machine.current_rev in
    let m = record s.machine { store = (apply s.store (deletion key rev)).0; current_rev = rev } in
    delete_and_notify (notify_watchers (with_machine s m) (deletion key rev)) rest

unfoldable pub announce_deletions : Server → List ByteString → Server
announce_deletions s [] = s
announce_deletions s (key ∷ rest) =
    announce_deletions (notify_watchers s (deletion key s.machine.current_rev)) rest

unfoldable pub live_grant : Server → Command → Server × Reply
live_grant s cmd =
    let (le, id) = grant_until s.lease_mgr (effective_ttl cmd) cmd.expire_at in
    (with_machine s (record s.machine { lease_mgr = le }), decimal id)

unfoldable pub live_revoke : Server → Command → Server
live_revoke s cmd =
    if ltb_ℤ (pos 0) cmd.lease_id
    then (let (le, revoked) = revoked_keys s.lease_mgr cmd in
        delete_and_notify (with_machine s (record s.machine { lease_mgr = le })) revoked)
    else s

unfoldable pub live_keep_alive : Server → Command → Server × Reply
live_keep_alive s cmd =
    let (le, kept) = keep_alive_until s.lease_mgr cmd.lease_id (effective_ttl cmd) cmd.expire_at in
    (
      with_machine s (record s.machine { lease_mgr = le }),
      text (if kept then bytes "OK" else bytes "ERROR"),
    )

unfoldable pub live_attach : Server → Command → Server
live_attach s cmd =
    if ltb_ℤ (pos 0) cmd.lease_id
    then with_machine s (record s.machine {
      lease_mgr = attach (revoke s.lease_mgr cmd.key).0 cmd.lease_id cmd.key cmd.value;
      store =
          (apply (set_key_lease s.store cmd.key cmd.lease_id) (record cmd { type = cmd_put })).0;
    })
    else s

abbrev pub answer_of : Applied → ByteString
answer_of (done answer) = answer
answer_of unknown_command = bytes ""
answer_of deadlock = bytes ""

unfoldable pub live_cas : Server → Command → Server × Reply
live_cas s cmd =
    let lease_id = get_key_lease s.store cmd.key in
    let (store, result) = apply s.store cmd in
    let written = record s.machine { store = store } in
    let attached = record s.machine {
      store = store;
      lease_mgr =
          if ltb_ℤ (pos 0) lease_id
          then attach s.lease_mgr lease_id cmd.key cmd.value
          else s.lease_mgr;
    } in
    (
      if bytes_eq (answer_of result) (bytes "OK")
          then notify_watchers (with_machine s attached) (record cmd { type = cmd_put })
          else with_machine s written,
      text (answer_of result),
    )

-- The default branch, on CmdPut, CmdDelete and an unknown type.
unfoldable pub live_write : Server → Command → Server × Reply
live_write s cmd =
    let m = s.machine in
    let detached = (revoke m.lease_mgr cmd.key).0 in
    let (store, result) = apply m.store cmd in
    let written : Machine = elim cmd.type [
      | cmd_put ↦
          if ltb_ℤ (pos 0) cmd.lease_id
          then record m {
            lease_mgr = attach detached cmd.lease_id cmd.key cmd.value;
            store = set_key_lease store cmd.key cmd.lease_id;
          }
          else record m { lease_mgr = detached; store = store }
      | cmd_delete ↦ record m { lease_mgr = detached; store = store }
      | _ ↦ record m { store = store }
    ] in
    (notify_watchers (with_machine s written) cmd, text (answer_of result))

unfoldable pub live_delete_prefix : Server → Command → Server
live_delete_prefix s cmd =
    let (store, deleted) = delete_prefix s.store cmd.prefix in
    let m =
      catch_up_rev
        (record s.machine { store = store; lease_mgr = revoke_each s.lease_mgr deleted }) in
    announce_deletions (with_machine s m) deleted

-- What follows the switch, after `s.mu` was unlocked.
unfoldable pub finish : ℤ → Server → Reply → Outcome
finish index s reply =
    let told = if leb_ℤ (pos 0) index then notify_reply s index reply else s in
    running (record told {
      last_applied = if ltb_ℤ told.last_applied index then index else told.last_applied;
    })

-- A call of `notifyReply`, which locks `s.mu` first, and so waits for ever where the loop holds it:
-- a `sync.Mutex` cannot be locked twice.
abbrev pub notify_reply_with : Bool → ℤ → Server → Reply → Outcome
notify_reply_with mu_held index s reply =
    if mu_held then hung s else running (notify_reply s index reply)

-- The switch. The branches of CmdDeletePrefix, CmdGetPrefix and CmdGet call `notifyReply` before they
-- unlock `s.mu`; that of CmdGet does not come so far, since `Apply` does not return. What they would
-- answer is never sent.
unfoldable pub execute_typed : CommandType → ℤ → Server → Command → Outcome
execute_typed cmd_lease_grant index s cmd =
    let (s', reply) = live_grant s cmd in finish index s' reply
execute_typed cmd_lease_revoke index s cmd = finish index (live_revoke s cmd) (text (bytes "OK"))
execute_typed cmd_lease_keep_alive index s cmd =
    let (s', reply) = live_keep_alive s cmd in finish index s' reply
execute_typed cmd_lease_attach index s cmd = finish index (live_attach s cmd) (text (bytes "OK"))
execute_typed cmd_cas index s cmd = let (s', reply) = live_cas s cmd in finish index s' reply
execute_typed cmd_delete_prefix index s cmd =
    notify_reply_with true index (live_delete_prefix s cmd) (text [])
execute_typed cmd_get_prefix index s cmd = notify_reply_with true index s (text [])
execute_typed cmd_get index s cmd = notify_reply_with true index s (text [])
execute_typed _ index s cmd = let (s', reply) = live_write s cmd in finish index s' reply

-- The journal is written before the command takes effect. Once a write has failed, no command does.
unfoldable pub journal_and_execute : Bool → ℤ → Server → Command → Outcome
journal_and_execute wal_ok index s cmd =
    if s.persistence_failed then running (notify_reply s index persistence_error) else (elim s.wal [
      | none ↦ execute_typed cmd.type index s cmd
      | some log ↦
          if wal_ok
          then execute_typed cmd.type index (record s { wal = some (log ++ cmd ∷ []) }) cmd
          else running
              (notify_reply (record s { persistence_failed = true }) index persistence_error)
    ])

unfoldable pub apply_command : ℤ → Bool → ℤ → Server → Command → Outcome
unfolding journal_and_execute
apply_command now wal_ok index s cmd =
    let (m, stamped) = stamp now s.machine cmd in
    journal_and_execute wal_ok index (with_machine s m) stamped

-- `ApplyMsg` as the loop reads it: the barrier of `Shutdown`, or a message with its payload.
pub data Message : Type 0 where
  barrier : Message
  message : Bool → Payload → ℤ → Message

unfoldable pub apply_message : ℤ → Bool → Server → Message → Outcome
unfolding apply_command command_from_value
apply_message now wal_ok s barrier = running s
apply_message now wal_ok s (message false payload index) = running s
apply_message now wal_ok s (message true payload index) = elim (command_from_value payload) [
  | none ↦ running s
  | some cmd ↦ apply_command now wal_ok index s cmd
]
