-- ===== src/Server/Health.antt =====
-- server/server.go: the branches of `applyLoop` leave the journal and its failure as they were.
use wjetcd.Common.{
  ◌≡◌, refl, ◌∙◌, ap, arith, Bool, true, false, ByteString, List, [], ◌∷◌, ◌++◌, Option, some, ℤ,
}
use wjetcd.Command.{
  CommandType, Command, cmd_get, cmd_lease_grant, cmd_lease_revoke, cmd_lease_attach,
  cmd_lease_keep_alive, cmd_cas, cmd_delete_prefix, cmd_get_prefix,
}
use wjetcd.Server.State.{Server, Reply, notify_watchers, notify_reply, with_machine}
use wjetcd.Server.Recovery.{revoked_keys}
use wjetcd.Server.Loop.{
  server_of, delete_and_notify, announce_deletions, live_grant, live_revoke, live_keep_alive,
  live_attach, live_cas, live_write, live_delete_prefix, finish, execute_typed, journal_and_execute,
  apply_command, stamp,
}

-- The journal, and whether it has failed.
abbrev pub journal_of : Server → Option (List Command) × Bool
journal_of s = (s.wal, s.persistence_failed)

abbrev pub Keeps : Server → Server → Type 0
Keeps s s' = journal_of s' ≡ journal_of s

notify_watchers-Keeps : (s : Server) (cmd : Command) → Keeps s (notify_watchers s cmd)
unfolding notify_watchers
notify_watchers-Keeps s cmd = ground arith

finish-Keeps : (index : ℤ) (s : Server) (reply : Reply) → Keeps s (server_of (finish index s reply))
unfolding finish notify_reply
finish-Keeps index s reply = ground arith

delete_and_notify-Keeps : (keys : List ByteString) (s : Server) → Keeps s (delete_and_notify s keys)
unfolding delete_and_notify
delete_and_notify-Keeps [] s = refl
delete_and_notify-Keeps (key ∷ rest) s = delete_and_notify-Keeps rest _ ∙ notify_watchers-Keeps _ _

announce_deletions-Keeps :
    (keys : List ByteString) (s : Server) → Keeps s (announce_deletions s keys)
unfolding announce_deletions
announce_deletions-Keeps [] s = refl
announce_deletions-Keeps (key ∷ rest) s =
    announce_deletions-Keeps rest _ ∙ notify_watchers-Keeps _ _

live_revoke-Keeps : (s : Server) (cmd : Command) → Keeps s (live_revoke s cmd)
unfolding live_revoke
live_revoke-Keeps s cmd = ground (
  arith,
  delete_and_notify-Keeps (revoked_keys s.lease_mgr cmd).1
      (with_machine s (record s.machine { lease_mgr = (revoked_keys s.lease_mgr cmd).0 })),
)

live_attach-Keeps : (s : Server) (cmd : Command) → Keeps s (live_attach s cmd)
unfolding live_attach
live_attach-Keeps s cmd = ground arith

live_cas-Keeps : (s : Server) (cmd : Command) → Keeps s (live_cas s cmd).0
unfolding live_cas notify_watchers
live_cas-Keeps s cmd = ground arith

pub execute_typed-Keeps :
    (type : CommandType) (index : ℤ) (s : Server) (cmd : Command)
    → Keeps s (server_of (execute_typed type index s cmd))
unfolding execute_typed live_grant live_keep_alive live_write live_delete_prefix
execute_typed-Keeps cmd_lease_grant index s cmd = finish-Keeps index _ _
execute_typed-Keeps cmd_lease_keep_alive index s cmd = finish-Keeps index _ _
execute_typed-Keeps cmd_lease_revoke index s cmd = finish-Keeps index _ _ ∙ live_revoke-Keeps s cmd
execute_typed-Keeps cmd_lease_attach index s cmd = finish-Keeps index _ _ ∙ live_attach-Keeps s cmd
execute_typed-Keeps cmd_cas index s cmd = finish-Keeps index _ _ ∙ live_cas-Keeps s cmd
execute_typed-Keeps cmd_delete_prefix index s cmd = announce_deletions-Keeps _ _
execute_typed-Keeps cmd_get_prefix index s cmd = refl
execute_typed-Keeps cmd_get index s cmd = refl
execute_typed-Keeps _ index s cmd = finish-Keeps index _ _ ∙ notify_watchers-Keeps _ _

pub journal_writes :
    (index : ℤ) (s : Server) (cmd : Command) (log : List Command)
    → s.persistence_failed ≡ false
    → s.wal ≡ some log
    → journal_and_execute true index s cmd
      ≡ execute_typed cmd.type index (record s { wal = some (log ++ cmd ∷ []) }) cmd
unfolding journal_and_execute
journal_writes index s cmd log healthy kept = ground arith

-- A command that the loop journals is added to the journal, and nothing else changes there.
pub journal_of-apply_command :
    (now index : ℤ) (s : Server) (cmd : Command) (log : List Command)
    → s.persistence_failed ≡ false
    → s.wal ≡ some log
    → journal_of (server_of (apply_command now true index s cmd))
      ≡ (some (log ++ (stamp now s.machine cmd).1 ∷ []), false)
unfolding apply_command
journal_of-apply_command now index s cmd log healthy kept =
    let (m, stamped) = stamp now s.machine cmd in
    let s1 = record (with_machine s m) { wal = some (log ++ stamped ∷ []) } in
    ap (λ out. journal_of (server_of out))
      (journal_writes index (with_machine s m) stamped log healthy kept)
    ∙ execute_typed-Keeps stamped.type index s1 stamped
    ∙ ap (λ b. (some (log ++ stamped ∷ []), b)) healthy
