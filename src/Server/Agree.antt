-- ===== src/Server/Agree.antt =====
-- server/server.go: the branches of `applyLoop` change the state machine as those of
-- `applyRecoveredCommand` do.
use wjetcd.Common.{
  ◌≡◌, refl, ◌∙◌, ap, arith, Bool, true, false, List, [], ◌∷◌, if◌then◌else◌, ByteString, bytes_eq,
  ℤ, pos, ltb_ℤ, leb_ℤ, ◌⊎◌,
}
use wjetcd.Command.{Command, cmd_put, cmd_delete}
use wjetcd.Server.State.{Server, Reply, notify_watchers, notify_reply}
use wjetcd.Server.Recovery.{
  delete_revoked, attach_recovered, cas_recovered, write_recovered, revoke_recovered,
  delete_prefix_recovered, grant_recovered, keep_alive_recovered, catch_up_rev, effective_expiry,
}
use wjetcd.Server.Loop.{
  server_of, delete_and_notify, announce_deletions, live_grant, live_revoke, live_keep_alive,
  live_attach, live_cas, live_write, live_delete_prefix, finish,
}

pub machine-notify_watchers :
    (s : Server) (cmd : Command) → (notify_watchers s cmd).machine ≡ s.machine
unfolding notify_watchers
machine-notify_watchers s cmd = ground arith

pub machine-notify_reply :
    (s : Server) (index : ℤ) (reply : Reply) → (notify_reply s index reply).machine ≡ s.machine
unfolding notify_reply
machine-notify_reply s index reply = ground arith

pub machine-finish :
    (index : ℤ) (s : Server) (reply : Reply)
    → (server_of (finish index s reply)).machine ≡ s.machine
unfolding finish
machine-finish index s reply = ground (arith, machine-notify_reply s index reply)

pub machine-delete_and_notify :
    (keys : List ByteString) (s : Server)
    → (delete_and_notify s keys).machine ≡ delete_revoked s.machine keys
unfolding delete_and_notify delete_revoked
machine-delete_and_notify [] s = refl
machine-delete_and_notify (key ∷ rest) s =
    machine-delete_and_notify rest _ ∙ ap (λ m. delete_revoked m rest) (machine-notify_watchers _ _)

machine-announce_deletions :
    (keys : List ByteString) (s : Server) → (announce_deletions s keys).machine ≡ s.machine
unfolding announce_deletions
machine-announce_deletions [] s = refl
machine-announce_deletions (key ∷ rest) s =
    machine-announce_deletions rest _ ∙ machine-notify_watchers s _

machine-if :
    (b : Bool) (s t : Server) (cmd : Command)
    → (if b then notify_watchers s cmd else t).machine ≡ (if b then s.machine else t.machine)
machine-if true s t cmd = machine-notify_watchers s cmd
machine-if false s t cmd = refl

-- A live grant or renewal carries its expiry; recovery reads the same one.
effective_expiry-set :
    (now : ℤ) (cmd : Command)
    → leb_ℤ cmd.expire_at (pos 0) ≡ false
    → effective_expiry now cmd ≡ cmd.expire_at
unfolding effective_expiry
effective_expiry-set now cmd h = rw h

module _ (now : ℤ) (s : Server) (cmd : Command) where
  pub live_grant-agrees :
      leb_ℤ cmd.expire_at (pos 0) ≡ false
      → (live_grant s cmd).0.machine ≡ grant_recovered now s.machine cmd
  unfolding live_grant grant_recovered
  live_grant-agrees h = rw (effective_expiry-set now cmd h)

  pub live_keep_alive-agrees :
      leb_ℤ cmd.expire_at (pos 0) ≡ false
      → (live_keep_alive s cmd).0.machine ≡ keep_alive_recovered now s.machine cmd
  unfolding live_keep_alive keep_alive_recovered
  live_keep_alive-agrees h = rw (effective_expiry-set now cmd h)

module _ (s : Server) (cmd : Command) where
  pub live_attach-agrees : (live_attach s cmd).machine ≡ attach_recovered s.machine cmd
  unfolding live_attach attach_recovered
  live_attach-agrees = ground arith

  pub live_cas-agrees : (live_cas s cmd).0.machine ≡ cas_recovered s.machine cmd
  unfolding live_cas cas_recovered bytes_eq
  live_cas-agrees = rw machine-if (ground arith)

  pub live_write-agrees :
      (cmd.type ≡ cmd_put) ⊎ (cmd.type ≡ cmd_delete)
      → (live_write s cmd).0.machine ≡ write_recovered s.machine cmd
  unfolding live_write write_recovered
  live_write-agrees h = machine-notify_watchers _ cmd ∙ ground arith

  pub live_delete_prefix-agrees :
      (live_delete_prefix s cmd).machine ≡ catch_up_rev (delete_prefix_recovered s.machine cmd)
  unfolding live_delete_prefix delete_prefix_recovered
  live_delete_prefix-agrees = machine-announce_deletions _ _

  pub live_revoke-agrees :
      ltb_ℤ (pos 0) cmd.lease_id ≡ true
      → (live_revoke s cmd).machine ≡ revoke_recovered s.machine cmd
  unfolding live_revoke revoke_recovered
  live_revoke-agrees h = rw h (machine-delete_and_notify _ _)
