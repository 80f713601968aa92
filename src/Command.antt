-- ===== src/Command.antt =====
-- kv/command.go: the commands that the replicas agree on.
use wjetcd.Common.{ByteString, bytes, ℤ, pos, Bool, false}

-- A value of the integer type `CommandType` that is none of its constants is `cmd_other`.
pub data CommandType : Type 0 where
  cmd_put cmd_get cmd_delete cmd_lease_grant cmd_lease_revoke cmd_lease_attach : CommandType
  cmd_lease_keep_alive cmd_cas cmd_delete_prefix cmd_get_prefix cmd_other : CommandType

pub record Command : Type 0 where
  pub type : CommandType
  pub key : ByteString
  pub value : ByteString
  pub lease_id : ℤ
  pub ttl : ℤ
  pub expire_at : ℤ
  pub revision : ℤ
  pub tombstone : Bool
  pub expected_rev : ℤ
  pub prefix : ByteString

-- `Command{}`: every field has its zero value (the zero of `CommandType` is `CmdPut`).
abbrev pub zero_command : Command
zero_command = record {
  type = cmd_put;
  key = bytes "";
  value = bytes "";
  lease_id = pos 0;
  ttl = pos 0;
  expire_at = pos 0;
  revision = pos 0;
  tombstone = false;
  expected_rev = pos 0;
  prefix = bytes "";
}
