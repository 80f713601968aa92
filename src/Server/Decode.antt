-- ===== src/Server/Decode.antt =====
-- server/server.go: `commandFromValue` and the conversions of dynamic values. A float is given by
-- what the code reads of it: its conversion to an integer, and whether it is 0.
use wjetcd.Common.{
  Bool, false, not, Option, none, some, ByteString, bytes, bytes_key, ℤ, pos, eqb_ℤ, Map, lookup,
}
use wjetcd.Command.{
  CommandType, Command, cmd_put, cmd_get, cmd_delete, cmd_lease_grant, cmd_lease_revoke,
  cmd_lease_attach, cmd_lease_keep_alive, cmd_cas, cmd_delete_prefix, cmd_get_prefix, cmd_other,
}
use Prim.Native.Nat.{zero, suc}

pub data Value : Type 0 where
  string : ByteString → Value
  integer : ℤ → Value
  float : ℤ → Bool → Value
  boolean : Bool → Value
  other : Value

unfoldable pub to_string : Option Value → ByteString
to_string none = bytes ""
to_string (some (string s)) = s
to_string (some _) = bytes ""

-- `toInt64`, and `toInt` where an `int` has 64 bits.
unfoldable pub to_int64 : Option Value → ℤ
to_int64 none = pos 0
to_int64 (some (integer n)) = n
to_int64 (some (float n is_zero)) = n
to_int64 (some _) = pos 0

unfoldable pub to_bool : Option Value → Bool
to_bool none = false
to_bool (some (boolean b)) = b
to_bool (some (float n is_zero)) = not is_zero
to_bool (some (integer n)) = not (eqb_ℤ n (pos 0))
to_bool (some _) = false

-- `kv.CommandType(n)`, by the constants of kv/command.go.
unfoldable pub command_type : ℤ → CommandType
command_type (pos zero) = cmd_put
command_type (pos (suc zero)) = cmd_get
command_type (pos (suc (suc zero))) = cmd_delete
command_type (pos (suc (suc (suc zero)))) = cmd_lease_grant
command_type (pos (suc (suc (suc (suc zero))))) = cmd_lease_revoke
command_type (pos (suc (suc (suc (suc (suc zero)))))) = cmd_lease_attach
command_type (pos (suc (suc (suc (suc (suc (suc zero))))))) = cmd_lease_keep_alive
command_type (pos (suc (suc (suc (suc (suc (suc (suc zero)))))))) = cmd_cas
command_type (pos (suc (suc (suc (suc (suc (suc (suc (suc zero))))))))) = cmd_delete_prefix
command_type (pos (suc (suc (suc (suc (suc (suc (suc (suc (suc zero)))))))))) = cmd_get_prefix
command_type _ = cmd_other

-- The dynamic values that a message or a journal entry can hold.
pub data Payload : Type 0 where
  command : Command → Payload
  fields : Map ByteString Value → Payload
  opaque : Payload

unfoldable pub command_of_fields : Map ByteString Value → Command
unfolding to_string to_int64 to_bool command_type
command_of_fields m = record {
  type = command_type (to_int64 (lookup (bytes "Type") m));
  key = to_string (lookup (bytes "Key") m);
  value = to_string (lookup (bytes "Value") m);
  lease_id = to_int64 (lookup (bytes "LeaseID") m);
  ttl = to_int64 (lookup (bytes "TTL") m);
  expire_at = to_int64 (lookup (bytes "ExpireAt") m);
  revision = to_int64 (lookup (bytes "Revision") m);
  tombstone = to_bool (lookup (bytes "Tombstone") m);
  expected_rev = to_int64 (lookup (bytes "ExpectedRev") m);
  prefix = to_string (lookup (bytes "Prefix") m);
}

unfoldable pub command_from_value : Payload → Option Command
unfolding command_of_fields
command_from_value (command cmd) = some cmd
command_from_value (fields m) = some (command_of_fields m)
command_from_value opaque = none
