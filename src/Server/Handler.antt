-- ===== src/Server/Handler.antt =====
-- server/handler.go: what the HTTP and RPC handlers make of a request, up to the text of a response.
-- `fmt.Sscanf(s, "%d", &n)` is a parameter, which gives no number where it leaves `n` as it was.
pub mod Bypass
pub mod Texts
pub mod Watching
use wjetcd.Common.{
  Bool, true, false, not, ◌&&◌, ◌||◌, if◌then◌else◌, Option, none, some, List, [], ◌∷◌, ByteString,
  bytes, bytes_eq, bytes_key, ℤ, pos, leb_ℤ, Map, lookup,
}
use wjetcd.Command.{
  Command, zero_command, cmd_put, cmd_get, cmd_delete, cmd_lease_grant, cmd_lease_revoke,
  cmd_lease_attach, cmd_lease_keep_alive, cmd_delete_prefix,
}
use wjetcd.Lock.{
  LockManager, LockHandle, LockError, Result, ok, err, acquire, release, keep_lock, get_lock_status,
}
use wjetcd.Server.Submit.{Node, get, get_prefix}

pub data Method : Type 0 where
  get_method put_method post_method delete_method other_method : Method

pub record Request : Type 0 where
  pub method : Method
  pub query : Map ByteString ByteString

abbrev pub is_get : Method → Bool
is_get get_method = true
is_get _ = false

-- The two pairs of methods that change something.
abbrev pub is_write : Method → Bool
is_write put_method = true
is_write post_method = true
is_write _ = false

abbrev pub is_removal : Method → Bool
is_removal delete_method = true
is_removal post_method = true
is_removal _ = false

abbrev pub is_delete : Method → Bool
is_delete delete_method = true
is_delete _ = false

-- `r.URL.Query().Get(name)`
unfoldable pub query_get : Request → ByteString → ByteString
query_get r name = elim (lookup name r.query) [ none ↦ [] | some s ↦ s ]

-- A request is refused, or a command is handed to `Submit`.
pub data Handled : Type 0 where
  not_allowed bad_request : Handled
  submits : Command → Handled

-- The requests of the RPC handlers, none of which is refused.
unfoldable pub rpc_put : ByteString → ByteString → ℤ → Command
rpc_put key value lease_id = record zero_command {
  type = cmd_put;
  key = key;
  value = value;
  lease_id = lease_id;
}

unfoldable pub rpc_get : ByteString → Command
rpc_get key = record zero_command { type = cmd_get; key = key }

unfoldable pub rpc_delete : ByteString → Command
rpc_delete key = record zero_command { type = cmd_delete; key = key }

module _ (scan : ByteString → Option ℤ) where
  -- A number of the query, or a default.
  unfoldable pub scanned : Request → ByteString → ℤ → ℤ
  unfolding query_get
  scanned r name default =
      if bytes_eq (query_get r name) []
      then default
      else (elim (scan (query_get r name)) [ none ↦ default | some n ↦ n ])

  unfoldable pub http_put : Request → Handled
  unfolding query_get scanned
  http_put r =
      let key = query_get r (bytes "key") in
      let value = query_get r (bytes "value") in
      if not (is_write r.method)
      then not_allowed
      else if bytes_eq key [] || bytes_eq value []
      then bad_request
      else submits (record zero_command {
        type = cmd_put;
        key = key;
        value = value;
        lease_id = scanned r (bytes "lease_id") (pos 0);
      })

  unfoldable pub http_delete : Request → Handled
  unfolding query_get
  http_delete r =
      let key = query_get r (bytes "key") in
      if not (is_delete r.method)
      then not_allowed
      else if bytes_eq key []
      then bad_request
      else submits (record zero_command { type = cmd_delete; key = key })

  unfoldable pub lease_grant : Request → Handled
  unfolding scanned
  lease_grant r =
      if not (is_write r.method)
      then not_allowed
      else submits
          (record zero_command { type = cmd_lease_grant; ttl = scanned r (bytes "ttl") (pos 10) })

  unfoldable pub lease_revoke : Request → Handled
  unfolding scanned
  lease_revoke r =
      if not (is_removal r.method)
      then not_allowed
      else submits (record zero_command {
        type = cmd_lease_revoke;
        lease_id = scanned r (bytes "lease_id") (pos 0);
      })

  unfoldable pub lease_keep_alive : Request → Handled
  unfolding scanned
  lease_keep_alive r =
      if not (is_write r.method)
      then not_allowed
      else submits (record zero_command {
        type = cmd_lease_keep_alive;
        lease_id = scanned r (bytes "lease_id") (pos 0);
        ttl = scanned r (bytes "ttl") (pos 10);
      })

  unfoldable pub lease_attach : Request → Handled
  unfolding query_get scanned
  lease_attach r =
      let key = query_get r (bytes "key") in
      let lease_id = scanned r (bytes "lease_id") (pos 0) in
      if not (is_write r.method)
      then not_allowed
      else if bytes_eq key [] || leb_ℤ lease_id (pos 0)
      then bad_request
      else submits (record zero_command {
        type = cmd_lease_attach;
        key = key;
        value = query_get r (bytes "value");
        lease_id = lease_id;
      })

  unfoldable pub http_delete_prefix : Request → Handled
  unfolding query_get
  http_delete_prefix r =
      let prefix = query_get r (bytes "prefix") in
      if not (is_removal r.method)
      then not_allowed
      else if bytes_eq prefix []
      then bad_request
      else submits (record zero_command { type = cmd_delete_prefix; prefix = prefix })

-- The reads, which the handlers answer themselves.
pub data ReadResponse : Type 0 where
  read_not_allowed read_bad_request : ReadResponse
  value : ByteString → ReadResponse
  listing : Map ByteString ByteString → ReadResponse

unfoldable pub http_get : Node → Request → ReadResponse
unfolding query_get get
http_get n r =
    let key = query_get r (bytes "key") in
    if not (is_get r.method)
    then read_not_allowed
    else if bytes_eq key []
    then read_bad_request
    else value (get n key)

unfoldable pub http_get_prefix : Node → Request → ReadResponse
unfolding query_get get_prefix
http_get_prefix n r =
    let prefix = query_get r (bytes "prefix") in
    if not (is_get r.method)
    then read_not_allowed
    else if bytes_eq prefix []
    then read_bad_request
    else listing (get_prefix n prefix)

-- The lock handlers call the lock manager themselves.
pub data LockResponse : Type 0 where
  lock_not_allowed lock_bad_request : LockResponse
  conflict : LockError → LockResponse
  lock_failed : LockError → LockResponse
  acquired : LockHandle → LockResponse
  lock_done : LockResponse
  status : Bool → ℤ → LockResponse

module _ (scan : ByteString → Option ℤ) where
  -- A request without an owner gets the given name.
  unfoldable pub lock_acquire : ℤ → ByteString → LockManager → Request → LockManager × LockResponse
  unfolding query_get scanned
  lock_acquire now fresh_name lm r =
      let key = query_get r (bytes "key") in
      let named = query_get r (bytes "owner_id") in
      let owner = if bytes_eq named [] then fresh_name else named in
      let (lm', result) = acquire now lm key (scanned scan r (bytes "ttl") (pos 10)) owner in
      if not (is_write r.method)
      then (lm, lock_not_allowed)
      else if bytes_eq key []
      then (lm, lock_bad_request)
      else (lm', elim result [ ok handle ↦ acquired handle | err e ↦ conflict e ])

  unfoldable pub lock_release : LockManager → Request → LockManager × LockResponse
  unfolding query_get scanned
  lock_release lm r =
      let key = query_get r (bytes "key") in
      let lease_id = scanned scan r (bytes "lease_id") (pos 0) in
      let (lm', error) = release lm key lease_id (query_get r (bytes "owner_id")) in
      if not (is_removal r.method)
      then (lm, lock_not_allowed)
      else if bytes_eq key [] || bytes_eq (query_get r (bytes "lease_id")) []
      then (lm, lock_bad_request)
      else (lm', elim error [ none ↦ lock_done | some e ↦ lock_failed e ])

  unfoldable pub lock_keep_alive : ℤ → LockManager → Request → LockManager × LockResponse
  unfolding query_get scanned
  lock_keep_alive now lm r =
      let key = query_get r (bytes "key") in
      let lease_id = scanned scan r (bytes "lease_id") (pos 0) in
      let ttl = scanned scan r (bytes "ttl") (pos 10) in
      let (lm', error) = keep_lock now lm key lease_id (query_get r (bytes "owner_id")) ttl in
      if not (is_write r.method)
      then (lm, lock_not_allowed)
      else if bytes_eq key [] || bytes_eq (query_get r (bytes "lease_id")) []
      then (lm, lock_bad_request)
      else (lm', elim error [ none ↦ lock_done | some e ↦ lock_failed e ])

unfoldable pub lock_status : LockManager → Request → LockManager × LockResponse
unfolding query_get
lock_status lm r =
    let key = query_get r (bytes "key") in
    let (lm', locked, lease_id) = get_lock_status lm key in
    if not (is_get r.method)
    then (lm, lock_not_allowed)
    else if bytes_eq key []
    then (lm, lock_bad_request)
    else (lm', status locked lease_id)
