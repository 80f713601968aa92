-- ===== src/Raft/Transport.antt =====
-- The HTTP side of raft/rpc.go and raft/raft.go: the handlers of a node's requests, and how the node
-- sends its own. `json.Marshal` and `json.Unmarshal` are parameters, and so is what a POST gives.
pub mod Election
use wjetcd.Common.{
  Bool, true, false, if◌then◌else◌, Option, none, some, List, [], ◌∷◌, ◌++◌, ℕ, ByteString, bytes,
  bytes_eq, ℤ, Map, lookup, insert, int_eq,
}
use wjetcd.Raft.Log.{Run, ok, ◌>>=◌}
use wjetcd.Raft.Node.{Raft}
use wjetcd.Raft.Vote.{RequestVoteArgs, RequestVoteReply, request_vote}
use wjetcd.Raft.Append.{AppendArgs, AppendReply, handle_append_entries}
use wjetcd.Raft.Snapshot.{InstallArgs, request_install_snapshot}

-- The codec of a type. All callers ignore its errors: writing that fails gives no bytes, and reading
-- a body into a zero value leaves some value in every case.
pub record Json (A : Type 0) : Type 0 where
  pub marshal : A → ByteString
  pub unmarshal : ByteString → A

-- The headers are left out.
pub record HttpReply : Type 0 where
  pub status : ℕ
  pub body : ByteString

-- `json.NewEncoder(w).Encode(reply)`, which adds a newline.
abbrev pub json_response : {A : Type 0} → Json A → A → HttpReply
json_response json reply = record { status = 200; body = json.marshal reply ++ 10 ∷ [] }

abbrev pub method_refused : HttpReply
method_refused = record { status = 405; body = [] }

module _ {C : Type 0} where
  -- `is_post` says that the method is POST.
  unfoldable pub handle_request_vote :
      Json RequestVoteArgs → Json RequestVoteReply → Raft C → Bool → ByteString → Raft C × HttpReply
  handle_request_vote json_args json_reply rf is_post body =
      let (rf', reply) = request_vote rf (json_args.unmarshal body) in
      if is_post then (rf', json_response json_reply reply) else (rf, method_refused)

  unfoldable pub handle_append_entries_http :
      Json (AppendArgs C) → Json AppendReply → Raft C → Bool → ByteString → Run (Raft C × HttpReply)
  handle_append_entries_http json_args json_reply rf is_post body =
      if is_post
      then (do
        (rf', reply) ← handle_append_entries rf (json_args.unmarshal body)
        ok (rf', json_response json_reply reply))
      else ok (rf, method_refused)

  -- The reply is the term alone.
  unfoldable pub handle_install_snapshot_http :
      Json InstallArgs → Json ℤ → Raft C → Bool → ByteString → Run (Raft C × HttpReply)
  handle_install_snapshot_http json_args json_reply rf is_post body =
      if is_post
      then (do
        (rf', term) ← request_install_snapshot rf (json_args.unmarshal body)
        ok (rf', json_response json_reply term))
      else ok (rf, method_refused)

-- A POST of a body to a URL gives the body of a response, or none where it fails. The status of the
-- response is not looked at.
abbrev pub Network : Type 0
Network = ByteString → ByteString → Option ByteString

-- A request to a route of an address; none is the answer false, which leaves the reply as it was.
unfoldable pub post_to :
    {A B : Type 0} → Network → Json A → Json B → ByteString → ByteString → A → Option B
post_to post json_args json_reply route addr args =
    elim (post (bytes "http://" ++ (addr ++ route)) (json_args.marshal args)) [
      | none ↦ none
      | some body ↦ some (json_reply.unmarshal body)
    ]

unfoldable pub send_request_vote :
    Network
    → Json RequestVoteArgs
    → Json RequestVoteReply
    → ByteString
    → RequestVoteArgs
    → Option RequestVoteReply
unfolding post_to
send_request_vote post json_args json_reply =
    post_to post json_args json_reply (bytes "/raft/request_vote")

unfoldable pub send_append_entries :
    {C : Type 0}
    → Network
    → Json (AppendArgs C)
    → Json AppendReply
    → ByteString
    → AppendArgs C
    → Option AppendReply
unfolding post_to
send_append_entries post json_args json_reply =
    post_to post json_args json_reply (bytes "/raft/append_entries")

unfoldable pub send_install_snapshot :
    Network → Json InstallArgs → Json ℤ → ByteString → InstallArgs → Option ℤ
unfolding post_to
send_install_snapshot post json_args json_reply =
    post_to post json_args json_reply (bytes "/raft/install_snapshot")

-- `peerAddrs`
unfoldable pub set_peer_addr : Map ℤ ByteString → ℤ → ByteString → Map ℤ ByteString
set_peer_addr addrs id addr = insert id addr addrs

unfoldable pub get_peer_addr : Map ℤ ByteString → ℤ → ByteString
get_peer_addr addrs id = elim (lookup id addrs) [ none ↦ [] | some addr ↦ addr ]
