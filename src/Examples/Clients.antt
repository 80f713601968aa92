-- ===== src/Examples/Clients.antt =====
-- A client of cmd/client/client.go that has the addresses of three nodes.
use wjetcd.Common.{
  ◌≡◌, refl, true, false, ByteString, bytes, bytes_eq, [], ◌∷◌, Option, some, none, pos,
  if◌then◌else◌,
}
use wjetcd.Command.{Command, zero_command}
use wjetcd.Kv.{KvStore}
use wjetcd.Server.Submit.{Node, get}
use wjetcd.Server.Handler.{Request, get_method, query_get, submits}
use wjetcd.Server.Handler.Texts.{Response, put_response, get_response}
use wjetcd.Client.{http_put, http_get, put_url, get_url, written_at}
use wjetcd.Client.Finds.{no_answer, told_not_leader, no_reading, http_put-finds, http_get-reads}
use wjetcd.Examples.Submitting.{node}

-- What `Submit` returns at the second node and at the third.
abbrev refuses : Command → Option ByteString
refuses cmd = some (bytes "not leader")

abbrev takes : Command → Option ByteString
takes cmd = none

-- The first node does not answer, and the second does not lead.
abbrev post : ByteString → Option Response
post url =
    if bytes_eq url (bytes "http://b/put?key=k&value=v")
    then some (put_response refuses (submits zero_command))
    else if bytes_eq url (bytes "http://c/put?key=k&value=v")
    then some (put_response takes (submits zero_command))
    else none

http_put-finds_example :
    http_put post (bytes "a" ∷ bytes "b" ∷ bytes "c" ∷ []) (bytes "k") (bytes "v")
    ≡ written_at (bytes "c")
unfolding put_url bytes_eq
http_put-finds_example =
    http_put-finds post (bytes "k") (bytes "v") (bytes "a" ∷ bytes "b" ∷ []) [] (bytes "c")
      (no_answer, (told_not_leader refuses zero_command refl, tt)) takes zero_command refl refl

abbrev store : KvStore
store = record {
  versions =
      (bytes "k", record { revision = pos 1; value = bytes "hello"; tombstone = false } ∷ []) ∷ [];
  key2lease = [];
  current_rev = pos 1;
}

abbrev full : Node
full = record node {
  server = record node.server { machine = record node.server.machine { store = store } };
}

abbrev get_k : Request
get_k = record { method = get_method; query = (bytes "key", bytes "k") ∷ [] }

-- The first node does not answer.
abbrev fetch : ByteString → Option Response
fetch url =
    if bytes_eq url (bytes "http://b/get?key=k")
    then get_response (wjetcd.Server.Handler.http_get full get_k)
    else none

http_get-reads_example :
    http_get fetch (bytes "a" ∷ bytes "b" ∷ []) (bytes "k") ≡ some (get full (bytes "k"))
unfolding get_url bytes_eq query_get wjetcd.Common.lookup get wjetcd.Kv.get
http_get-reads_example =
    http_get-reads fetch (bytes "k") (bytes "a" ∷ []) [] (bytes "b") full get_k (no_reading, tt)
      refl refl refl refl (refl, (refl, (refl, (refl, (refl, tt))))) refl
