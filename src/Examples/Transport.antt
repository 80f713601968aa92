-- ===== src/Examples/Transport.antt =====
-- A vote over HTTP, with codecs that write a number as its sign and its size.
use wjetcd.Common.{
  ◌≡◌, refl, arith, true, false, ◌+ℤ◌, Bool, ByteString, bytes, bytes_eq, [], ◌∷◌, ◌++◌, Option,
  some, none, ℕ, zero, suc, ℤ, pos, negsuc, if◌then◌else◌,
}
use wjetcd.Raft.Node.{leader, persistent_of}
use wjetcd.Raft.Vote.{RequestVoteArgs, RequestVoteReply, on_vote_reply, up_to_date}
use wjetcd.Raft.Transport.{Json, send_request_vote, handle_request_vote}
use wjetcd.Raft.Transport.Election.{RoundTrips, elected_over_http}
use wjetcd.Examples.Election.{node, challenger, asked}

abbrev write_int : ℤ → ByteString → ByteString
write_int (pos n) rest = 0 ∷ n ∷ rest
write_int (negsuc n) rest = 1 ∷ n ∷ rest

abbrev read_int : ℕ → ℕ → ℤ
read_int zero n = pos n
read_int (suc sign) n = negsuc n

abbrev no_args : RequestVoteArgs
no_args = record {
  term = pos 0;
  candidate_id = pos 0;
  last_log_index = pos 0;
  last_log_term = pos 0;
}

abbrev read_args : ByteString → RequestVoteArgs
read_args (a ∷ b ∷ c ∷ d ∷ e ∷ f ∷ g ∷ h ∷ rest) = record {
  term = read_int a b;
  candidate_id = read_int c d;
  last_log_index = read_int e f;
  last_log_term = read_int g h;
}
read_args _ = no_args

abbrev json_args : Json RequestVoteArgs
json_args = record {
  marshal = λ a.
      write_int a.term
        (write_int a.candidate_id (write_int a.last_log_index (write_int a.last_log_term [])));
  unmarshal = read_args;
}

abbrev write_bool : Bool → ℕ
write_bool true = 1
write_bool false = 0

abbrev read_bool : ℕ → Bool
read_bool zero = false
read_bool (suc n) = true

abbrev read_reply : ByteString → RequestVoteReply
read_reply (a ∷ b ∷ c ∷ rest) = record { term = read_int a b; vote_granted = read_bool c }
read_reply _ = record { term = pos 0; vote_granted = false }

abbrev json_reply : Json RequestVoteReply
json_reply = record {
  marshal = λ r. write_int r.term (write_bool r.vote_granted ∷ []);
  unmarshal = read_reply;
}

args_back :
    (a b c d : ℤ)
    → read_args (write_int a (write_int b (write_int c (write_int d []))))
      ≡ record { term = a; candidate_id = b; last_log_index = c; last_log_term = d }
args_back a b c d = ground arith

reply_back :
    (a : ℤ) (b : Bool)
    → read_reply (write_int a (write_bool b ∷ []) ++ 10 ∷ [])
      ≡ record { term = a; vote_granted = b }
reply_back a b = ground arith

codec : RoundTrips json_args json_reply
codec = record {
  args_read = λ a. args_back a.term a.candidate_id a.last_log_index a.last_log_term;
  reply_read = λ r. reply_back r.term r.vote_granted;
}

-- One node, at its address.
abbrev post : ByteString → ByteString → Option ByteString
post url body =
    if bytes_eq url (bytes "http://n1/raft/request_vote")
    then some (handle_request_vote json_args json_reply node true body).1.body
    else none

recent : up_to_date node asked ≡ true
unfolding up_to_date
recent = refl

elected_over_http_example :
    let voted = (handle_request_vote json_args json_reply node true (json_args.marshal asked)).0 in
    (reply : RequestVoteReply) × (send_request_vote post json_args json_reply (bytes "n1") asked
      ≡ some reply)
    × (voted.voted_for ≡ pos 2)
    × (voted.current_term ≡ pos 5)
    × (voted.persister.raft_state ≡ some (persistent_of voted))
    × ((on_vote_reply challenger (pos 5) reply).state ≡ leader)
    × ((on_vote_reply challenger (pos 5) reply).current_term ≡ pos 5)
unfolding ◌+ℤ◌ bytes_eq
elected_over_http_example =
    elected_over_http json_args json_reply codec post (bytes "n1") challenger node asked refl refl
      refl (omega arith) refl (omega arith) recent refl
