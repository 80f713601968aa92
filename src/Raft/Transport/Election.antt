-- ===== src/Raft/Transport/Election.antt =====
-- An election over HTTP: a candidate of raft/leader_election.go asks a node of raft/rpc.go.
use wjetcd.Common.{
  ◌≡◌, refl, ap, ◌∙◌, true, false, Option, none, some, [], ◌∷◌, ◌++◌, ◌<ℤ◌, ◌/◌, ByteString, bytes,
  pos, length, ◌+ℤ◌,
}
use wjetcd.Raft.Node.{Raft, leader, candidate, persistent_of}
use wjetcd.Raft.Vote.{RequestVoteArgs, RequestVoteReply, request_vote, on_vote_reply, up_to_date}
use wjetcd.Raft.Vote.Once.{request_vote-granted}
use wjetcd.Raft.Vote.TwoLeaders.{later_term-granted, last_vote-elects}
use wjetcd.Raft.Transport.{Json, Network, post_to, send_request_vote, handle_request_vote}

-- What the codecs do with what they wrote themselves, where the newline after a reply is skipped.
pub record RoundTrips (json_args : Json RequestVoteArgs) (json_reply : Json RequestVoteReply)
    : Type 0 where
  pub args_read : (args : RequestVoteArgs) → json_args.unmarshal (json_args.marshal args) ≡ args
  pub reply_read :
      (reply : RequestVoteReply)
      → json_reply.unmarshal (json_reply.marshal reply ++ 10 ∷ []) ≡ reply

module _ {C : Type 0} (json_args : Json RequestVoteArgs) (json_reply : Json RequestVoteReply)
    (codec : RoundTrips json_args json_reply) where
  -- The node answers the POST of a request to its address.
  abbrev pub Reaches : Network → ByteString → Raft C → RequestVoteArgs → Type 0
  Reaches post addr rf args =
      let body = json_args.marshal args in
      post (bytes "http://" ++ (addr ++ bytes "/raft/request_vote")) body
      ≡ some (handle_request_vote json_args json_reply rf true body).1.body

  handled :
      (rf : Raft C) (args : RequestVoteArgs)
      → let (rf', answer) =
          handle_request_vote json_args json_reply rf true (json_args.marshal args) in
        (rf' ≡ (request_vote rf args).0)
        × (answer.body ≡ json_reply.marshal (request_vote rf args).1 ++ 10 ∷ [])
  unfolding handle_request_vote
  handled rf args = rw (codec.args_read args) (refl, refl)

  -- A request over HTTP is a call.
  sent :
      (post : Network) (addr : ByteString) (rf : Raft C) (args : RequestVoteArgs)
      → Reaches post addr rf args
      → send_request_vote post json_args json_reply addr args ≡ some (request_vote rf args).1
  unfolding send_request_vote post_to
  sent post addr rf args reaches =
      ap
        (λ o. elim o as (λ x. Option RequestVoteReply) [
          | none ↦ none
          | some body ↦ some (json_reply.unmarshal body)
        ])
        reaches
      ∙ ap (λ b. some (json_reply.unmarshal b)) (handled rf args).1
      ∙ ap some (codec.reply_read (request_vote rf args).1)

  -- A candidate lacks one vote for a majority. It asks a live node of an earlier term over HTTP,
  -- which answers at its address and whose log is not ahead of the candidate's. Then the reply
  -- arrives, the node has given its vote to the candidate in that term and handed its values with the
  -- vote to labgob for saving, and the candidate
  -- leads in it.
  pub elected_over_http :
      (post : Network) (addr : ByteString) (stood voter : Raft C) (args : RequestVoteArgs)
      → stood.state ≡ candidate
      → stood.election_done ≡ false
      → stood.current_term ≡ args.term
      → pos (length stood.peers / 2) <ℤ stood.election_votes +ℤ pos 1
      → voter.dead ≡ false
      → voter.current_term <ℤ args.term
      → up_to_date voter args ≡ true
      → Reaches post addr voter args
      → let body = json_args.marshal args in
        let voted = (handle_request_vote json_args json_reply voter true body).0 in
        (reply : RequestVoteReply) × (send_request_vote post json_args json_reply addr args
          ≡ some reply)
        × (voted.voted_for ≡ args.candidate_id)
        × (voted.current_term ≡ args.term)
        × (voted.persister.raft_state ≡ some (persistent_of voted))
        × ((on_vote_reply stood args.term reply).state ≡ leader)
        × ((on_vote_reply stood args.term reply).current_term ≡ args.term)
  elected_over_http post addr stood voter args stands unsettled term majority alive later recent
        reaches =
      let (granted, replied, adopted, kept) = later_term-granted voter args alive later recent in
      let (elected, same) =
        last_vote-elects stood args.term (request_vote voter args).1 stands unsettled term replied
          granted majority in
      let (vote, now, saved, ahead) = request_vote-granted voter args granted in
      let reached = (handled voter args).0 in
      (
        (request_vote voter args).1,
        sent post addr voter args reaches,
        ap (λ r. r.voted_for) reached ∙ vote,
        ap (λ r. r.current_term) reached ∙ now,
        rw reached saved,
        elected,
        same,
      )
