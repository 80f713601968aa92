-- ===== src/Server/Startup/Forgets.antt =====
-- What a restart of server/server.go keeps, and what it does not.
use wjetcd.Common.{
  ℕ, ◌≡◌, ◌≢◌, refl, sym, ◌∙◌, arith, Bool, true, false, Option, some, List, [], ByteString, ℤ, pos,
  ◌≤ℤ◌,
}
use wjetcd.Command.{Command}
use wjetcd.Raft.Log.{new_log}
use wjetcd.Raft.Node.{Raft, Gob, make, read_persist, persist, fresh_node, with_helper}
use wjetcd.Raft.Vote.{RequestVoteArgs, request_vote, cast_vote, adopt_term, up_to_date}
use wjetcd.Raft.Vote.Once.{request_vote-granted}
use wjetcd.Server.State.{Machine, new_machine}
use wjetcd.Server.Recovery.{recovered}
use wjetcd.Server.Persist.{Codecs, Durable, restore_persistent_state}
use wjetcd.Server.Submit.{Node}
use wjetcd.Server.Startup.{make_persister, server_with, new_server}

-- The node of a server that starts: nothing of Raft is in the server's files.
unfoldable pub restarted : List ByteString → ℤ → Raft Command
unfolding make_persister
restarted peers id = with_helper (fresh_node peers id make_persister [])

-- It grants its vote to any candidate.
fresh-grants :
    (peers : List ByteString) (id : ℤ) (args : RequestVoteArgs)
    → pos 0 ≤ℤ args.term
    → (request_vote (restarted peers id) args).1.vote_granted ≡ true
unfolding request_vote cast_vote adopt_term up_to_date persist make_persister new_log restarted
fresh-grants peers id args term = ground arith

-- A server whose node granted its vote to a candidate starts again on its files, whatever they and
-- its peers are. Its machine is what the files give, but the node that starts with it grants its vote
-- to another candidate of the same term, which is not negative: it has voted twice in the term.
pub new_server-forgets :
    (codecs : Codecs) (gob : Gob Command) (stats reads : Bool) (clock : ℕ → ℤ) (id : ℤ)
    (peers : List ByteString) (journal : Option (List Command)) (d : Durable) (m : Machine)
    (before : Raft Command) (first second : RequestVoteArgs)
    → restore_persistent_state codecs stats reads clock new_machine d ≡ recovered m
    → (request_vote before first).1.vote_granted ≡ true
    → pos 0 ≤ℤ first.term
    → second.term ≡ first.term
    → second.candidate_id ≢ first.candidate_id
    → (n : Node) × (rf : Raft Command) × (new_server codecs gob stats reads clock id peers journal d
        ≡ some n)
      × (n.rf ≡ some rf)
      × (n.server.machine ≡ m)
      × ((request_vote rf second).1.vote_granted ≡ true)
      × ((request_vote rf second).0.current_term ≡ (request_vote before first).0.current_term)
      × ((request_vote rf second).0.voted_for ≢ (request_vote before first).0.voted_for)
unfolding new_server server_with make read_persist make_persister restarted
new_server-forgets codecs gob stats reads clock id peers journal d m before first second e granted
      term same other =
    let rf = restarted peers id in
    let (vote, now, s1, u1) = request_vote-granted before first granted in
    let again = fresh-grants peers id second (rw same term) in
    let (vote', now', s2, u2) = request_vote-granted rf second again in
    (
      record {
        server = server_with journal rf.last_applied m;
        rf = some rf;
        startup_failed = false;
      },
      rf,
      rw (new_server, e) refl,
      refl,
      refl,
      again,
      now' ∙ same ∙ sym now,
      λ twice. other (sym vote' ∙ twice ∙ vote),
    )
