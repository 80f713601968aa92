-- ===== src/Raft/Vote/Targets.antt =====
-- The peers that `StartElection` of raft/leader_election.go asks for their vote.
use wjetcd.Common.{
  ℕ, zero, suc, ◌+◌, ◌≤◌, ◌<◌, ◌≡◌, ◌≢◌, refl, ◌∙◌, sym, ap, arith, Bool, true, false, ◌||◌, List,
  [], ◌∷◌, ByteString, length, ℤ, pos, +ℤ_parts, ltb_ℤ, eqb_ℤ, Bool-cases, inl, inr,
}
use wjetcd.Raft.Node.{Raft, leader, get_last_entry_term, persist}
use wjetcd.Raft.Vote.TwoLeaders.{last_vote-elects}
use wjetcd.Raft.Vote.{
  RequestVoteArgs, start_election, request_vote, adopt_term, cast_vote, up_to_date, on_vote_reply,
  become_candidate, vote_targets,
}

-- Whether a number is in a list.
pub lists : List ℕ → ℕ → Bool
lists [] j = false
lists (i ∷ rest) j = eqb_ℤ (pos i) (pos j) || lists rest j

vote_targets-other :
    (me : ℤ) (i : ℕ) (peers : List ByteString) (k : ℕ)
    → k < length peers
    → me ≢ pos (i + k)
    → lists (vote_targets me i peers) (i + k) ≡ true
unfolding vote_targets lists
vote_targets-other me i [] k h other = elim h [ ]
vote_targets-other me i (addr ∷ rest) zero h other = elim (Bool-cases (eqb_ℤ me (pos i))) [
  | inl own ↦ absurd (other (ground arith))
  | inr asked ↦ rw asked (ground arith)
]
vote_targets-other me i (addr ∷ rest) (suc k) h other =
    let same : i + suc k ≡ suc i + k = omega arith in
    let found =
      vote_targets-other me (suc i) rest k (omega arith) (λ e. other (e ∙ ap pos (sym same))) in
    rw same (elim (Bool-cases (eqb_ℤ me (pos i))) [
      | inl own ↦ rw own found
      | inr asked ↦ rw (asked, found) (ground arith)
    ])

module _ {C : Type 0} where
  -- A node that is asked for the vote that it gave already gives it again and stays as it was, but
  -- for what is saved.
  asked_again :
      (rf : Raft C) (args : RequestVoteArgs)
      → rf.dead ≡ false
      → args.term ≡ rf.current_term
      → rf.voted_for ≡ args.candidate_id
      → up_to_date rf args ≡ true
      → request_vote rf args ≡ (
        persist (record rf { voted_for = args.candidate_id }),
        record { term = rf.current_term; vote_granted = true },
      )
  unfolding request_vote adopt_term cast_vote up_to_date persist get_last_entry_term
  asked_again rf args alive term own recent =
      let old : ltb_ℤ args.term rf.current_term ≡ false = ground arith in
      let new : ltb_ℤ rf.current_term args.term ≡ false = ground arith in
      let mine : eqb_ℤ rf.voted_for args.candidate_id ≡ true = ground arith in
      rw (alive, old, new, mine, recent) (ground arith)

  up_to_date-own :
      (rf : Raft C) (term : ℤ)
      → up_to_date rf (record {
        term = term;
        candidate_id = rf.me;
        last_log_index = rf.log.last_log_index;
        last_log_term = get_last_entry_term rf;
      })
        ≡ true
  unfolding up_to_date
  up_to_date-own rf term = ground arith

  own_reply :
      (rf : Raft C)
      → rf.dead ≡ false
      → request_vote (start_election rf).0 (start_election rf).1 ≡ (
        persist (start_election rf).0,
        record { term = (start_election rf).1.term; vote_granted = true },
      )
  unfolding start_election persist become_candidate get_last_entry_term
  own_reply rf alive =
      asked_again (start_election rf).0 (start_election rf).1 alive refl refl
        (up_to_date-own (start_election rf).0 (start_election rf).1.term)

  own_election :
      (rf : Raft C)
      → length rf.peers ≤ 3
      → (on_vote_reply
          (persist (start_election rf).0)
          (start_election rf).1.term
          (record { term = (start_election rf).1.term; vote_granted = true })).state
        ≡ leader
  unfolding start_election persist become_candidate
  own_election rf few =
      let two = +ℤ_parts (pos 1) (pos 1) in
      (last_vote-elects (persist (start_election rf).0) (start_election rf).1.term
        (record { term = (start_election rf).1.term; vote_granted = true }) refl refl refl refl refl
        (omega arith)).0

  -- A live node with an id in range that counts from 1, as the replication counts, is among the peers that
  -- `StartElection` asks, which counts from 0; and in a cluster of at most three nodes its answer
  -- to itself makes it the leader without any other node's vote.
  pub elects_itself :
      (rf : Raft C) (own : ℕ)
      → rf.dead ≡ false
      → rf.me ≡ pos (suc own)
      → own < length rf.peers
      → length rf.peers ≤ 3
      → let (stood, args) = start_election rf in
        let (voted, reply) = request_vote stood args in
        (lists (vote_targets rf.me 0 rf.peers) own ≡ true)
        × ((on_vote_reply voted args.term reply).state ≡ leader)
  elects_itself rf own alive id there few =
      let zeroth : 0 + own ≡ own = omega arith in
      (
        ap (lists (vote_targets rf.me 0 rf.peers)) (sym zeroth)
            ∙ vote_targets-other rf.me 0 rf.peers own there (λ e. ground arith),
        rw (own_reply rf alive) (own_election rf few),
      )
