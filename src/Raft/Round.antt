-- ===== src/Raft/Round.antt =====
-- One round of replication: the request that a leader sends (`AppendEntries` of raft/raft.go), what
-- the follower does with it (`handleAppendEntriesRPC` of raft/rpc.go), and what the leader makes of
-- the reply.
use wjetcd.Common.{
  ℕ, suc, ◌-◌, ◌+◌, ◌/◌, ◌<◌, ◌≡◌, refl, ◌∙◌, sym, ap, arith, true, false, some, List, length,
  get_elem?, drop, length-drop, ltb, ℤ, pos, ◌+ℤ◌, ◌≤ℤ◌, ltb_ℤ, int_laws,
}
use wjetcd.Raft.Log.{Entry, ok, IsValid, entry_count}
use wjetcd.Raft.Log.Bounds.{last_parts}
use wjetcd.Raft.Node.{Raft, PeerTracker, leader, is_leader, get_entry_term}
use wjetcd.Raft.Append.{AppendArgs, reply_of}
use wjetcd.Raft.Leader.{
  count_matching, tracker_at, try_commit, with_tracker, on_success, on_append_reply,
}
use wjetcd.Raft.Leader.Commit.{ok-injective, try_commit-commits}
use wjetcd.Raft.Leader.Positions.{index_at, get_elem?-set, get_entry_term-inside, try_commit-total}

module _ {C : Type 0} (lead : Raft C) (j : ℕ) where
  -- The entries after the previous one, and the request that carries them.
  abbrev pub sent : List (Entry C)
  sent = drop (suc j) lead.log.entries

  abbrev pub request : ℤ → AppendArgs C
  request prev_term = record {
    leader_term = lead.current_term;
    leader_id = lead.me;
    prev_log_index = index_at lead.log j;
    prev_log_term = prev_term;
    entries = sent;
    leader_commit = lead.commit_index;
  }

module _ {C : Type 0} (lead : Raft C) (target : ℕ) where
  -- The leader after a reply that reports success, before it commits: the peer has its whole log.
  abbrev pub acknowledged : Raft C
  acknowledged = with_tracker lead target (record {
    next_index = lead.log.last_log_index +ℤ pos 1;
    match_index = lead.log.last_log_index;
  })

module _ {C : Type 0} (lead : Raft C) (target : ℕ) (tracker : PeerTracker) (j : ℕ)
    (leads : lead.state ≡ leader) (v : IsValid lead.log)
    (tracked : get_elem? lead.peer_trackers target ≡ some tracker)
    (next : tracker.next_index ≡ index_at lead.log (suc j))
    (more : suc j < length lead.log.entries) where
  matched : index_at lead.log j +ℤ entry_count (sent lead j) ≡ lead.log.last_log_index
  matched =
      let size = length-drop (suc j) lead.log.entries in
      let l = last_parts lead.log v in omega (int_laws, size)

  reply-commits :
      (term : ℤ)
      → (lead' : Raft C) × (on_append_reply lead target
            (request lead j term)
            (reply_of lead.current_term true)
          ≡ ok (lead', false))
        × (try_commit (acknowledged lead target) lead.log.last_log_index ≡ ok lead')
        × (get_elem? lead'.peer_trackers target
            ≡ some (record {
              next_index = lead.log.last_log_index +ℤ pos 1;
              match_index = lead.log.last_log_index;
            }))
  unfolding on_append_reply on_success tracker_at with_tracker get_entry_term
  reply-commits term =
      let n = length lead.log.entries in
      let l = last_parts lead.log v in
      let end : index_at lead.log (n - 1) ≡ lead.log.last_log_index = omega int_laws in
      let (e, found, at) = get_entry_term-inside lead (n - 1) v (omega arith) in
      let (lead', run, trackers) =
        try_commit-total (acknowledged lead target) lead.log.last_log_index e.term
          (ap (get_entry_term lead) (sym end) ∙ at) in
      let led : is_leader lead.state ≡ true = ap is_leader leads in
      let current : ltb_ℤ lead.current_term lead.current_term ≡ false = ground arith in
      let nonempty : ltb 0 (length (sent lead j)) ≡ true =
        ground (arith, length-drop (suc j) lead.log.entries) in
      (
        lead',
        rw (led, current, tracker_at, tracked) (rw (nonempty, matched) (rw run refl)),
        run,
        ap (λ l. get_elem? l target) trackers
            ∙ get_elem?-set lead.peer_trackers target tracker _ tracked,
      )

  -- A leader has entries for a follower past the one at position `j`, its last entry is of its
  -- current term, and with this follower more than half of the peers have its whole log. When the
  -- follower reports that it took the entries, the leader commits all of its log.
  pub round-commits :
      (term : ℤ)
      → let last = lead.log.last_log_index in
        get_entry_term lead last ≡ ok lead.current_term
        → lead.commit_index ≤ℤ last
        → length lead.peers / 2
          < 1 + count_matching last lead.me 0 (acknowledged lead target).peer_trackers
        → (lead' : Raft C) × (on_append_reply lead target
              (request lead j term)
              (reply_of lead.current_term true)
            ≡ ok (lead', false))
          × (lead'.commit_index ≡ last)
  unfolding with_tracker get_entry_term
  round-commits term ours later many =
      let l = last_parts lead.log v in
      let (lead', replied, run, rest) = reply-commits term in
      let committed =
        try_commit-commits (acknowledged lead target) lead.log.last_log_index later (omega int_laws)
          (omega arith) ours many in
      (lead', replied, ap (λ r. r.commit_index) (ok-injective (sym run ∙ committed)))
