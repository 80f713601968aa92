-- ===== src/Raft/Vote/Keeps.antt =====
-- What the handlers and the replies of raft/ do to the term and the vote of a node.
use wjetcd.Common.{
  ◌≡◌, ◌≢◌, ◌⊎◌, inl, inr, refl, ◌∙◌, sym, ap, arith, Bool, ℕ, ℤ, ◌≤ℤ◌, pos_part, neg_part,
  eq_of_parts,
}
use wjetcd.Raft.Log.{Run, ok, panic}
use wjetcd.Raft.Node.{Raft, PeerTracker, no_vote, persist}
use wjetcd.Raft.Append.{
  AppendArgs, AppendReply, meet_leader, commit_up_to, replicate_log, handle_append_entries,
}
use wjetcd.Raft.Leader.{
  on_heartbeat_reply, on_append_reply, on_success, on_failure, try_commit, commit_majority,
  with_tracker, tracker_at,
}
use wjetcd.Raft.Snapshot.{InstallArgs, request_install_snapshot, install, deliver, on_install_reply}
use wjetcd.Raft.Sync.{
  handle_heartbeat, sync_append_entries, sync_log, sync_empty, sync_matched, sync_mismatched,
  commit_synced, accept_leader,
}

Run-cases : {A : Type 0} (r : Run A) → ((a : A) × (r ≡ ok a)) ⊎ (r ≡ panic)
Run-cases (ok a) = inl (a, refl)
Run-cases panic = inr refl

module _ {C : Type 0} where
  -- The term did not fall, and within a term a vote was not changed.
  pub record KeepsVote (rf rf' : Raft C) : Type 0 where
    pub later : rf.current_term ≤ℤ rf'.current_term
    pub same :
        rf'.current_term ≡ rf.current_term → rf.voted_for ≢ no_vote → rf'.voted_for ≡ rf.voted_for

  pub KeepsVote-trans : {a b c : Raft C} → KeepsVote a b → KeepsVote b c → KeepsVote a c
  KeepsVote-trans {a} {b} {c} p q = record {
    later = omega (arith, p.later, q.later);
    same = λ e v.
        let first : b.current_term ≡ a.current_term =
          eq_of_parts _ _ (omega (arith, p.later, q.later, ap pos_part e, ap neg_part e)) in
        let kept = p.same first v in q.same (e ∙ sym first) (λ unset. v (sym kept ∙ unset)) ∙ kept;
  }

  -- Term and vote as they were.
  abbrev SameVote : Raft C → Raft C → Type 0
  SameVote rf rf' = (rf'.current_term ≡ rf.current_term) × (rf'.voted_for ≡ rf.voted_for)

  SameVote-KeepsVote : (a b c : Raft C) → KeepsVote a b → SameVote b c → KeepsVote a c
  SameVote-KeepsVote a b c k (term, vote) =
      KeepsVote-trans k
        (record { later = omega (arith, ap pos_part term, ap neg_part term); same = λ e v. vote })

  meet_leader-KeepsVote : (rf : Raft C) (term : ℤ) → KeepsVote rf (meet_leader rf term)
  unfolding meet_leader persist
  meet_leader-KeepsVote rf term = ground arith

  replicate_log-SameVote :
      (rf rf' : Raft C) (args : AppendArgs C) (reply : AppendReply)
      → replicate_log rf args ≡ ok (rf', reply)
      → SameVote rf rf'
  unfolding replicate_log commit_up_to
  replicate_log-SameVote rf rf' args reply e = ground arith

  pub handle_append_entries-KeepsVote :
      (rf rf' : Raft C) (args : AppendArgs C) (reply : AppendReply)
      → handle_append_entries rf args ≡ ok (rf', reply)
      → KeepsVote rf rf'
  unfolding handle_append_entries
  handle_append_entries-KeepsVote rf rf' args reply e = ground (
    arith,
    meet_leader-KeepsVote rf args.leader_term,
    replicate_log-SameVote (meet_leader rf args.leader_term) rf' args reply,
  )

  try_commit-SameVote :
      (rf rf' : Raft C) (index : ℤ) → try_commit rf index ≡ ok rf' → SameVote rf rf'
  unfolding try_commit commit_majority
  try_commit-SameVote rf rf' index e = ground arith

  deliver-SameVote :
      (rf rf' : Raft C) (args : InstallArgs) → deliver rf args ≡ ok rf' → SameVote rf rf'
  unfolding deliver
  deliver-SameVote rf rf' args e = ground arith

  pub request_install_snapshot-KeepsVote :
      (rf rf' : Raft C) (args : InstallArgs) (term : ℤ)
      → request_install_snapshot rf args ≡ ok (rf', term)
      → KeepsVote rf rf'
  unfolding request_install_snapshot install deliver persist
  request_install_snapshot-KeepsVote rf rf' args term e = ground arith

  pub on_install_reply-KeepsVote :
      (rf rf' : Raft C) (target : ℕ) (args : InstallArgs) (term : ℤ)
      → on_install_reply rf target args term ≡ ok rf'
      → KeepsVote rf rf'
  unfolding on_install_reply with_tracker persist try_commit commit_majority
  on_install_reply-KeepsVote rf rf' target args term e = ground arith

  on_success-SameVote :
      (rf rf' : Raft C) (target : ℕ) (tracker : PeerTracker) (args : AppendArgs C)
      → on_success rf target tracker args ≡ ok rf'
      → SameVote rf rf'
  unfolding on_success with_tracker try_commit commit_majority
  on_success-SameVote rf rf' target tracker args e = ground arith

  on_failure-SameVote :
      (rf rf' : Raft C) (target : ℕ) (tracker : PeerTracker) (reply : AppendReply) (behind : Bool)
      → on_failure rf target tracker reply ≡ ok (rf', behind)
      → SameVote rf rf'
  unfolding on_failure with_tracker
  on_failure-SameVote rf rf' target tracker reply behind e = ground arith

  pub on_append_reply-KeepsVote :
      (rf rf' : Raft C) (target : ℕ) (args : AppendArgs C) (reply : AppendReply) (behind : Bool)
      → on_append_reply rf target args reply ≡ ok (rf', behind)
      → KeepsVote rf rf'
  unfolding on_append_reply persist
  on_append_reply-KeepsVote rf rf' target args reply behind e =
      elim (Run-cases (tracker_at rf target)) [
        | inl (tracker, t) ↦ ground (
          arith,
          t,
          on_success-SameVote rf rf' target tracker args,
          on_failure-SameVote rf rf' target tracker reply behind,
        )
        | inr t ↦ ground (arith, t)
      ]

  pub handle_heartbeat-KeepsVote :
      (rf : Raft C) (args : AppendArgs C) → KeepsVote rf (handle_heartbeat rf args).0
  unfolding handle_heartbeat persist
  handle_heartbeat-KeepsVote rf args = ground arith

  pub on_heartbeat_reply-KeepsVote :
      (rf : Raft C) (reply : AppendReply) → KeepsVote rf (on_heartbeat_reply rf reply)
  unfolding on_heartbeat_reply persist
  on_heartbeat_reply-KeepsVote rf reply = ground arith

  sync_log-SameVote :
      (rf rf' : Raft C) (args : AppendArgs C) (reply : AppendReply)
      → sync_log rf args ≡ ok (rf', reply)
      → SameVote rf rf'
  unfolding sync_log sync_empty sync_matched sync_mismatched commit_synced
  sync_log-SameVote rf rf' args reply e = ground arith

  pub sync_append_entries-KeepsVote :
      (rf rf' : Raft C) (args : AppendArgs C) (reply : AppendReply)
      → sync_append_entries rf args ≡ ok (rf', reply)
      → KeepsVote rf rf'
  unfolding sync_append_entries accept_leader persist
  sync_append_entries-KeepsVote rf rf' args reply e =
      elim (Run-cases (sync_log (accept_leader rf args.leader_term) args)) [
        | inl (q, t) ↦
            ground (arith, t, sync_log-SameVote (accept_leader rf args.leader_term) q.0 args q.1)
        | inr t ↦ ground (arith, t)
      ]
