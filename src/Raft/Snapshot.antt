-- ===== src/Raft/Snapshot.antt =====
-- raft/snapshot.go: taking a snapshot, and installing the leader's.
pub mod Cut
pub mod Install
use wjetcd.Common.{
  ℕ, true, false, not, Option, none, some, [], if◌then◌else◌, ByteString, ℤ, pos, ◌+ℤ◌, ◌-ℤ◌, ltb_ℤ,
  leb_ℤ, max_ℤ,
}
use wjetcd.Raft.Log.{Log, Run, ok, panic, ◌>>=◌, get_real_index, slice_from}
use wjetcd.Raft.Node.{
  Raft, follower, is_leader, no_vote, persist, get_entry_term, ApplyMsg, follow_term,
}
use wjetcd.Raft.Apply.{try_apply}
use wjetcd.Raft.Leader.{with_tracker, try_commit}

pub record InstallArgs : Type 0 where
  pub term : ℤ
  pub leader_id : ℤ
  pub last_include_index : ℤ
  pub last_include_term : ℤ
  pub snapshot : ByteString

module _ {C : Type 0} where
  -- The log after the index, as `Snapshot` cuts it.
  unfoldable pub cut_log : Log C → ℤ → Run (Log C)
  cut_log log index =
      let first = index +ℤ pos 1 in
      if leb_ℤ first log.last_log_index
      then (slice_from log.entries (first -ℤ log.first_log_index) >>= λ kept.
          ok (record log { entries = kept; first_log_index = first }))
      else ok (record { entries = []; first_log_index = first; last_log_index = first -ℤ pos 1 })

  -- `Snapshot`; an index past the last applied one panics.
  unfoldable pub take_snapshot : Raft C → ℤ → ByteString → Run (Raft C)
  unfolding cut_log
  take_snapshot rf index snapshot =
      if not (is_leader rf.state)
      then ok rf
      else if ltb_ℤ index rf.log.first_log_index
      then ok rf
      else if ltb_ℤ rf.last_applied index
      then panic
      else do
        term ← get_entry_term rf index
        log ← cut_log rf.log index
        ok (
            persist (record rf {
              snapshot = snapshot;
              snapshot_last_include_index = index;
              snapshot_last_include_term = term;
              log = log;
              commit_index = max_ℤ rf.commit_index index;
              last_applied = max_ℤ rf.last_applied index;
            }))

  -- The log after the leader's snapshot.
  unfoldable pub replace_log : Log C → ℤ → Run (Log C)
  replace_log log index =
      if leb_ℤ log.last_log_index index
      then ok (record { entries = []; first_log_index = index +ℤ pos 1; last_log_index = index })
      else do
        kept ← slice_from log.entries (get_real_index log (index +ℤ pos 1))
        ok (record log { entries = kept; first_log_index = index +ℤ pos 1 })

  abbrev pub snapshot_msg : InstallArgs → ApplyMsg C
  snapshot_msg args = record {
    command_valid = false;
    command = none;
    command_index = pos 0;
    snapshot_valid = true;
    snapshot = args.snapshot;
    snapshot_term = args.last_include_term;
    snapshot_index = args.last_include_index;
  }

  -- The service gets the snapshot if it has not applied as much.
  unfoldable pub deliver : Raft C → InstallArgs → Run (Raft C)
  unfolding try_apply
  deliver rf args =
      if ltb_ℤ rf.last_applied args.last_include_index
      then (try_apply rf.apply_helper (snapshot_msg args) >>= λ helper.
          ok (record rf { apply_helper = helper; last_applied = args.last_include_index }))
      else ok rf

  abbrev pub with_snapshot : Raft C → InstallArgs → Log C → Raft C
  with_snapshot rf args log = record rf {
    snapshot = args.snapshot;
    snapshot_last_include_index = args.last_include_index;
    snapshot_last_include_term = args.last_include_term;
    log = log;
  }

  unfoldable pub install : Raft C → InstallArgs → Run (Raft C)
  unfolding replace_log deliver
  install rf args =
      if ltb_ℤ rf.snapshot_last_include_index args.last_include_index
      then (do
        log ← replace_log rf.log args.last_include_index
        rf' ← deliver (with_snapshot rf args log) args
        ok (record rf' { commit_index = max_ℤ rf'.commit_index args.last_include_index }))
      else ok rf

  -- `RequestInstallSnapshot`: the new state and the term of the reply.
  unfoldable pub request_install_snapshot : Raft C → InstallArgs → Run (Raft C × ℤ)
  unfolding install
  request_install_snapshot rf args =
      if ltb_ℤ args.term rf.current_term
      then ok (rf, rf.current_term)
      else (let met =
            if ltb_ℤ rf.current_term args.term
            then record rf { state = follower; voted_for = no_vote; current_term = args.term }
            else record rf { state = follower } in
          install met args >>= λ rf'. ok (persist rf', met.current_term))

  -- The request of `InstallSnapshot`.
  unfoldable pub install_request : Raft C → Option InstallArgs
  install_request rf =
      if not (is_leader rf.state)
      then none
      else some (record {
        term = rf.current_term;
        leader_id = rf.me;
        last_include_index = rf.snapshot_last_include_index;
        last_include_term = rf.snapshot_last_include_term;
        snapshot = rf.snapshot;
      })

  -- What `InstallSnapshot` does with a reply of the given term.
  unfoldable pub on_install_reply : Raft C → ℕ → InstallArgs → ℤ → Run (Raft C)
  unfolding try_commit
  on_install_reply rf target args term =
      if not (is_leader rf.state)
      then ok rf
      else if ltb_ℤ term rf.current_term
      then ok rf
      else if ltb_ℤ rf.current_term term
      then ok (persist (follow_term rf term))
      else try_commit
          (with_tracker rf target (record {
            next_index = args.last_include_index +ℤ pos 1;
            match_index = args.last_include_index;
          }))
          args.last_include_index
