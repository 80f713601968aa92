-- ===== src/Raft/Append.antt =====
-- raft/rpc.go: `handleAppendEntriesRPC`, the handler of the path /raft/append_entries.
pub mod Place
pub mod Replicate
pub mod Shift
use wjetcd.Common.{
  ℕ, suc, ◌≡◌, Bool, true, false, not, ◌&&◌, ◌||◌, Option, none, some, List, [], ◌∷◌, ◌++◌,
  if◌then◌else◌, ByteString, ℤ, pos, negsuc, ◌+ℤ◌, ◌-ℤ◌, ltb_ℤ, leb_ℤ, eqb_ℤ, min_ℤ,
}
use wjetcd.Raft.Log.{Entry, Log, Run, ok, panic, ◌>>=◌, get_real_index, entry_term_at, slice_to}
use wjetcd.Raft.Node.{Raft, Role, follower, candidate, leader, no_vote, persist}

pub record AppendArgs (C : Type 0) : Type 0 where
  pub leader_term : ℤ
  pub leader_id : ℤ
  pub prev_log_index : ℤ
  pub prev_log_term : ℤ
  pub entries : List (Entry C)
  pub leader_commit : ℤ

pub record AppendReply : Type 0 where
  pub follower_term : ℤ
  pub success : Bool
  pub prev_log_index : ℤ
  pub prev_log_term : ℤ

-- The two fields that the handler sets.
abbrev pub reply_of : ℤ → Bool → AppendReply
reply_of term success = record {
  follower_term = term;
  success = success;
  prev_log_index = pos 0;
  prev_log_term = pos 0;
}

module _ {C : Type 0} where
  unfoldable pub append_entry : Log C → Entry C → Log C
  append_entry log entry = record log {
    entries = log.entries ++ entry ∷ [];
    last_log_index = log.last_log_index +ℤ pos 1;
  }

  -- An entry of another term is dropped with all that follow it.
  unfoldable pub overwrite : Log C → ℤ → Entry C → Run (Log C)
  unfolding append_entry
  overwrite log index entry = do
    term ← entry_term_at log index
    if eqb_ℤ term entry.term then ok log else do
      kept ← slice_to log.entries (get_real_index log index)
      ok (append_entry (record log { entries = kept; last_log_index = index -ℤ pos 1 }) entry)

  -- One round of the loop over the entries, at the index of the entry.
  unfoldable pub place_entry : Log C → ℤ → Entry C → Run (Log C)
  unfolding overwrite append_entry
  place_entry log index entry =
      if ltb_ℤ index log.first_log_index
      then ok log
      else if leb_ℤ index log.last_log_index
      then overwrite log index entry
      else ok (append_entry log entry)

  unfoldable pub place_entries : Log C → ℤ → List (Entry C) → Run (Log C)
  place_entries log prev [] = ok log
  place_entries log prev (entry ∷ rest) =
      place_entry log (prev +ℤ pos 1) entry >>= λ log'. place_entries log' (prev +ℤ pos 1) rest

  -- The check of the previous entry, which is not made at index 0 or below.
  unfoldable pub prev_matches : Log C → ℤ → ℤ → Run Bool
  prev_matches log prev term =
      if ltb_ℤ (pos 0) prev
      then (if ltb_ℤ log.last_log_index prev
          then ok false
          else entry_term_at log prev >>= λ t. ok (eqb_ℤ t term))
      else ok true

  unfoldable pub commit_up_to : Raft C → ℤ → Raft C
  commit_up_to rf leader_commit =
      if ltb_ℤ rf.commit_index leader_commit
      then record rf { commit_index = min_ℤ leader_commit rf.log.last_log_index }
      else rf

  -- The part after the term checks.
  unfoldable pub replicate_log : Raft C → AppendArgs C → Run (Raft C × AppendReply)
  unfolding prev_matches place_entries place_entry commit_up_to
  replicate_log rf args = do
    matched ← prev_matches rf.log args.prev_log_index args.prev_log_term
    if not matched then ok (rf, reply_of rf.current_term false) else do
      log ← place_entries rf.log args.prev_log_index args.entries
      let rf' = commit_up_to (record rf { log = log }) args.leader_commit
      ok (rf', reply_of rf'.current_term true)

  -- A later term is adopted, and `persist` called.
  unfoldable pub meet_leader : Raft C → ℤ → Raft C
  meet_leader rf term =
      let adopted =
        if ltb_ℤ rf.current_term term
        then persist (record rf { current_term = term; voted_for = no_vote })
        else rf in
      record adopted { state = follower }

  unfoldable pub handle_append_entries : Raft C → AppendArgs C → Run (Raft C × AppendReply)
  unfolding replicate_log
  handle_append_entries rf args =
      if rf.dead
      then ok (rf, reply_of rf.current_term false)
      else if ltb_ℤ args.leader_term rf.current_term
      then ok (rf, reply_of rf.current_term false)
      else replicate_log (meet_leader rf args.leader_term) args
