-- ===== src/Raft/Apply.antt =====
-- raft/util.go and raft/raft.go: `tryApply`, and the loop of `sendMsgToTester` that hands committed
-- entries to the service.
pub mod Total
use wjetcd.Common.{
  ℕ, zero, suc, ◌≡◌, Bool, true, false, not, ◌&&◌, ◌||◌, Option, none, some, List, [], ◌∷◌, ◌++◌,
  if◌then◌else◌, ByteString, ℤ, pos, negsuc, ◌+ℤ◌, ◌-ℤ◌, ltb_ℤ, leb_ℤ, eqb_ℤ, length,
}
use wjetcd.Raft.Log.{Entry, Log, Run, ok, panic, ◌>>=◌, get_one_entry}
use wjetcd.Raft.Node.{Raft, ApplyMsg, ApplyHelper}

module _ {C : Type 0} where
  abbrev pub enqueue : ApplyHelper C → ApplyMsg C → ℤ → ApplyHelper C
  enqueue helper msg index = record { last_item_index = index; queue = helper.queue ++ msg ∷ [] }

  unfoldable pub try_apply : ApplyHelper C → ApplyMsg C → Run (ApplyHelper C)
  try_apply helper msg =
      if msg.command_valid
      then (if leb_ℤ msg.command_index helper.last_item_index
          then ok helper
          else if eqb_ℤ msg.command_index (helper.last_item_index +ℤ pos 1)
          then ok (enqueue helper msg (helper.last_item_index +ℤ pos 1))
          else panic)
      else if msg.snapshot_valid
      then (if leb_ℤ msg.snapshot_index helper.last_item_index
          then ok helper
          else ok (enqueue helper msg msg.snapshot_index))
      else panic

  abbrev pub command_msg : Entry C → ℤ → ByteString → ApplyMsg C
  command_msg entry index nil = record {
    command_valid = true;
    command = some entry.command;
    command_index = index;
    snapshot_valid = false;
    snapshot = nil;
    snapshot_term = pos 0;
    snapshot_index = pos 0;
  }

  -- One round of the inner loop.
  unfoldable pub apply_next : Raft C → Run (Raft C)
  unfolding try_apply
  apply_next rf =
      let i = rf.last_applied +ℤ pos 1 in
      if ltb_ℤ i rf.log.first_log_index then panic else (elim (get_one_entry rf.log i) [
        | none ↦ panic
        | some entry ↦ try_apply rf.apply_helper (command_msg entry i []) >>= λ helper.
            ok (record rf { last_applied = i; apply_helper = helper })
      ])

  unfoldable pub can_apply : Raft C → Bool
  can_apply rf =
      leb_ℤ (rf.last_applied +ℤ pos 1) rf.commit_index
      && leb_ℤ (rf.last_applied +ℤ pos 1) rf.log.last_log_index

  -- The loop; the fuel is the number of rounds allowed.
  unfoldable pub apply_committed : ℕ → Raft C → Run (Raft C)
  unfolding apply_next can_apply
  apply_committed zero rf = ok rf
  apply_committed (suc fuel) rf =
      let rest = apply_next rf >>= λ rf'. apply_committed fuel rf' in
      if can_apply rf then rest else ok rf
