-- ===== src/Raft/Apply/Total.antt =====
-- The loop of `sendMsgToTester` in raft/raft.go and the queue of raft/util.go.
use wjetcd.Common.{
  ℕ, zero, suc, ◌+◌, ◌≤◌, ◌≡◌, refl, ap, sym, ◌∙◌, arith, true, false, some, List, [], ◌∷◌, ◌++◌,
  ++-assoc, append_empty, length, ℤ, pos, ◌+ℤ◌, ◌-ℤ◌, ◌≤ℤ◌, pos_part, +ℤ_parts, -ℤ_parts, int_laws,
  Bool-cases, inl, inr,
}
use wjetcd.Raft.Log.{Entry, Log, Run, ok, IsValid, get_one_entry}
use wjetcd.Raft.Log.Bounds.{get_one_entry-some}
use wjetcd.Raft.Node.{Raft, ApplyMsg}
use wjetcd.Raft.Apply.{try_apply, apply_next, apply_committed, can_apply, command_msg, enqueue}

stays_at : (i : ℤ) → i ≡ i +ℤ pos 0
stays_at i = omega int_laws

next_at : (i : ℤ) (n : ℕ) → i +ℤ pos 1 +ℤ pos n ≡ i +ℤ pos (suc n)
next_at i n = omega int_laws

module _ {C : Type 0} where
  -- The log is valid, nothing before it is still to be applied, and the queue stands where the node
  -- does.
  pub record IsReady (rf : Raft C) : Type 0 where
    pub valid : IsValid rf.log
    pub in_log : rf.log.first_log_index ≤ℤ rf.last_applied +ℤ pos 1
    pub aligned : rf.apply_helper.last_item_index ≡ rf.last_applied

  -- The node after the next entry was handed over.
  abbrev advanced : Raft C → Entry C → Raft C
  advanced rf e =
      let i = rf.last_applied +ℤ pos 1 in
      record rf {
        last_applied = i;
        apply_helper =
            enqueue rf.apply_helper (command_msg e i []) (rf.apply_helper.last_item_index +ℤ pos 1);
      }

  apply_next-run :
      (rf : Raft C) (e : Entry C)
      → rf.log.first_log_index ≤ℤ rf.last_applied +ℤ pos 1
      → rf.apply_helper.last_item_index ≡ rf.last_applied
      → get_one_entry rf.log (rf.last_applied +ℤ pos 1) ≡ some e
      → apply_next rf ≡ ok (advanced rf e)
  unfolding apply_next try_apply
  apply_next-run rf e low aligned found =
      let next = +ℤ_parts rf.last_applied (pos 1) in
      let i = ap (λ x. x +ℤ pos 1) aligned in ground (arith, found, i)

  advanced-IsReady : (rf : Raft C) (e : Entry C) → IsReady rf → IsReady (advanced rf e)
  advanced-IsReady rf e r =
      let low = r.in_log in
      record { valid = r.valid; in_log = omega int_laws; aligned = ap (λ x. x +ℤ pos 1) r.aligned }

  -- Where the loop can go on, a round succeeds.
  apply_next-ready :
      (rf : Raft C)
      → IsReady rf
      → can_apply rf ≡ true
      → (e : Entry C) × (get_one_entry rf.log (rf.last_applied +ℤ pos 1) ≡ some e)
        × (apply_next rf ≡ ok (advanced rf e))
  unfolding can_apply
  apply_next-ready rf r more =
      let (e, found) =
        get_one_entry-some rf.log (rf.last_applied +ℤ pos 1) r.valid r.in_log (ground arith) in
      (e, found, apply_next-run rf e r.in_log r.aligned found)

  -- The rounds that are left, at most.
  abbrev pub rounds : Raft C → ℕ
  rounds rf = pos_part (rf.log.last_log_index -ℤ rf.last_applied)

  spent : (rf : Raft C) → rounds rf ≡ 0 → can_apply rf ≡ false
  unfolding can_apply
  spent rf h =
      let gap = -ℤ_parts rf.log.last_log_index rf.last_applied in
      let next = +ℤ_parts rf.last_applied (pos 1) in ground arith

  rounds-advanced :
      (rf : Raft C) (e : Entry C) → can_apply rf ≡ true → rounds (advanced rf e) + 1 ≡ rounds rf
  unfolding can_apply
  rounds-advanced rf e more =
      let gap = -ℤ_parts rf.log.last_log_index rf.last_applied in
      let gap' = -ℤ_parts rf.log.last_log_index (rf.last_applied +ℤ pos 1) in
      let next = +ℤ_parts rf.last_applied (pos 1) in ground arith

  -- The messages carry the commands of the log's entries one after another, from an index on.
  abbrev pub Hands : Log C → ℤ → List (ApplyMsg C) → Type 0
  Hands log i [] = Unit {0}
  Hands log i (msg ∷ rest) =
      ((e : Entry C) × (get_one_entry log i ≡ some e) × (msg ≡ command_msg e i []))
      × Hands log (i +ℤ pos 1) rest

  -- Where the loop ended.
  abbrev pub Ended : Raft C → Run (Raft C) → Type 0
  Ended rf out =
      (rf' : Raft C) × (out ≡ ok rf')
      × (can_apply rf' ≡ false)
      × (rf'.log ≡ rf.log)
      × (rf'.commit_index ≡ rf.commit_index)
      × IsReady rf'
      × (msgs : List (ApplyMsg C)) × (rf'.apply_helper.queue ≡ rf.apply_helper.queue ++ msgs)
      × Hands rf.log (rf.last_applied +ℤ pos 1) msgs
      × (rf'.last_applied ≡ rf.last_applied +ℤ pos (length msgs))

  stopped :
      (rf : Raft C)
      → IsReady rf
      → can_apply rf ≡ false
      → {out : Run (Raft C)} → out ≡ ok rf
      → Ended rf out
  stopped rf r stop {out} e = (
    rf,
    e,
    stop,
    refl,
    refl,
    r,
    [],
    sym (append_empty rf.apply_helper.queue),
    tt,
    stays_at rf.last_applied,
  )

  -- From a node with a valid log that holds the next entry to apply or ends before it, and a queue
  -- that stands where the node does, with fuel for the entries that are left, the loop does not panic,
  -- and stops where the commit index or the end of the log is reached, neither of which it changes. It
  -- has put a message into the queue for each entry that it went over, in order, with the entry's
  -- command and index, and nothing else; the queue stands where the node does.
  pub apply_committed-total :
      (fuel : ℕ) (rf : Raft C) → IsReady rf → rounds rf ≤ fuel → Ended rf (apply_committed fuel rf)
  unfolding apply_committed
  apply_committed-total zero rf r enough = stopped rf r (spent rf (omega arith)) refl
  apply_committed-total (suc fuel) rf r enough = elim (Bool-cases (can_apply rf)) [
    | inr stop ↦ stopped rf r stop (rw stop refl)
    | inl more ↦
        let (e, found, step) = apply_next-ready rf r more in
        let (rf', run, done, log, commit, r', msgs, queued, hands, at) =
          apply_committed-total fuel (advanced rf e) (advanced-IsReady rf e r)
            (omega (arith, rounds-advanced rf e more)) in
        let msg = command_msg e (rf.last_applied +ℤ pos 1) [] in
        (
          rf',
          rw (more, step) run,
          done,
          log,
          commit,
          r',
          msg ∷ msgs,
          queued ∙ ++-assoc rf.apply_helper.queue (msg ∷ []) msgs,
          ((e, found, refl), hands),
          at ∙ next_at rf.last_applied (length msgs),
        )
  ]
