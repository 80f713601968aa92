-- ===== src/Server/Submit/Answer.antt =====
-- server/server.go: what a caller of `Submit` is told.
use wjetcd.Common.{
  ◌≡◌, refl, ap, ◌∙◌, arith, true, false, inl, inr, Bool-cases, ◌||◌, if◌then◌else◌, none, some, [],
  ◌∷◌, ◌++◌, bytes, ℤ, pos, ◌+ℤ◌, ◌≤ℤ◌, eqb_ℤ_iff, leb_ℤ,
}
use wjetcd.Command.{Command, cmd_put}
use wjetcd.Kv.Reads.{put-answer}
use wjetcd.Raft.Log.{ok, get_one_entry, IsValid}
use wjetcd.Raft.Node.{Raft, leader, is_leader, persistent_of}
use wjetcd.Raft.Leader.Commit.{start-appends}
use wjetcd.Server.State.{Server, Reply, text, with_machine, awaits, notify_reply}
use wjetcd.Server.Callers.{replies-notify_watchers, awaits-forget}
use wjetcd.Server.Progress.{apply_command-switch}
use wjetcd.Server.Loop.{answer_of, running, apply_command, execute_typed, live_write, finish}
use wjetcd.Server.Submit.{
  Node, refused, unavailable, waiting, submit, submit_to, register, with_expiry, after_start,
}

awaits-register : (index : ℤ) (s : Server) → awaits index (register index s).pending ≡ true
unfolding register
awaits-register index s = elim (Bool-cases (awaits index s.pending)) [
  | inl t ↦ rw (t, t) refl
  | inr f ↦ rw f (ground (arith, eqb_ℤ_iff index index))
]

submit-opened :
    (now : ℤ) (n : Node) (cmd : Command) (rf : Raft Command)
    → (n.startup_failed || n.server.persistence_failed) ≡ false
    → n.rf ≡ some rf
    → submit now n cmd ≡ submit_to now n cmd rf
unfolding submit
submit-opened now n cmd rf open_for has =
    ap
      (λ b.
        if b
        then ok (n, refused unavailable)
        else (elim n.rf [ none ↦ ok (n, refused unavailable) | some r ↦ submit_to now n cmd r ]))
      open_for
    ∙ ap (λ o. elim o [ none ↦ ok (n, refused unavailable) | some r ↦ submit_to now n cmd r ]) has

-- On a leader with a valid log, of a server that started and whose journal has not failed, a caller
-- waits at the index after the last entry. There the log then has the command in the current term,
-- with an expiry if it grants or prolongs a lease; the log is valid, the values handed to
-- labgob for saving are the node's own, and nothing of the server but its table of callers changed.
pub submit-waits :
    (now : ℤ) (n : Node) (cmd : Command) (rf : Raft Command)
    → n.startup_failed ≡ false
    → n.server.persistence_failed ≡ false
    → n.rf ≡ some rf
    → rf.state ≡ leader
    → IsValid rf.log
    → let index = rf.log.last_log_index +ℤ pos 1 in
      (n' : Node) × (rf' : Raft Command) × (submit now n cmd
        ≡ ok (n', waiting index rf.current_term))
      × (n'.rf ≡ some rf')
      × (get_one_entry rf'.log index
          ≡ some (record { term = rf.current_term; command = with_expiry now cmd }))
      × (rf'.persister.raft_state ≡ some (persistent_of rf'))
      × IsValid rf'.log
      × (awaits index n'.server.pending ≡ true)
      × (n'.server.machine ≡ n.server.machine)
      × (n'.server.replies ≡ n.server.replies)
unfolding submit_to after_start
submit-waits now n cmd rf up sound has leads v =
    let index = rf.log.last_log_index +ℤ pos 1 in
    let (rf', e, grown, entry, saved, valid) = start-appends rf (with_expiry now cmd) leads v in
    (
      record n { server = register index n.server; rf = some rf' },
      rf',
      submit-opened now n cmd rf (ground (arith, up, sound)) has
          ∙ rw (submit_to, ap is_leader leads, e) refl,
      refl,
      entry,
      saved,
      valid,
      awaits-register index n.server,
      refl,
      refl,
    )

-- The reply goes to the caller.
finish-told :
    (index : ℤ) (s : Server) (reply : Reply)
    → pos 0 ≤ℤ index
    → awaits index s.pending ≡ true
    → (s' : Server) × (finish index s reply ≡ running s')
      × (s'.replies ≡ s.replies ++ (index, reply) ∷ [])
      × (awaits index s'.pending ≡ false)
unfolding finish notify_reply
finish-told index s reply h waits =
    let counts : leb_ℤ (pos 0) index ≡ true = ground (arith, h) in
    rw (finish, counts, notify_reply, waits) (_, refl, refl, awaits-forget index s.pending)

-- A write tells the watchers only.
live_write-keeps :
    (s : Server) (cmd : Command)
    → ((live_write s cmd).0.replies ≡ s.replies) × ((live_write s cmd).0.pending ≡ s.pending)
unfolding live_write
live_write-keeps s cmd = replies-notify_watchers (with_machine s _) cmd

put-answers :
    (index : ℤ) (s : Server) (cmd : Command)
    → pos 0 ≤ℤ index
    → awaits index s.pending ≡ true
    → cmd.type ≡ cmd_put
    → (s' : Server) × (execute_typed cmd_put index s cmd ≡ running s')
      × (s'.replies ≡ s.replies ++ (index, text (bytes "")) ∷ [])
      × (awaits index s'.pending ≡ false)
unfolding execute_typed live_write
put-answers index s cmd h waits put =
    let (s1, reply) = live_write s cmd in
    let kept = live_write-keeps s cmd in
    let (s2, e, r, p) = finish-told index s1 reply h (ap (awaits index) kept.1 ∙ waits) in
    let said : reply ≡ text (bytes "") =
      ap (λ a. text (answer_of a)) (put-answer s.store cmd put) in
    (
      s2,
      e,
      r ∙ ap (λ l. l ++ (index, reply) ∷ []) kept.0 ∙ ap (λ m. s.replies ++ (index, m) ∷ []) said,
      p,
    )

-- A caller waits at an index for any command. If the command that is committed there is a put, by
-- whatever leader and in whatever term, and the journal takes it, the caller is told of success
-- with the empty answer of that put.
pub told_of_another :
    (now index : ℤ) (s : Server) (another : Command)
    → s.persistence_failed ≡ false
    → pos 0 ≤ℤ index
    → awaits index s.pending ≡ true
    → another.type ≡ cmd_put
    → (s' : Server) × (apply_command now true index s another ≡ running s')
      × (s'.replies ≡ s.replies ++ (index, text (bytes "")) ∷ [])
      × (awaits index s'.pending ≡ false)
told_of_another now index s another healthy h waits put =
    let (s1, stamped, e, r, p, t) = apply_command-switch now index s another healthy in
    let (s2, f, r', p') = put-answers index s1 stamped h (ap (awaits index) p ∙ waits) (t ∙ put) in
    (
      s2,
      e ∙ ap (λ t. execute_typed t index s1 stamped) put ∙ f,
      r' ∙ ap (λ l. l ++ (index, text (bytes "")) ∷ []) r,
      p',
    )
