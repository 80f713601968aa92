-- ===== src/Raft/Append/Replicate.antt =====
-- `handleAppendEntriesRPC` of raft/rpc.go on a request that it accepts.
use wjetcd.Common.{
  ℕ, suc, ◌≤◌, ◌<◌, ◌≡◌, refl, ◌∙◌, ap, arith, true, false, some, List, [], ◌∷◌, length, get_elem?,
  inl, inr, ◌⊎◌, ℤ, pos, negsuc, ◌+ℤ◌, ◌≤ℤ◌, ◌<ℤ◌, pos_part, neg_part, +ℤ_parts, -ℤ_parts,
  eq_of_parts, int_laws,
}
use wjetcd.Raft.Log.{
  Entry, Log, ok, panic, IsValid, entry_term_at, get_one_entry, get_real_index, element_at,
}
use wjetcd.Raft.Node.{Raft, persist}
use wjetcd.Raft.Append.{
  AppendArgs, reply_of, place_entries, prev_matches, commit_up_to, replicate_log, meet_leader,
  handle_append_entries,
}
use wjetcd.Raft.Append.Place.{place_entry-Placed}

module _ {C : Type 0} where
  -- From position `k` on the log holds the given entries, where in place of an entry it may hold the
  -- one of the same term that the old log had there.
  abbrev pub Holds : Log C → Log C → ℕ → List (Entry C) → Type 0
  Holds old log k [] = Unit {0}
  Holds old log k (entry ∷ rest) =
      ((e : Entry C) × (get_elem? log.entries k ≡ some e)
        × ((e ≡ entry) ⊎ ((get_elem? old.entries k ≡ some e) × (e.term ≡ entry.term))))
      × Holds old log (suc k) rest

  -- An older log that has all the entries of the old one from `m` on serves as well.
  Holds-older :
      (entries : List (Entry C)) (older old log : Log C) (k m : ℕ)
      → m ≤ k
      → ((j : ℕ) (e : Entry C)
          → m ≤ j
          → get_elem? old.entries j ≡ some e
          → get_elem? older.entries j ≡ some e)
      → Holds old log k entries
      → Holds older log k entries
  Holds-older [] older old log k m h from held = tt
  Holds-older (entry ∷ rest) older old log k m h from ((e, found, why), more) = (
    (e, found, elim why [ inl same ↦ inl same | inr (there, term) ↦ inr (from k e h there, term) ]),
    Holds-older rest older old log (suc k) m (omega arith) from more,
  )

  -- The log after a request: valid, with the request's entries from position `k` on, and unchanged
  -- before it.
  pub record Replicated (log : Log C) (k : ℕ) (entries : List (Entry C)) (log' : Log C)
      : Type 0 where
    pub valid : IsValid log'
    pub first : log'.first_log_index ≡ log.first_log_index
    pub reaches : k ≤ length log'.entries
    pub held : Holds log log' k entries
    pub kept : (j : ℕ) → j < k → get_elem? log'.entries j ≡ get_elem? log.entries j

  pub place_entries-Replicated :
      (entries : List (Entry C)) (log : Log C) (prev : ℤ) (k : ℕ)
      → IsValid log
      → k ≤ length log.entries
      → prev +ℤ pos 1 ≡ log.first_log_index +ℤ pos k
      → (log' : Log C) × (place_entries log prev entries ≡ ok log') × Replicated log k entries log'
  unfolding place_entries
  place_entries-Replicated [] log prev k v h at =
      (log, refl, record { valid = v; first = refl; reaches = h; held = tt; kept = λ j b. refl })
  place_entries-Replicated (entry ∷ rest) log prev k v h at =
      let (log1, step, p) = place_entry-Placed log k entry v h in
      let next : prev +ℤ pos 1 +ℤ pos 1 ≡ log1.first_log_index +ℤ pos (suc k) =
        rw (p.first, at) (omega int_laws) in
      let (log2, run, r) =
        place_entries-Replicated rest log1 (prev +ℤ pos 1) (suc k) p.valid p.reaches next in
      let stays = r.kept k (omega arith) in
      (
        log2,
        rw (at, step) (rw at at run),
        record {
          valid = r.valid;
          first = r.first ∙ p.first;
          reaches = omega (arith, r.reaches);
          held = (
            (p.found.0, stays ∙ p.found.1, p.found.2),
            Holds-older rest log log1 log2 (suc k) (suc k) (omega arith)
                (λ j e b at. p.rest_old j e (omega (arith, b)) at) r.held,
          );
          kept = λ j b. r.kept j (omega arith) ∙ p.kept j b;
        },
      )

  pub log-meet_leader : (rf : Raft C) (term : ℤ) → (meet_leader rf term).log ≡ rf.log
  unfolding meet_leader persist
  log-meet_leader rf term = ground arith

  pub term-meet_leader :
      (rf : Raft C) (term : ℤ) → rf.current_term ≤ℤ term → (meet_leader rf term).current_term ≡ term
  unfolding meet_leader persist
  term-meet_leader rf term h = ground (arith, eq_of_parts rf.current_term term)

  pub log-commit_up_to : (rf : Raft C) (n : ℤ) → (commit_up_to rf n).log ≡ rf.log
  unfolding commit_up_to
  log-commit_up_to rf n = ground arith

  pub term-commit_up_to : (rf : Raft C) (n : ℤ) → (commit_up_to rf n).current_term ≡ rf.current_term
  unfolding commit_up_to
  term-commit_up_to rf n = ground arith

  -- The node after it has taken the log over.
  abbrev pub taken_over : Raft C → AppendArgs C → Log C → Raft C
  taken_over rf args log =
      commit_up_to (record (meet_leader rf args.leader_term) { log = log }) args.leader_commit

  pub replicate_log-run :
      (rf : Raft C) (args : AppendArgs C) (log : Log C)
      → prev_matches rf.log args.prev_log_index args.prev_log_term ≡ ok true
      → place_entries rf.log args.prev_log_index args.entries ≡ ok log
      → replicate_log rf args
        ≡ ok (
          commit_up_to (record rf { log = log }) args.leader_commit,
          reply_of (commit_up_to (record rf { log = log }) args.leader_commit).current_term true,
        )
  unfolding replicate_log
  replicate_log-run rf args log matched placed = rw (matched, placed)

  -- A node that is not killed and has a valid log answers a request of its term or a later one with
  -- success, if the previous entry passes the check, lies in the log or just before its first
  -- entry, and the request is not before the log. Then its log is valid and holds the request's
  -- entries at their indices, where in place of one it may keep an entry of the same term that it had
  -- there; before them it holds what it held, and the node is in the term of the request. It does not
  -- panic.
  pub handle_append_entries-success :
      (rf : Raft C) (args : AppendArgs C) (k : ℕ)
      → IsValid rf.log
      → rf.dead ≡ false
      → rf.current_term ≤ℤ args.leader_term
      → prev_matches rf.log args.prev_log_index args.prev_log_term ≡ ok true
      → args.prev_log_index +ℤ pos 1 ≡ rf.log.first_log_index +ℤ pos k
      → k ≤ length rf.log.entries
      → (rf' : Raft C) × (handle_append_entries rf args ≡ ok (rf', reply_of args.leader_term true))
        × Replicated rf.log k args.entries rf'.log
        × (rf'.current_term ≡ args.leader_term)
  unfolding handle_append_entries
  handle_append_entries-success rf args k v alive term matched at h =
      let (log, placed, r) =
        place_entries-Replicated args.entries rf.log args.prev_log_index k v h at in
      let met = meet_leader rf args.leader_term in
      let same = log-meet_leader rf args.leader_term in
      let run = replicate_log-run met args log (rw same matched) (rw same placed) in
      let current =
        term-commit_up_to (record met { log = log }) args.leader_commit
        ∙ term-meet_leader rf args.leader_term term in
      (
        taken_over rf args log,
        ground (arith, run, current),
        rw (log-commit_up_to (record met { log = log }) args.leader_commit) r,
        current,
      )

  real_index_before :
      (log : Log C) (prev : ℤ)
      → prev +ℤ pos 1 ≡ log.first_log_index
      → get_real_index log prev ≡ negsuc 0
  unfolding get_real_index
  real_index_before log prev before =
      let at = +ℤ_parts prev (pos 1) in
      let p = ap pos_part before in
      let n = ap neg_part before in omega (arith, -ℤ_parts prev log.first_log_index, eq_of_parts)

  prev_matches-panic :
      (log : Log C) (prev term : ℤ)
      → prev +ℤ pos 1 ≡ log.first_log_index
      → pos 0 <ℤ prev
      → prev ≤ℤ log.last_log_index
      → prev_matches log prev term ≡ panic
  unfolding prev_matches entry_term_at get_one_entry element_at
  prev_matches-panic log prev term before positive inside =
      ground (arith, real_index_before log prev before)

  replicate_log-panic :
      (rf : Raft C) (args : AppendArgs C)
      → prev_matches rf.log args.prev_log_index args.prev_log_term ≡ panic
      → replicate_log rf args ≡ panic
  unfolding replicate_log
  replicate_log-panic rf args h = rw h

  -- A node that is not killed, whose log starts after index 1, as after a snapshot, panics on a
  -- request of its term or a later one whose previous index is the one before the log's first and
  -- not past its last: it asks for an entry that it dropped.
  pub handle_append_entries-panic :
      (rf : Raft C) (args : AppendArgs C)
      → rf.dead ≡ false
      → rf.current_term ≤ℤ args.leader_term
      → args.prev_log_index +ℤ pos 1 ≡ rf.log.first_log_index
      → pos 0 <ℤ args.prev_log_index
      → args.prev_log_index ≤ℤ rf.log.last_log_index
      → handle_append_entries rf args ≡ panic
  unfolding handle_append_entries
  handle_append_entries-panic rf args alive term before positive inside =
      let same = log-meet_leader rf args.leader_term in
      let check =
        prev_matches-panic rf.log args.prev_log_index args.prev_log_term before positive inside in
      ground (arith, replicate_log-panic (meet_leader rf args.leader_term) args (rw same check))
