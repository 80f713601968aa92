-- ===== src/Raft/Leader/Commit.antt =====
-- `tryCommitL` of raft/log_replication.go and `Start` of raft/raft.go.
use mathlib.Core.Path.{subst}
use wjetcd.Common.{
  ◌+◌, ◌/◌, ◌<◌, ◌≡◌, ◌≢◌, ◌⊎◌, refl, ◌∙◌, sym, ap, arith, true, false, some, List, [], ◌∷◌, ◌++◌,
  length, length-append, get_elem?-append_last, take-length, ltb, ℤ, pos, ◌+ℤ◌, ◌-ℤ◌, ◌≤ℤ◌,
  int_laws, ltb_ℤ, eqb_ℤ, eqb_ℤ_iff, Bool-cases, inl, inr,
}
use wjetcd.Raft.Log.{
  Entry, Log, Run, ok, panic, append_l, IsValid, get_one_entry, slice_to, get_real_index,
}
use wjetcd.Raft.Log.Bounds.{last_parts, get_one_entry-offset}
use wjetcd.Raft.Node.{Raft, leader, persist, persistent_of, get_entry_term}
use wjetcd.Raft.Leader.{count_matching, commit_majority, try_commit, start}

Run-cases {ℓ} : {A : Type ℓ} (r : Run A) → (r ≡ panic) ⊎ ((a : A) × (r ≡ ok a))
Run-cases (ok a) = inr (a, refl)
Run-cases panic = inl refl

pub ok-injective {ℓ} : {A : Type ℓ} {a b : A} → ok a ≡ ok b → a ≡ b
ok-injective e = cc

panic-ne_ok {ℓ} : {A : Type ℓ} {a : A} → panic ≢ ok a
panic-ne_ok e = cc

module _ {C : Type 0} where
  -- The commit index that `tryCommitL` leaves, if it did not panic.
  pub record CommitRule (rf : Raft C) (index : ℤ) (rf' : Raft C) : Type 0 where
    pub monotone : rf.commit_index ≤ℤ rf'.commit_index
    pub bounded :
        (rf'.commit_index ≡ rf.commit_index)
        ⊎ ((rf'.commit_index ≡ index)
            × (index ≤ℤ rf.log.last_log_index)
            × (get_entry_term rf index ≡ ok rf.current_term)
            × (length rf.peers / 2 < 1 + count_matching index rf.me 0 rf.peer_trackers))

  commit_majority-rule :
      (rf : Raft C) (index : ℤ)
      → rf.commit_index ≤ℤ index
      → index ≤ℤ rf.log.last_log_index
      → get_entry_term rf index ≡ ok rf.current_term
      → CommitRule rf index (commit_majority rf index)
  unfolding commit_majority
  commit_majority-rule rf index low high term =
      elim (Bool-cases
        (ltb (length rf.peers / 2) (1 + count_matching index rf.me 0 rf.peer_trackers))) [
          | inl many ↦
              rw many (record { monotone = low; bounded = inr (refl, high, term, ground arith) })
          | inr few ↦ rw few (record { monotone = omega arith; bounded = inl refl })
        ]

  idle-rule : (rf rf' : Raft C) (index : ℤ) → rf' ≡ rf → CommitRule rf index rf'
  idle-rule rf rf' index e =
      subst (CommitRule rf index) (sym e) (record { monotone = omega arith; bounded = inl refl })

  -- The four tests fail together only where the count is made.
  guarded :
      (rf : Raft C) (index : ℤ)
      → (try_commit rf index ≡ ok rf)
        ⊎ (try_commit rf index ≡ panic)
        ⊎ ((rf.commit_index ≤ℤ index)
            × (index ≤ℤ rf.log.last_log_index)
            × (get_entry_term rf index ≡ ok rf.current_term)
            × (try_commit rf index ≡ ok (commit_majority rf index)))
  unfolding try_commit
  guarded rf index = elim (Bool-cases (ltb_ℤ index rf.commit_index)) [
    | inl behind ↦ inl (rw behind refl)
    | inr t1 ↦ elim (Bool-cases (ltb_ℤ rf.log.last_log_index index)) [
      | inl past ↦ inl (rw (t1, past) refl)
      | inr t2 ↦ elim (Bool-cases (ltb_ℤ index rf.log.first_log_index)) [
        | inl before ↦ inl (rw (t1, t2, before) refl)
        | inr t3 ↦ elim (Run-cases (get_entry_term rf index)) [
          | inl none_there ↦ inr (inl (rw (t1, t2, t3, none_there) refl))
          | inr (term, found) ↦ elim (Bool-cases (eqb_ℤ term rf.current_term)) [
            | inl ours ↦ inr (
                inr (
                  ground arith,
                  ground arith,
                  found ∙ ap ok ((eqb_ℤ_iff term rf.current_term).0 ours),
                  rw (t1, t2, t3, found, ours) refl,
                ))
            | inr theirs ↦ inl (rw (t1, t2, t3, found, theirs) refl)
          ]
        ]
      ]
    ]
  ]

  -- `tryCommitL` never moves the commit index back. Where it moves it, the new commit index is the
  -- given one, lies in the log, has an entry of the current term, and is matched by more than half
  -- of the peers, the leader counted as one.
  pub try_commit-rule :
      (rf rf' : Raft C) (index : ℤ) → try_commit rf index ≡ ok rf' → CommitRule rf index rf'
  try_commit-rule rf rf' index done = elim (guarded rf index) [
    | inl kept ↦ idle-rule rf rf' index (ok-injective (sym done ∙ kept))
    | inr (inl broken) ↦ absurd (panic-ne_ok (sym broken ∙ done))
    | inr (inr (low, high, term, moved)) ↦
        subst (CommitRule rf index) (ok-injective (sym moved ∙ done))
          (commit_majority-rule rf index low high term)
  ]

  -- An entry of the log of the current term, at the commit index or after it, that more than half of
  -- the peers match, the leader counted as one, becomes the commit index.
  pub try_commit-commits :
      (rf : Raft C) (index : ℤ)
      → rf.commit_index ≤ℤ index
      → rf.log.first_log_index ≤ℤ index
      → index ≤ℤ rf.log.last_log_index
      → get_entry_term rf index ≡ ok rf.current_term
      → length rf.peers / 2 < 1 + count_matching index rf.me 0 rf.peer_trackers
      → try_commit rf index ≡ ok (record rf { commit_index = index })
  unfolding try_commit commit_majority
  try_commit-commits rf index later inside reached term many =
      let t1 : ltb_ℤ index rf.commit_index ≡ false = ground arith in
      let t2 : ltb_ℤ rf.log.last_log_index index ≡ false = ground arith in
      let t3 : ltb_ℤ index rf.log.first_log_index ≡ false = ground arith in
      let ours = (eqb_ℤ_iff rf.current_term rf.current_term).1 refl in
      let most : ltb (length rf.peers / 2) (1 + count_matching index rf.me 0 rf.peer_trackers)
          ≡ true =
        ground arith in
      rw (t1, t2, t3, term) (rw ours (rw most refl))

  take_all : (xs : List (Entry C)) → slice_to xs (pos (length xs)) ≡ ok xs
  unfolding slice_to
  take_all xs = let whole = take-length xs in ground (arith, whole)

  -- The log with one entry more.
  abbrev grown : Log C → Entry C → Log C
  grown log e = record log {
    entries = log.entries ++ e ∷ [];
    last_log_index = log.last_log_index +ℤ pos 1;
  }

  last_offset :
      (log : Log C)
      → IsValid log
      → log.last_log_index +ℤ pos 1 ≡ log.first_log_index +ℤ pos (length log.entries)
  last_offset log v = v.sized

  append_l-one :
      (log : Log C) (e : Entry C) → IsValid log → append_l log (e ∷ []) ≡ ok (grown log e)
  unfolding append_l get_real_index
  append_l-one log e v =
      let l = last_parts log v in
      let at : (log.last_log_index -ℤ log.first_log_index) +ℤ pos 1 ≡ pos (length log.entries) =
        omega int_laws in
      rw (at, take_all log.entries) refl

  grown-IsValid : (log : Log C) (e : Entry C) → IsValid log → IsValid (grown log e)
  grown-IsValid log e v =
      let longer = length-append log.entries (e ∷ []) in
      let l = last_parts log v in record { starts = v.starts; sized = omega (int_laws, longer) }

  grown-last :
      (log : Log C) (e : Entry C)
      → IsValid log
      → get_one_entry (grown log e) (log.last_log_index +ℤ pos 1) ≡ some e
  grown-last log e v =
      ap (get_one_entry (grown log e)) v.sized
      ∙ get_one_entry-offset (grown log e) (length log.entries)
      ∙ get_elem?-append_last log.entries e

  -- `Start` on a leader with a valid log appends one entry of the current term with the command at
  -- the index that it returns, just past the last one, hands the new state to labgob, and keeps the log valid.
  pub start-appends :
      (rf : Raft C) (command : C)
      → rf.state ≡ leader
      → IsValid rf.log
      → (rf' : Raft C) × (start rf command
          ≡ ok (rf', rf.log.last_log_index +ℤ pos 1, rf.current_term, true))
        × (rf'.log.last_log_index ≡ rf.log.last_log_index +ℤ pos 1)
        × (get_one_entry rf'.log (rf.log.last_log_index +ℤ pos 1)
            ≡ some (record { term = rf.current_term; command = command }))
        × (rf'.persister.raft_state ≡ some (persistent_of rf'))
        × IsValid rf'.log
  unfolding start persist
  start-appends rf command leads v =
      let e : Entry C = record { term = rf.current_term; command = command } in
      (
        persist (record rf { log = grown rf.log e }),
        rw (leads, append_l-one rf.log e v) refl,
        refl,
        grown-last rf.log e v,
        refl,
        grown-IsValid rf.log e v,
      )
