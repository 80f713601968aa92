-- ===== src/Raft/Snapshot/Install.antt =====
-- A follower's installation of a snapshot: `RequestInstallSnapshot` of raft/snapshot.go.
use mathlib.Core.Path.{subst}
use wjetcd.Common.{
  ◌≤◌, ◌≡◌, refl, ◌∙◌, ap, arith, true, false, if◌then◌else◌, length, some, ℤ, pos, ◌+ℤ◌, ◌≤ℤ◌,
  ◌<ℤ◌, pos_part, neg_part, int_laws, ltb_ℤ, leb_ℤ, max_ℤ, Bool-cases, inl, inr,
}
use wjetcd.Raft.Log.{Log, ok, ◌>>=◌, IsValid, get_real_index}
use wjetcd.Raft.Log.Bounds.{offset, last_parts, get_real_index-offset}
use wjetcd.Raft.Node.{Raft, follower, no_vote, ApplyHelper, persist, persistent_of}
use wjetcd.Raft.Apply.{try_apply, enqueue}
use wjetcd.Raft.Snapshot.{
  InstallArgs, replace_log, deliver, with_snapshot, install, snapshot_msg, request_install_snapshot,
}
use wjetcd.Raft.Snapshot.Cut.{
  Cuts, empty_from, empty_from-Cuts, from_index, from_index-Cuts, slice_from-drop,
}

module _ {C : Type 0} where
  replace_log-Cuts :
      (log : Log C) (index : ℤ)
      → IsValid log
      → log.first_log_index ≤ℤ index +ℤ pos 1
      → (log' : Log C) × (replace_log log index ≡ ok log') × Cuts log (index +ℤ pos 1) log'
  unfolding replace_log
  replace_log-Cuts log index v low =
      let last = last_parts log v in
      let starts = v.starts in
      elim (Bool-cases (leb_ℤ log.last_log_index index)) [
        | inl past ↦ (
          empty_from index,
          rw past refl,
          empty_from-Cuts log index (omega int_laws) (ground arith),
        )
        | inr inside ↦
            let (k, at) = offset log.first_log_index (index +ℤ pos 1) low in
            let p = ap pos_part at in
            let n = ap neg_part at in
            let real = ap (get_real_index log) at ∙ get_real_index-offset log k in
            let below : index <ℤ log.last_log_index = ground arith in
            let fits : k ≤ length log.entries = omega int_laws in
            (
              from_index log (index +ℤ pos 1) k,
              rw (inside, real, slice_from-drop log.entries k fits) refl,
              from_index-Cuts log (index +ℤ pos 1) k v at fits,
            )
      ]

  try_apply-snapshot :
      (helper : ApplyHelper C) (args : InstallArgs)
      → (helper' : ApplyHelper C) × (try_apply helper (snapshot_msg args) ≡ ok helper')
  unfolding try_apply
  try_apply-snapshot helper args =
      elim (Bool-cases (leb_ℤ args.last_include_index helper.last_item_index)) [
        | inl known ↦ (helper, rw known refl)
        | inr new ↦ (enqueue helper (snapshot_msg args) args.last_include_index, rw new refl)
      ]

  -- What the delivery to the service leaves as it was, and how far the node has applied then.
  deliver-runs :
      (rf : Raft C) (args : InstallArgs)
      → (rf' : Raft C) × (deliver rf args ≡ ok rf')
        × (rf'.log ≡ rf.log)
        × (rf'.current_term ≡ rf.current_term)
        × (rf'.snapshot ≡ rf.snapshot)
        × (args.last_include_index ≤ℤ rf'.last_applied)
  unfolding deliver
  deliver-runs rf args = elim (Bool-cases (ltb_ℤ rf.last_applied args.last_include_index)) [
    | inl behind ↦
        let (helper, done) = try_apply-snapshot rf.apply_helper args in
        (
          record rf { apply_helper = helper; last_applied = args.last_include_index },
          rw (behind, done) refl,
          refl,
          refl,
          refl,
          omega arith,
        )
    | inr ahead ↦ (rf, rw ahead refl, refl, refl, refl, ground arith)
  ]

  install-Cuts :
      (rf : Raft C) (args : InstallArgs)
      → IsValid rf.log
      → rf.snapshot_last_include_index <ℤ args.last_include_index
      → rf.log.first_log_index ≤ℤ args.last_include_index +ℤ pos 1
      → (rf' : Raft C) × (install rf args ≡ ok rf')
        × Cuts rf.log (args.last_include_index +ℤ pos 1) rf'.log
        × (rf'.current_term ≡ rf.current_term)
        × (rf'.snapshot ≡ args.snapshot)
        × (args.last_include_index ≤ℤ rf'.last_applied)
        × (args.last_include_index ≤ℤ rf'.commit_index)
  unfolding install
  install-Cuts rf args v newer low =
      let (log, cut, cuts) = replace_log-Cuts rf.log args.last_include_index v low in
      let (rf1, told, kept, term, image, applied) = deliver-runs (with_snapshot rf args log) args in
      let fresh : ltb_ℤ rf.snapshot_last_include_index args.last_include_index ≡ true =
        ground arith in
      (
        record rf1 { commit_index = max_ℤ rf1.commit_index args.last_include_index },
        rw (fresh, cut, told) refl,
        rw kept cuts,
        term,
        image,
        applied,
        ground arith,
      )

  abbrev met_by : Raft C → InstallArgs → Raft C
  met_by rf args =
      if ltb_ℤ rf.current_term args.term
      then record rf { state = follower; voted_for = no_vote; current_term = args.term }
      else record rf { state = follower }

  met_by-keeps :
      (rf : Raft C) (args : InstallArgs)
      → rf.current_term ≤ℤ args.term
      → ((met_by rf args).current_term ≡ args.term)
        × ((met_by rf args).log ≡ rf.log)
        × ((met_by rf args).snapshot_last_include_index ≡ rf.snapshot_last_include_index)
  met_by-keeps rf args h = ground arith

  met_by-installs :
      (rf : Raft C) (args : InstallArgs)
      → rf.current_term ≤ℤ args.term
      → request_install_snapshot rf args
        ≡ (install (met_by rf args) args >>= λ rf'. ok (persist rf', (met_by rf args).current_term))
  unfolding request_install_snapshot
  met_by-installs rf args h =
      let not_old : ltb_ℤ args.term rf.current_term ≡ false = ground arith in rw not_old refl

  -- A node with a valid log that is offered a newer snapshot, of its term or a later one and not
  -- from before its log, installs it without a panic: its log then starts after the snapshot's
  -- index, is valid and holds what it held from there on, it has the snapshot and counts it as
  -- applied and committed, and the values handed to labgob for saving are those of its new state, in
  -- the request's term.
  pub request_install_snapshot-Cuts :
      (rf : Raft C) (args : InstallArgs)
      → IsValid rf.log
      → rf.current_term ≤ℤ args.term
      → rf.snapshot_last_include_index <ℤ args.last_include_index
      → rf.log.first_log_index ≤ℤ args.last_include_index +ℤ pos 1
      → (rf' : Raft C) × (request_install_snapshot rf args ≡ ok (rf', args.term))
        × Cuts rf.log (args.last_include_index +ℤ pos 1) rf'.log
        × (rf'.current_term ≡ args.term)
        × (rf'.snapshot ≡ args.snapshot)
        × (args.last_include_index ≤ℤ rf'.last_applied)
        × (args.last_include_index ≤ℤ rf'.commit_index)
        × (rf'.persister.raft_state ≡ some (persistent_of rf'))
  unfolding persist
  request_install_snapshot-Cuts rf args v h newer low =
      let (term, log, saved) = met_by-keeps rf args h in
      let (rf1, run, cuts, same, image, applied, committed) =
        install-Cuts (met_by rf args) args (rw log v) (rw saved newer) (rw log low) in
      (
        persist rf1,
        met_by-installs rf args h
            ∙ ap (λ r. r >>= λ rf'. ok (persist rf', (met_by rf args).current_term)) run
            ∙ ap (λ t. ok (persist rf1, t)) term,
        subst (λ l. Cuts l (args.last_include_index +ℤ pos 1) rf1.log) log cuts,
        same ∙ term,
        image,
        applied,
        committed,
        refl,
      )
