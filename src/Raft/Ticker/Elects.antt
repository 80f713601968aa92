-- ===== src/Raft/Ticker/Elects.antt =====
-- When a node of raft/raft.go that hears of no leader stands for election.
use wjetcd.Common.{
  ℕ, ◌≡◌, ◌≢◌, refl, ap, ◌∙◌, arith, true, false, if◌then◌else◌, ℤ, pos, ◌+ℤ◌, ◌≤ℤ◌, ◌<ℤ◌, -ℤ_parts,
  +ℤ_parts,
}
use wjetcd.Raft.Node.{Raft, Role, follower, candidate, leader}
use wjetcd.Raft.Vote.{start_election}
use wjetcd.Raft.Ticker.{
  Timers, Tick, rests, elects, sends, tick, reset_election_timer, past_election_timeout,
  past_heartbeat_timeout, reset_heartbeat_timer,
}

-- The election timeout lies between one second and two.
election_timeout_bounds :
    (now : ℤ) (random : ℕ) (t : Timers)
    → let set = reset_election_timer now random t in
      (pos 1000000000 ≤ℤ set.election_timeout) × (set.election_timeout <ℤ pos 2000000000)
unfolding reset_election_timer
election_timeout_bounds now random t = (omega arith, omega arith)

module _ {C : Type 0} (rf : Raft C) (set now : ℤ) (drawn random : ℕ) (t : Timers)
    (alive : rf.dead ≡ false) (not_leading : rf.state ≢ leader) where
  -- The timers as they were set last.
  abbrev timers : Timers
  timers = reset_election_timer set drawn t

  -- What a node does that may stand for election.
  abbrev stands : Tick C
  stands =
      if past_election_timeout now timers
      then elects (start_election rf).0 (start_election rf).1
          (reset_election_timer now random timers)
      else rests

  abbrev leads : Tick C
  leads =
      if past_heartbeat_timeout now timers
      then sends true (reset_election_timer now random (reset_heartbeat_timer now timers))
      else sends false (reset_election_timer now random timers)

  by_role :
      (role : Role)
      → role ≢ leader
      → elim role as (λ r. Tick C) [ follower ↦ stands | candidate ↦ stands | leader ↦ leads ]
        ≡ stands
  by_role follower other = refl
  by_role candidate other = refl
  by_role leader other = absurd (other refl)

  standing : tick now random rf timers ≡ stands
  unfolding tick
  standing =
      ap
        (λ b.
          if b
          then rests
          else (elim rf.state [ follower ↦ stands | candidate ↦ stands | leader ↦ leads ]))
        alive
      ∙ by_role rf.state not_leading

  -- A live node that does not lead, and whose election timer was set last at some time, stands for
  -- election on a tick two seconds later or more, whatever random number was drawn.
  pub tick-elects :
      set +ℤ pos 2000000000 ≤ℤ now
      → tick now random rf timers
        ≡ elects
            (start_election rf).0
            (start_election rf).1
            (reset_election_timer now random timers)
  unfolding past_election_timeout reset_election_timer
  tick-elects late =
      let (low, high) = election_timeout_bounds set drawn t in
      let past : past_election_timeout now timers ≡ true =
        ground (arith, high, -ℤ_parts now set, +ℤ_parts set (pos 2000000000)) in
      rw (standing, past) refl

  -- It rests on a tick up to one second later.
  tick-rests : now ≤ℤ set +ℤ pos 1000000000 → tick now random rf timers ≡ rests
  unfolding past_election_timeout reset_election_timer
  tick-rests early =
      let (low, high) = election_timeout_bounds set drawn t in
      let before : past_election_timeout now timers ≡ false =
        ground (arith, low, -ℤ_parts now set, +ℤ_parts set (pos 1000000000)) in
      rw (standing, before) refl
