-- ===== src/Raft/Ticker.antt =====
-- The timers of a node and `ticker` of raft/raft.go, with those of raft/leader_election.go and
-- raft/log_replication.go, and which peer a request goes to. Times are nanoseconds; the clock and
-- `rand.Int63` are arguments. A tick says what the node does; the doing is in Raft/Vote and
-- Raft/Leader.
pub mod Elects
use wjetcd.Common.{
  ℕ, zero, suc, ◌+◌, ◌*◌, ◌/◌, ◌%◌, Bool, true, false, not, ◌&&◌, if◌then◌else◌, ltb, Option, none,
  some, List, [], ◌∷◌, ByteString, bytes_eq, ℤ, pos, ◌+ℤ◌, ◌-ℤ◌, ltb_ℤ, leb_ℤ, eqb_ℤ, length,
  get_elem?,
}
use wjetcd.Raft.Node.{Raft, Role, follower, candidate, leader}
use wjetcd.Raft.Vote.{RequestVoteArgs, start_election}

abbrev pub base_election_timeout : ℕ
base_election_timeout = 1000

-- 150 milliseconds.
abbrev pub heartbeat_timeout : ℤ
heartbeat_timeout = pos 150000000

pub record Timers : Type 0 where
  pub election_timeout : ℤ
  pub last_election : ℤ
  pub last_heartbeat : ℤ

-- `rand.Int63` gives a number that is not negative.
unfoldable pub reset_election_timer : ℤ → ℕ → Timers → Timers
reset_election_timer now random t = record t {
  election_timeout = pos ((base_election_timeout + random % base_election_timeout) * 1000000);
  last_election = now;
}

unfoldable pub past_election_timeout : ℤ → Timers → Bool
past_election_timeout now t = ltb_ℤ t.election_timeout (now -ℤ t.last_election)

unfoldable pub past_heartbeat_timeout : ℤ → Timers → Bool
past_heartbeat_timeout now t = ltb_ℤ heartbeat_timeout (now -ℤ t.last_heartbeat)

unfoldable pub reset_heartbeat_timer : ℤ → Timers → Timers
reset_heartbeat_timer now t = record t { last_heartbeat = now }

-- What a tick does: nothing, an election, or requests to the peers, as heartbeats or with entries.
pub data Tick (C : Type 0) : Type 0 where
  rests : Tick C
  elects : Raft C → RequestVoteArgs → Timers → Tick C
  sends : Bool → Timers → Tick C

-- The peers that `StartAppendEntries` sends to, by number from `i` on: `rf.me` counts from 1.
unfoldable pub append_targets : ℤ → ℕ → List ByteString → List ℕ
append_targets me i [] = []
append_targets me i (addr ∷ rest) =
    let others = append_targets me (suc i) rest in
    if eqb_ℤ (pos i) (me -ℤ pos 1) then others else i ∷ others

module _ {C : Type 0} where
  -- `becomeCandidate` resets the election timer, and so does `StartAppendEntries`.
  unfoldable pub tick : ℤ → ℕ → Raft C → Timers → Tick C
  unfolding reset_election_timer past_election_timeout past_heartbeat_timeout reset_heartbeat_timer
  tick now random rf t =
      let standing =
        if past_election_timeout now t
        then (let (stood, request) = start_election rf in
            elects stood request (reset_election_timer now random t))
        else rests in
      if rf.dead then rests else (elim rf.state [
        | follower ↦ standing
        | candidate ↦ standing
        | leader ↦
            if past_heartbeat_timeout now t
            then sends true (reset_election_timer now random (reset_heartbeat_timer now t))
            else sends false (reset_election_timer now random t)
      ])

  -- The address that `sendRequestAppendEntries` posts to, if there is one.
  unfoldable pub address_of : Raft C → ℕ → Option ByteString
  address_of rf server =
      if eqb_ℤ (pos server) (rf.me -ℤ pos 1) then none else (elim (get_elem? rf.peers server) [
        | none ↦ none
        | some addr ↦ if bytes_eq addr [] then none else some addr
      ])

-- `quorumActive`, which nothing calls: the trackers' last answers, from number `i` on.
unfoldable pub active_peers : ℤ → ℤ → ℕ → List ℤ → ℕ
active_peers now me i [] = 0
active_peers now me i (last_ack ∷ rest) =
    let others = active_peers now me (suc i) rest in
    if not (eqb_ℤ (pos i) me) && leb_ℤ (now -ℤ last_ack) (pos (2 * base_election_timeout * 1000000))
    then suc others
    else others

unfoldable pub quorum_active : ℤ → ℤ → ℕ → List ℤ → Bool
unfolding active_peers
quorum_active now me peers last_acks = ltb peers (2 * (1 + active_peers now me 0 last_acks))
