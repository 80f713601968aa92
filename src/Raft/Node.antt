-- ===== src/Raft/Node.antt =====
-- raft/raft.go: the state of a node, its persistence and its terms. Timers, the clock and debug
-- output are left out. labgob is a parameter of reading: of what was saved last the model keeps the
-- values that were handed to the encoder, and `Gob` says what decoding makes of their bytes. Terms and indices are unbounded integers, but for the term that a candidate increments.
use wjetcd.Common.{
  Bool, true, false, Option, none, some, List, [], ◌∷◌, if◌then◌else◌, ByteString, ℤ, pos, negsuc,
  ◌+ℤ◌, ltb_ℤ, leb_ℤ, eqb_ℤ,
}
use wjetcd.Raft.Log.{Log, Run, ok, panic, ◌>>=◌, new_log, get_one_entry, entry_term_at}

pub data Role : Type 0 where
  follower candidate leader : Role

abbrev pub is_leader : Role → Bool
is_leader follower = false
is_leader candidate = false
is_leader leader = true

abbrev pub is_candidate : Role → Bool
is_candidate follower = false
is_candidate candidate = true
is_candidate leader = false

-- `None`, the vote of a node that has not voted.
abbrev pub no_vote : ℤ
no_vote = negsuc 0

pub record PeerTracker : Type 0 where
  pub next_index : ℤ
  pub match_index : ℤ

-- The values of the five calls of `Encode` in `persist`.
pub record Persistent (C : Type 0) : Type 0 where
  pub saved_term : ℤ
  pub saved_vote : ℤ
  pub saved_log : Log C
  pub saved_snapshot_index : ℤ
  pub saved_snapshot_term : ℤ

-- What the five calls of `Decode` in `readPersist`, into the variables of a new node, give for the
-- bytes that `persist` made of the values; none is an error. Nothing looks at the errors of `Encode`:
-- they show here.
abbrev pub Gob : Type 0 → Type 0
Gob C = Persistent C → Option (Persistent C)

-- `Persister`: the values whose bytes, and the snapshot that, were saved last.
pub record Persister (C : Type 0) : Type 0 where
  pub raft_state : Option (Persistent C)
  pub saved_snapshot : ByteString

pub record ApplyMsg (C : Type 0) : Type 0 where
  pub command_valid : Bool
  pub command : Option C
  pub command_index : ℤ
  pub snapshot_valid : Bool
  pub snapshot : ByteString
  pub snapshot_term : ℤ
  pub snapshot_index : ℤ

-- `ApplyHelper` of raft/util.go: the queue of messages for the service.
pub record ApplyHelper (C : Type 0) : Type 0 where
  pub last_item_index : ℤ
  pub queue : List (ApplyMsg C)

pub record Raft (C : Type 0) : Type 0 where
  pub peers : List ByteString
  pub persister : Persister C
  pub me : ℤ
  pub dead : Bool
  pub state : Role
  pub current_term : ℤ
  pub voted_for : ℤ
  pub peer_trackers : List PeerTracker
  pub log : Log C
  pub commit_index : ℤ
  pub last_applied : ℤ
  pub apply_helper : ApplyHelper C
  pub snapshot : ByteString
  pub snapshot_last_include_index : ℤ
  pub snapshot_last_include_term : ℤ
  pub election_votes : ℤ
  pub election_done : Bool

unfoldable pub fresh_trackers : List ByteString → List PeerTracker
fresh_trackers [] = []
fresh_trackers (addr ∷ rest) =
    record { next_index = pos 0; match_index = pos 0 } ∷ fresh_trackers rest

module _ {C : Type 0} where
  unfoldable pub get_state : Raft C → ℤ × Bool
  get_state rf = (rf.current_term, is_leader rf.state)

  abbrev pub persistent_of : Raft C → Persistent C
  persistent_of rf = record {
    saved_term = rf.current_term;
    saved_vote = rf.voted_for;
    saved_log = rf.log;
    saved_snapshot_index = rf.snapshot_last_include_index;
    saved_snapshot_term = rf.snapshot_last_include_term;
  }

  -- `SaveRaftState` keeps the saved snapshot; `SaveStateAndSnapshot` replaces both.
  unfoldable pub persist : Raft C → Raft C
  persist rf = record rf {
    persister = record {
      raft_state = some (persistent_of rf);
      saved_snapshot =
          if ltb_ℤ (pos 0) rf.snapshot_last_include_index
          then rf.snapshot
          else rf.persister.saved_snapshot;
    };
  }

  abbrev pub decoded_state : Raft C → Persistent C → Raft C
  decoded_state rf saved = record rf {
    current_term = saved.saved_term;
    voted_for = saved.saved_vote;
    log = saved.saved_log;
    snapshot_last_include_index = saved.saved_snapshot_index;
    snapshot_last_include_term = saved.saved_snapshot_term;
    snapshot = rf.persister.saved_snapshot;
    commit_index = saved.saved_snapshot_index;
    last_applied = saved.saved_snapshot_index;
  }

  -- An error of decoding panics.
  unfoldable pub read_persist : Gob C → Raft C → Run (Raft C)
  read_persist gob rf = elim rf.persister.raft_state [
    | none ↦ ok rf
    | some values ↦ elim (gob values) [ none ↦ panic | some saved ↦ ok (decoded_state rf saved) ]
  ]

  -- The node as `Make` builds it, before it reads what was saved.
  abbrev pub fresh_node : List ByteString → ℤ → Persister C → ByteString → Raft C
  fresh_node peers me persister nil = record {
    peers = peers;
    persister = persister;
    me = me;
    dead = false;
    state = follower;
    current_term = pos 0;
    voted_for = no_vote;
    peer_trackers = fresh_trackers peers;
    log = new_log;
    commit_index = pos 0;
    last_applied = negsuc 0;
    apply_helper = record { last_item_index = negsuc 0; queue = [] };
    snapshot = nil;
    snapshot_last_include_index = pos 0;
    snapshot_last_include_term = pos 0;
    election_votes = pos 0;
    election_done = false;
  }

  -- `NewApplyHelper`
  abbrev pub with_helper : Raft C → Raft C
  with_helper rf = record rf {
    apply_helper = record { last_item_index = rf.last_applied; queue = [] };
  }

  -- `Make`: the queue of the apply helper starts at the last applied index that was read back.
  unfoldable pub make : Gob C → List ByteString → ℤ → Persister C → ByteString → Run (Raft C)
  make gob peers me persister nil =
      read_persist gob (fresh_node peers me persister nil) >>= λ rf. ok (with_helper rf)

  -- `Kill`
  unfoldable pub kill : Raft C → Raft C
  kill rf = record rf { dead = true; state = follower }

  -- `getEntryTerm`
  unfoldable pub get_entry_term : Raft C → ℤ → Run ℤ
  get_entry_term rf index =
      if eqb_ℤ (index +ℤ pos 1) rf.log.first_log_index
      then ok rf.snapshot_last_include_term
      else if ltb_ℤ index rf.log.first_log_index
      then ok (negsuc 0)
      else if ltb_ℤ rf.log.last_log_index index
      then ok (negsuc 0)
      else entry_term_at rf.log index

  unfoldable pub get_last_entry_term : Raft C → ℤ
  get_last_entry_term rf =
      if leb_ℤ rf.log.first_log_index rf.log.last_log_index
      then (elim (get_one_entry rf.log rf.log.last_log_index) [ none ↦ pos 0 | some e ↦ e.term ])
      else rf.snapshot_last_include_term

  -- A node that hears of a later term follows it and has no vote yet; `persist` comes at the call.
  abbrev pub follow_term : Raft C → ℤ → Raft C
  follow_term rf term = record rf { state = follower; current_term = term; voted_for = no_vote }
