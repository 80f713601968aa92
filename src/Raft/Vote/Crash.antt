-- ===== src/Raft/Vote/Crash.antt =====
-- A vote and a restart: `RequestVote`, `persist` and `Make` of raft/.
use wjetcd.Common.{
  ◌≡◌, refl, ap, ◌∙◌, arith, All, List, some, ByteString, ℤ, pos, negsuc, eqb_ℤ, if◌then◌else◌,
}
use wjetcd.Raft.Log.{Log, ok}
use wjetcd.Raft.Node.{
  Raft, Gob, Persistent, make, persist, persistent_of, read_persist, decoded_state, fresh_node,
  with_helper,
}
use wjetcd.Raft.Vote.{RequestVoteArgs, adopt_term, cast_vote, request_vote}

module _ {C : Type 0} where
  -- What was handed to labgob last are the node's own values.
  abbrev pub IsSaved : Raft C → Type 0
  IsSaved rf = rf.persister.raft_state ≡ some (persistent_of rf)

  persist-IsSaved : (rf : Raft C) → IsSaved (persist rf)
  unfolding persist
  persist-IsSaved rf = refl

  -- Before the answer to a candidate is sent its values are handed to labgob.
  request_vote-IsSaved :
      (rf : Raft C) (args : RequestVoteArgs) → IsSaved rf → IsSaved (request_vote rf args).0
  unfolding request_vote adopt_term cast_vote persist
  request_vote-IsSaved rf args saved = ground arith

  -- gob leaves the zero fields of a struct out, and `readPersist` decodes into a new log, whose last
  -- index is -1.
  abbrev pub reread : Log C → Log C
  reread log = record log {
    last_log_index = if eqb_ℤ log.last_log_index (pos 0) then negsuc 0 else log.last_log_index;
  }

  -- The documented behaviour of gob: values come back where the type of each command, which stands in
  -- an interface, was registered.
  pub record IsGob (Registered : C → Type 0) (gob : Gob C) : Type 0 where
    pub read_back :
        (p : Persistent C)
        → All (λ e. Registered e.command) p.saved_log.entries
        → gob p ≡ some (record p { saved_log = reread p.saved_log })

  make-restores :
      (gob : Gob C) (peers : List ByteString) (me : ℤ) (rf : Raft C) (nil : ByteString)
      (p : Persistent C)
      → IsSaved rf
      → gob (persistent_of rf) ≡ some p
      → (again : Raft C) × (make gob peers me rf.persister nil ≡ ok again)
        × (persistent_of again ≡ p)
  unfolding make read_persist
  make-restores gob peers me rf nil p saved back = (
    with_helper (decoded_state (fresh_node peers me rf.persister nil) p),
    ground (arith, saved, back),
    refl,
  )

  log-request_vote : (rf : Raft C) (args : RequestVoteArgs) → (request_vote rf args).0.log ≡ rf.log
  unfolding request_vote adopt_term cast_vote persist
  log-request_vote rf args = ground arith

  -- A node whose term, vote and log were handed to labgob answers a candidate, crashes and starts
  -- again from what was saved last. Where the types of the commands in its log are registered with
  -- gob, it starts without a panic, with the term and the vote with which it answered, and its log,
  -- in which a last index of 0 has become -1.
  pub vote_survives :
      (Registered : C → Type 0) (gob : Gob C) (rf : Raft C) (args : RequestVoteArgs)
      (peers : List ByteString) (me : ℤ) (nil : ByteString)
      → IsGob Registered gob
      → All (λ e. Registered e.command) rf.log.entries
      → IsSaved rf
      → let told = (request_vote rf args).0 in
        (again : Raft C) × (make gob peers me told.persister nil ≡ ok again)
        × (again.current_term ≡ told.current_term)
        × (again.voted_for ≡ told.voted_for)
        × (again.log ≡ reread rf.log)
  vote_survives Registered gob rf args peers me nil codec registered saved =
      let told = (request_vote rf args).0 in
      let kept = log-request_vote rf args in
      let back = codec.read_back (persistent_of told) (rw kept registered) in
      let (again, started, same) =
        make-restores gob peers me told nil _ (request_vote-IsSaved rf args saved) back in
      (
        again,
        started,
        ap (λ p. p.saved_term) same,
        ap (λ p. p.saved_vote) same,
        ap (λ p. p.saved_log) same ∙ ap reread kept,
      )
