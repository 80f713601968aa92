-- ===== src/Server/Submit.antt =====
-- server/server.go: `Submit` and the reads that do not pass through Raft. The time is an argument;
-- what the caller waits for is an outcome.
pub mod Answer
use wjetcd.Common.{
  Bool, true, false, not, ◌||◌, if◌then◌else◌, Option, none, some, List, [], ◌∷◌, ByteString, ℤ,
  pos, negsuc, leb_ℤ, Map,
}
use wjetcd.Command.{CommandType, Command, cmd_lease_grant, cmd_lease_keep_alive}
use wjetcd.Kv
use wjetcd.Lease.{expiry_after}
use wjetcd.Raft.Log.{Run, ok, ◌>>=◌}
use wjetcd.Raft.Node.{Raft, is_leader}
use wjetcd.Raft.Leader.{start}
use wjetcd.Server.State.{Server, Reply, awaits, forget}
use wjetcd.Server.Recovery.{effective_ttl}

-- A server with its Raft node, which is nil after a failed start.
pub record Node : Type 0 where
  pub server : Server
  pub rf : Option (Raft Command)
  pub startup_failed : Bool

pub data Refusal : Type 0 where
  unavailable not_leader not_started : Refusal

-- Before the wait: refused, or waiting at an index for a term's entry.
pub data Submitted : Type 0 where
  refused : Refusal → Submitted
  waiting : ℤ → ℤ → Submitted

unfoldable pub is_node_leader : Node → Bool
is_node_leader n = elim n.rf [ none ↦ false | some rf ↦ is_leader rf.state ]

unfoldable pub grants_time : CommandType → Bool
grants_time cmd_lease_grant = true
grants_time cmd_lease_keep_alive = true
grants_time _ = false

-- A lease's command gets a time to live and an expiry.
unfoldable pub with_expiry : ℤ → Command → Command
unfolding grants_time
with_expiry now cmd =
    if grants_time cmd.type
    then record cmd {
      ttl = effective_ttl cmd;
      expire_at =
          if leb_ℤ cmd.expire_at (pos 0)
          then expiry_after now (effective_ttl cmd)
          else cmd.expire_at;
    }
    else cmd

-- `s.replyCh[idx] = replyCh`: a caller that waits at the index already is replaced.
unfoldable pub register : ℤ → Server → Server
register index s = record s {
  pending = if awaits index s.pending then s.pending else index ∷ s.pending;
}

after_start : Node → Raft Command × ℤ × ℤ × Bool → Node × Submitted
unfolding register
after_start n (rf, index, term, true) =
    (record n { server = register index n.server; rf = some rf }, waiting index term)
after_start n (rf, index, term, false) = (record n { rf = some rf }, refused not_started)

submit_to : ℤ → Node → Command → Raft Command → Run (Node × Submitted)
unfolding with_expiry after_start
submit_to now n cmd rf =
    if not (is_leader rf.state)
    then ok (n, refused not_leader)
    else do started ← start rf (with_expiry now cmd); ok (after_start n started)

unfoldable pub submit : ℤ → Node → Command → Run (Node × Submitted)
unfolding submit_to
submit now n cmd =
    if n.startup_failed || n.server.persistence_failed
    then ok (n, refused unavailable)
    else (elim n.rf [ none ↦ ok (n, refused unavailable) | some rf ↦ submit_to now n cmd rf ])

-- After five seconds the caller's channel is removed, and it is told of a time-out.
unfoldable pub time_out : ℤ → Node → Node
time_out index n = record n { server = record n.server { pending = forget index n.server.pending } }

unfoldable pub get : Node → ByteString → ByteString
get n key = Kv.get n.server.store key

unfoldable pub get_prefix : Node → ByteString → Map ByteString ByteString
get_prefix n prefix = Kv.get_prefix n.server.store prefix

-- `GetStats`, without the server's id.
pub record Stats : Type 0 where
  pub leads : Bool
  pub store_size : ℤ
  pub commit_index : ℤ
  pub last_applied : ℤ
  pub current_term : ℤ

unfoldable pub get_stats : Node → Stats
unfolding is_node_leader
get_stats n = record {
  leads = is_node_leader n;
  store_size = pos (Kv.size n.server.store);
  commit_index = elim n.rf [ none ↦ negsuc 0 | some rf ↦ rf.commit_index ];
  last_applied = elim n.rf [ none ↦ negsuc 0 | some rf ↦ rf.last_applied ];
  current_term = elim n.rf [ none ↦ pos 0 | some rf ↦ rf.current_term ];
}
