-- ===== src/Server/Handler/Bypass.antt =====
-- server/handler.go: a lock's lease is granted beside the journal.
use wjetcd.Common.{
  ◌≡◌, ◌≢◌, refl, ap, ◌∙◌, arith, true, false, ByteString, bytes, [], Option, ℤ, pos, inc64, Map,
  eqb_ℤ, ltb_ℤ, if◌then◌else◌,
}
use wjetcd.Command.{Command, cmd_lease_grant}
use wjetcd.Lease.{grant, grant_until}
use wjetcd.Lock.{LockInfo, LockManager, is_held, acquire, take_lock}
use wjetcd.Server.Persist.Snapshots.{filled-bytes_eq}
use wjetcd.Server.State.{Machine, Server, with_machine}
use wjetcd.Server.Recovery.{
  recovered, restamp, recover_typed, takes_revision, grant_recovered, apply_recovered_command,
  catch_up_rev, caught_up,
}
use wjetcd.Server.Agree.{machine-finish}
use wjetcd.Server.Replay.{after_write, journalled, type-stamp, machine-stamp}
use wjetcd.Server.Loop.{stamp, apply_command, server_of, execute_typed, live_grant}
use wjetcd.Server.Handler.{Request, is_write, query_get, lock_acquire}

-- A lock request that succeeds takes a lease id.
pub lock_acquire-takes_id :
    (scan : ByteString → Option ℤ) (now : ℤ) (fresh_name : ByteString) (lm : LockManager)
    (r : Request)
    → is_write r.method ≡ true
    → query_get r (bytes "key") ≢ []
    → is_held lm (query_get r (bytes "key")) ≡ false
    → (lock_acquire scan now fresh_name lm r).0.lease_mgr.lease_id ≡ inc64 lm.lease_mgr.lease_id
unfolding lock_acquire acquire take_lock grant grant_until
lock_acquire-takes_id scan now fresh_name lm r write key free =
    rw (lock_acquire, write, filled-bytes_eq (query_get r (bytes "key")) key, acquire, free) refl

-- The loop grants the next id.
loop_grants :
    (now index : ℤ) (s : Server) (cmd : Command)
    → s.persistence_failed ≡ false
    → cmd.type ≡ cmd_lease_grant
    → (server_of (apply_command now true index s cmd)).machine.lease_mgr.lease_id
      ≡ inc64 s.machine.lease_mgr.lease_id
unfolding apply_command execute_typed live_grant grant_until takes_revision
loop_grants now index s cmd healthy grants =
    let (m, stamped) = stamp now s.machine cmd in
    let same = machine-stamp now s.machine cmd (ap takes_revision grants) in
    let written = record (with_machine s m) { wal = after_write s.wal stamped } in
    ap (λ (q : Server). q.machine.lease_mgr.lease_id)
      (journalled s.wal index (with_machine s m) stamped healthy
        ∙ ap (λ t. server_of (execute_typed t index written stamped))
            (type-stamp now s.machine cmd ∙ grants))
    ∙ ap (λ (q : Machine). q.lease_mgr.lease_id) (machine-finish index _ _)
    ∙ ap (λ (q : Machine). inc64 q.lease_mgr.lease_id) same

lease_id-catch_up_rev : (m : Machine) → (catch_up_rev m).lease_mgr.lease_id ≡ m.lease_mgr.lease_id
unfolding catch_up_rev
lease_id-catch_up_rev m = ground arith

-- So does the replay.
replay_grants :
    (now : ℤ) (m : Machine) (cmd : Command)
    → cmd.type ≡ cmd_lease_grant
    → (m' : Machine) × (apply_recovered_command now m cmd ≡ recovered m')
      × (m'.lease_mgr.lease_id ≡ inc64 m.lease_mgr.lease_id)
unfolding apply_recovered_command restamp recover_typed grant_recovered grant_until takes_revision
replay_grants now m cmd grants =
    let unstamped : restamp m cmd ≡ (m, cmd) =
      ap
        (λ b.
          if b
          then (if eqb_ℤ cmd.revision (pos 0)
              then (
                record m { current_rev = inc64 m.current_rev },
                record cmd { revision = inc64 m.current_rev },
              )
              else if ltb_ℤ m.current_rev cmd.revision
              then (record m { current_rev = cmd.revision }, cmd)
              else (m, cmd))
          else (m, cmd))
        (ap takes_revision grants) in
    (
      catch_up_rev (grant_recovered now m cmd),
      ap (λ (q : Machine × Command). caught_up (recover_typed q.1.type now q.0 q.1)) unstamped
          ∙ ap (λ t. caught_up (recover_typed t now m cmd)) grants,
      lease_id-catch_up_rev (grant_recovered now m cmd),
    )

-- A lock that an HTTP request takes gets its lease from the lease manager itself, and nothing of it
-- is journalled. The next lease that a command grants has the id after the lock's, which its caller
-- is told; when its journal record is replayed, it gets the lock's id.
pub lock_shifts_ids :
    (scan : ByteString → Option ℤ) (now : ℤ) (fresh_name : ByteString)
    (locks : Map ByteString LockInfo) (r : Request) (s : Server) (now' index : ℤ) (cmd : Command)
    → is_write r.method ≡ true
    → query_get r (bytes "key") ≢ []
    → is_held (record { locks = locks; lease_mgr = s.lease_mgr }) (query_get r (bytes "key"))
      ≡ false
    → s.persistence_failed ≡ false
    → cmd.type ≡ cmd_lease_grant
    → let le =
        (lock_acquire scan now fresh_name
          (record { locks = locks; lease_mgr = s.lease_mgr })
          r).0.lease_mgr in
      let locked = with_machine s (record s.machine { lease_mgr = le }) in
      ((server_of (apply_command now' true index locked cmd)).lease_mgr.lease_id
        ≡ inc64 (inc64 s.lease_mgr.lease_id))
      × ((m' : Machine) × (apply_recovered_command now' s.machine (stamp now' locked.machine cmd).1
            ≡ recovered m')
          × (m'.lease_mgr.lease_id ≡ inc64 s.lease_mgr.lease_id))
lock_shifts_ids scan now fresh_name locks r s now' index cmd write key free healthy grants =
    let lm : LockManager = record { locks = locks; lease_mgr = s.lease_mgr } in
    let le = (lock_acquire scan now fresh_name lm r).0.lease_mgr in
    let locked = with_machine s (record s.machine { lease_mgr = le }) in
    (
      loop_grants now' index locked cmd healthy grants
          ∙ ap inc64 (lock_acquire-takes_id scan now fresh_name lm r write key free),
      replay_grants now' s.machine (stamp now' locked.machine cmd).1
          (type-stamp now' locked.machine cmd ∙ grants),
    )
