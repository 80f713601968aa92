-- ===== src/Examples/Expiring.antt =====
-- Leases that expire, and the cleanup loop of server/server.go.
use wjetcd.Common.{ℕ, ◌+◌, arith, Bool, true, refl, pos, ℤ, negsuc}
use wjetcd.Command.{Command}
use wjetcd.Lease.{
  LeaseManager, new_lease_manager, grant_until, keep_alive_until, get_expiring_lease,
}
use wjetcd.Lease.Expiry.{Reaches, here, next, granted, prolonged, Reports, get_expiring_lease-least}
use wjetcd.Server.State.{Server}
use wjetcd.Server.Loop.{apply_command, server_of}
use wjetcd.Server.Submit.{register}
use wjetcd.Server.Cleanup.{cleanup_expired_leases}
use wjetcd.Server.Cleanup.Purge.{CleansUp, cleanup_expired_leases-Cleaned}
use wjetcd.Examples.Restart.{kept_server, machine-HasLeases}

-- Two leases, of which the first is prolonged past the second.
abbrev two_leases : LeaseManager
two_leases = (grant_until (grant_until new_lease_manager (pos 5) (pos 300)).0 (pos 5) (pos 400)).0

abbrev prolonged_leases : LeaseManager
prolonged_leases = (keep_alive_until two_leases (pos 1) (pos 5) (pos 500)).0

prolonged_leases-Reaches : Reaches new_lease_manager prolonged_leases
unfolding grant_until new_lease_manager wjetcd.Common.inc64 wjetcd.Common.wrap64 wjetcd.Common.◌+ℤ◌
prolonged_leases-Reaches =
    next
      (next (next here (granted (pos 5) (pos 300) (omega arith) (omega arith) (omega arith)))
        (granted (pos 5) (pos 400) (omega arith) (omega arith) (omega arith)))
      (prolonged (pos 1) (pos 5) (pos 500) (omega arith) (omega arith))

get_expiring_lease-least_example :
    Reports prolonged_leases.leases (get_expiring_lease prolonged_leases)
get_expiring_lease-least_example =
    get_expiring_lease-least prolonged_leases prolonged_leases-Reaches

-- A call that the loop answers at index 1.
abbrev prompt : Server → Command → Server × Bool
prompt s cmd = (server_of (apply_command (pos 100) true (pos 1) (register (pos 1) s) cmd), true)

-- The one lease expired at 900.
cleanup_expired_leases-Cleaned_example :
    CleansUp
      (λ k. pos (1000 + k))
      kept_server
      (cleanup_expired_leases prompt (λ k. pos (1000 + k)) 2 0 kept_server)
cleanup_expired_leases-Cleaned_example =
    cleanup_expired_leases-Cleaned prompt (λ k. pos (1000 + k)) (λ s cmd. (pos 100, pos 1, refl)) 2
      0 kept_server (omega arith) refl machine-HasLeases
