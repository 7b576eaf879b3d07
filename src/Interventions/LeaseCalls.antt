-- ===== src/Interventions/LeaseCalls.antt =====
-- interventions/leases.py: the calls of the lease service as data, and runs of them, one whole call
-- after the other. In the source the lock is released between the read of a call and its
-- compare-and-swap; what may happen inside a call is not modelled.
pub mod Successors
pub mod Fencing
pub mod Ownership
pub mod Soundness
use replay_forge.Base.{List, String, [], ℕ, ◌∷◌}
use replay_forge.Action.{Action}
use replay_forge.Shared.Ids.{EntityId}
use replay_forge.Interventions.Owner.{ControlOwner}
use replay_forge.Interventions.Lease.{ControlLease}
use replay_forge.Interventions.LeaseRules.{Leases}
use replay_forge.Interventions.LeaseService

-- A call carries the clock's readings that it takes, last.
pub data Call : Type 0 where
  create_for_automation : String → ℕ → Call
  pause : EntityId → ℕ → String → ℕ → ℕ → Call
  claim : EntityId → ℕ → String → String → ℕ → Call
  reclaim_expired : EntityId → ℕ → String → String → ℕ → ℕ → Call
  release : EntityId → ℕ → String → ℕ → ℕ → Call
  complete_resume : EntityId → ℕ → ℕ → ℕ → Call
  terminate : EntityId → ℕ → ControlOwner → ℕ → ℕ → Call
  heartbeat : EntityId → ℕ → ControlOwner → ℕ → ℕ → ℕ → Call

module _ (ttl : ℕ) where
  unfoldable pub perform : Call → Action Leases ControlLease
  perform (create_for_automation s t) = LeaseService.create_for_automation ttl s t
  perform (pause s v i t u) = LeaseService.pause ttl s v i t u
  perform (claim s v i o t) = LeaseService.claim ttl s v i o t
  perform (reclaim_expired s v i o t u) = LeaseService.reclaim_expired ttl s v i o t u
  perform (release s v o t u) = LeaseService.release ttl s v o t u
  perform (complete_resume s v t u) = LeaseService.complete_resume ttl s v t u
  perform (terminate s v o t u) = LeaseService.terminate ttl s v o t u
  perform (heartbeat s v o t u w) = LeaseService.heartbeat ttl s v o t u w

  -- The leases after a run; a call that raises ends only itself.
  pub run : List Call → Leases → Leases
  run [] leases = leases
  run (c ∷ calls) leases = run calls (perform c leases).1
