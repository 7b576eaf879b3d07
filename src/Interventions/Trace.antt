-- ===== src/Interventions/Trace.antt =====
-- The intervention subsystem as a step relation: coordinator methods whose read and commit may lie
-- apart, openings by the router, and the runtime's own lease calls.
pub mod Safety
pub mod Samples
use replay_forge.Dict.{Dict}
use replay_forge.Base.{Option, String, [], ok, ℕ, ◌≡◌}
use replay_forge.Action.{Action}
use replay_forge.Shared.Ids.{EntityId}
use replay_forge.Interventions.Owner.{automation_owner}
use replay_forge.Interventions.Lease.{ControlLease}
use replay_forge.Interventions.LeaseService
use replay_forge.Interventions.Intervention.{Intervention}
use replay_forge.Interventions.Store.{Store}
use replay_forge.Interventions.Plans
use replay_forge.Interventions.Plans.{Pair}
use replay_forge.Interventions.Coordinator.{
  begin_resume, claim, commit, complete_resume, heartbeat, release, reopen, terminate,
}
use replay_forge.Interventions.Router.{Opening, open_intervention}

abbrev pub empty : Store
empty = record { interventions = []; observations = []; leases = [] }

module _ (ttl : ℕ) where
  -- A pair of replacements that a coordinator method has prepared from the pair that it read.
  pub data Planned (i : Intervention) (l : ControlLease) (p : Pair) : Type 0 where
    claiming : (v : ℕ) (o : String) (t u : ℕ) → Plans.claim ttl v o t u i l ≡ ok p → Planned i l p
    releasing :
        (v : ℕ) (o : String) (t u : ℕ) → Plans.release ttl v o t u i l ≡ ok p → Planned i l p
    handing_back :
        (v : ℕ) (o : String) (t u : ℕ) → Plans.begin_resume ttl v o t u i l ≡ ok p → Planned i l p
    reopening : (text : String) → Plans.reopen ttl text i l ≡ ok p → Planned i l p
    completing :
        (v : ℕ) (text : String) (t u : ℕ)
        → Plans.complete_resume ttl v text t u i l ≡ ok p
        → Planned i l p
    beating :
        (v : ℕ) (o : String) (t u : ℕ) → Plans.heartbeat ttl v o t u i l ≡ ok p → Planned i l p
    terminating :
        (v : ℕ) (o : Option String) (text : String) (t u : ℕ)
        → Plans.terminate ttl v o text t u i l ≡ ok p
        → Planned i l p

  abbrev with_leases : Store → (Action (Dict EntityId ControlLease) ControlLease) → Store
  with_leases s m = record s { leases = (m s.leases).1 }

  -- The pair may have been read in any earlier state: the commit alone is a step.
  pub data Step (s : Store) : Store → Type 0 where
    committing :
        (i : Intervention) (l : ControlLease) (p : Pair) → Planned i l p → Step s (commit i l p s).1
    opening : (o : Opening) (created t u : ℕ) → Step s (open_intervention ttl o created t u s).1
    starting :
        (k : String) (t : ℕ) → Step s (with_leases s (LeaseService.create_for_automation ttl k t))
    renewing :
        (k : EntityId) (v t u w : ℕ)
        → Step s (with_leases s (LeaseService.heartbeat ttl k v automation_owner t u w))

  pub data Reach : Store → Type 0 where
    start : Reach empty
    next_step : {s s' : Store} → Reach s → Step s s' → Reach s'
