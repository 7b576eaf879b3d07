-- ===== src/Interventions/Router.antt =====
-- interventions/router.py: routing a new intervention and pausing its lease in one state change.
-- `created` is the clock's reading for the intervention, `checked` and `now` those for the lease.
use replay_forge.Shared.Ids.{EntityKind, parse_id}
use replay_forge.Shared.Clock.{datetime_eq, utc}
use replay_forge.Interventions.Store.{Store, create_paused}
use replay_forge.Interventions.Owner.{automation_owner, owner_eq, paused_owner}
use replay_forge.Interventions.LeaseRules.{prepare_transfer, get as get_lease}
use replay_forge.Interventions.Lease.{ControlLease}
use replay_forge.Interventions.Intervention.{Intervention, open_, intervention as new_intervention}
use replay_forge.Action.{Action, lift, next}
use replay_forge.Base.{
  Option, Result, String, if◌then◌else◌, nat_eq, none, not, ok, option_eq, pair_eq, raise_if, some,
  string_eq, true, value_error, ℕ, ◌==◌, ◌>>=◌, ◌>>◌,
}
use replay_forge.Text.{append, is_truthy}
use replay_forge.Surfaces.Observation.{Observation}
use replay_forge.Interventions.Context.{InterventionContext}

-- The arguments of `open`, without the clock's readings.
pub record Opening : Type 0 where
  pub intervention_id : String
  pub run_id : String
  pub session_id : String
  pub expected_lease_version : ℕ
  pub code : String
  pub step_id : Option String
  pub observation : Observation
  pub context : InterventionContext
  pub explanation : Option String

-- `explanation or (... if step_id else ...)`
unfoldable pub safe_explanation : Option String → Option String → String
safe_explanation explanation step =
    if is_truthy explanation
    then or_empty explanation
    else if is_truthy step
    then append "Automation paused safely at " (append (or_empty step) ".")
    else "Automation paused safely."
  where
    or_empty : Option String → String
    or_empty none = ""
    or_empty (some s) = s

-- What `open` reads and checks before `create_paused`.
unfoldable pub prepare_opening :
    ℕ → Opening → ℕ → ℕ → ℕ → Store → Result (Intervention × ControlLease)
prepare_opening ttl o created checked now s = do
  id ← parse_id o.intervention_id (some EntityKind.intervention)
  run_id ← parse_id o.run_id (some EntityKind.run)
  session_id ← parse_id o.session_id (some EntityKind.session)
  raise_if (not (o.observation.session_id == session_id)) value_error
  i ← new_intervention (record {
    id = id;
    run_id = run_id;
    session_id = session_id;
    trigger_code = o.code;
    explanation = safe_explanation o.explanation o.step_id;
    status = open_;
    created_at = utc created;
    context = o.context;
    operator_id = none;
    resolution = none;
  })
  current ← get_lease o.session_id s.leases
  l ←
      prepare_transfer ttl current o.expected_lease_version automation_owner paused_owner (some id)
        true checked now
  ok (i, l)

-- `open`; it returns the identity that was reserved.
unfoldable pub open_intervention : ℕ → Opening → ℕ → ℕ → ℕ → Action Store String
open_intervention ttl o created checked now s =
    next (prepare_opening ttl o created checked now s, s)
      (λ p s₁.
        next (create_paused p.0 o.observation o.expected_lease_version automation_owner p.1 s₁)
          (λ _. lift (ok o.intervention_id)))
