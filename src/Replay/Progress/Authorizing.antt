-- ===== src/Replay/Progress/Authorizing.antt =====
-- Where a preparation leaves a step ready, the policy's permission and the intent of the step are the
-- newest entries of the journal.
use replay_forge.Base.{
  Bool, Option, String, arith, bool_eq, eq_refl, false, if◌then◌else◌, nat_eq, not, option_eq,
  pair_eq, some, string_eq, true, ℕ, ◌≡◌,
}
use replay_forge.Capabilities.Artifact.{Step}
use replay_forge.Capabilities.Json.{Fields}
use replay_forge.Policy.Types.{Decision, allow, class_eq, deny, require_human_approval}
use replay_forge.Surfaces.Observation.{Observation}
use replay_forge.Replay.Machine.{
  Outcome, Ports, ResolvedTarget, Run, State, SurfaceError, call, exhausted, failed, follow, handle,
  policy_evaluated, raised, reading, record_event, return, returned, try, with_leases, ◌>>=◌,
}
use replay_forge.Replay.Journal.{is_authorized}
use replay_forge.Replay.Results.{ReplayRequest, RunResult, fail_step, intervene, step_policy}
use replay_forge.Interventions.LeaseRules.{assert_can_act}
use replay_forge.Interventions.Owner.{automation_owner, owner_eq}
use replay_forge.Replay.Detection.{all_hold}
use replay_forge.Replay.Steps.{
  Prepared, StepEnd, act_on, end_with, ended, finished, on_decision, prepare, ready, resolve_target,
}

module _ {W : Type 0} (step : Step) where
  abbrev pub Authorized : Outcome Prepared × State W → Type 0
  Authorized (returned (ready target), t) = is_authorized step.id t.log ≡ true
  Authorized x = Unit {0}

  pub record IsAuthorized (m : Run W Prepared) : Type 0 where
    pub at : (s : State W) → Authorized (m s)

  follow-Authorized :
      {A : Type 0} (x : Outcome A × State W) (next : A → Run W Prepared)
      → ((a : A) → IsAuthorized (next a))
      → Authorized (follow x next)
  follow-Authorized (returned a, t) next go = (go a).at t
  follow-Authorized (failed e, t) next go = tt
  follow-Authorized (raised e, t) next go = tt
  follow-Authorized (exhausted, t) next go = tt

  pub after :
      {A : Type 0} (m : Run W A) {next : A → Run W Prepared}
      → ((a : A) → IsAuthorized (next a))
      → IsAuthorized (m >>= next)
  after m {next} go = record { at = λ s. follow-Authorized (m s) next go }

  handle-Authorized :
      (x : Outcome Prepared × State W) (h : SurfaceError → Run W Prepared)
      → Authorized x
      → ((e : SurfaceError) → IsAuthorized (h e))
      → Authorized (handle x h)
  handle-Authorized (returned a, t) h first go = first
  handle-Authorized (failed e, t) h first go = (go e).at t
  handle-Authorized (raised e, t) h first go = tt
  handle-Authorized (exhausted, t) h first go = tt

  pub try-IsAuthorized :
      {m : Run W Prepared} {h : SurfaceError → Run W Prepared}
      → IsAuthorized m
      → ((e : SurfaceError) → IsAuthorized (h e))
      → IsAuthorized (try m h)
  try-IsAuthorized {m} {h} first go = record { at = λ s. handle-Authorized (m s) h (first.at s) go }

  if-IsAuthorized :
      {m k : Run W Prepared} (b : Bool)
      → IsAuthorized m
      → IsAuthorized k
      → IsAuthorized (if b then m else k)
  if-IsAuthorized true first second = first
  if-IsAuthorized false first second = second

  -- An end claims nothing.
  pub at_end : (e : StepEnd) → IsAuthorized (return (ended e))
  at_end e = record { at = λ s. tt }

module _ {W : Type 0} (ports : Ports W) (request : ReplayRequest) (inputs : Fields) where
  end_with-IsAuthorized :
      (step : Step) (m : Run W RunResult) → IsAuthorized step (end_with ports request inputs m)
  end_with-IsAuthorized step m = after step m (λ r. at_end step (finished r))

  act_on-IsAuthorized :
      (d : Decision) (reason : String) (step : Step) (o : Observation) (version : ℕ)
      (allowed : Bool) (target : Option ResolvedTarget)
      → IsAuthorized step (act_on ports request inputs d reason step o version allowed target)
  unfolding act_on on_decision record_event is_authorized
  act_on-IsAuthorized deny reason step o version allowed target =
      after step (record_event (policy_evaluated step.id deny reason))
        (λ u. end_with-IsAuthorized step (fail_step ports "policy_blocked" (some step.id)))
  act_on-IsAuthorized require_human_approval reason step o version allowed target =
      after step (record_event (policy_evaluated step.id require_human_approval reason)) (λ u.
        if-IsAuthorized step (not allowed)
          (end_with-IsAuthorized step (fail_step ports "recovery_requires_human" (some step.id)))
          (end_with-IsAuthorized step (
            intervene ports request step.id reason o version
              (some "A scoped, single-use human approval is required.") (false, 1) false)))
  act_on-IsAuthorized allow reason step o version allowed target = record {
    at = λ s. ground (arith, eq_refl step.id);
  }

  pub prepare-IsAuthorized :
      (step : Step) (version : ℕ) (allowed : Bool)
      → IsAuthorized step (prepare ports request inputs step version allowed)
  unfolding prepare
  prepare-IsAuthorized step version allowed = after step reading (λ now.
      after step
        (with_leases (λ leases. (
          assert_can_act ports.session_id version automation_owner (ports.clock now) leases,
          leases,
        )))
        (λ lease. after step (all_hold ports inputs step.preconditions) (λ satisfied.
          if-IsAuthorized step (not satisfied)
            (end_with-IsAuthorized step
              (fail_step ports "step_precondition_mismatch" (some step.id)))
            (after step (call ports.observe) (λ o.
              after step (resolve_target ports request inputs step) (λ target.
                after step (step_policy ports request step o target) (λ d.
                  act_on-IsAuthorized d.decision d.reason_code step o version allowed target)))))))
