-- ===== src/Replay/Steps.antt =====
-- replay/engine.py: one step, with its retries. What a recovery is attempted with is an argument,
-- `recover`, which a step of a recovery gets as one that attempts none.
use replay_forge.Capabilities.Targets.{is_given}
use replay_forge.Base.{
  Bool, List, Option, Result, String, [], bool_eq, err, false, if◌then◌else◌, nat_eq, none, not, ok,
  on_contract_error, option_eq, pair_eq, some, string_eq, true, ℕ, ◌&&◌, ◌==◌, ◌||◌, ◌∷◌,
}
use replay_forge.Text.{is_empty}
use replay_forge.Policy.Types.{Decision, allow, class_eq, deny, require_human_approval}
use replay_forge.Policy.Layers.{member}
use replay_forge.Policy.Decisions.{PolicyDecision}
use replay_forge.Surfaces.Observation.{Observation}
use replay_forge.Interventions.Owner.{automation_owner, owner_eq}
use replay_forge.Interventions.LeaseRules.{assert_can_act}
use replay_forge.Capabilities.Json.{Fields, Json}
use replay_forge.Capabilities.Conditions.{Condition, contains_identity}
use replay_forge.Capabilities.Artifact.{
  ReplayAction, Step, assert_, checkpoint_of, extract, wait_for,
}
use replay_forge.Capabilities.Binding.{bind_target_inputs}
use replay_forge.Capabilities.Transforms.{transform_extracted_text}
use replay_forge.Replay.Machine.{
  Outcome, Ports, Receipt, ResolvedTarget, Run, State, SurfaceError, action_intent, call, completed,
  dispatched, exhausted, extracted, fail, failed, failed_with, policy_evaluated, raise, raised,
  reading, record_event, return, returned, set_output, try, with_leases, ◌>>=◌, ◌>>◌,
}
use replay_forge.Replay.Results.{
  Diagnostic, ReplayRequest, RunResult, fail_step, failure_result, intervene, step_policy,
}
use replay_forge.Replay.Detection.{all_hold, holds, surface_error, waits}

-- What a step comes to: a result, a `RecoveryResume`, or None.
pub data StepEnd : Type 0 where
  finished : RunResult → StepEnd
  resume_at : (step_id : String) (lease_version : ℕ) → StepEnd
  proceed : StepEnd

-- `next((s for s in steps if s.id == step_id), None)`
unfoldable pub find_step : List Step → String → Option Step
find_step [] id = none
find_step (s ∷ steps) id = if s.id == id then some s else find_step steps id

-- The codes after which a person may be asked.
abbrev pub is_eligible : String → Option Diagnostic → Bool
is_eligible code none =
    member code ("target_absent" ∷ "target_ambiguous" ∷ "action_timeout" ∷ "action_failed" ∷ [])
is_eligible code (some d) =
    member code ("target_absent" ∷ "target_ambiguous" ∷ "action_timeout" ∷ "action_failed" ∷ [])
    || (code == "postcondition_mismatch" && d.after_dispatch)

-- `diagnostic is not None and diagnostic.phase == "before_dispatch"`, and the attempt.
abbrev pub pause_of : Option Diagnostic → Bool × ℕ
pause_of none = (false, 1)
pause_of (some d) = (not d.after_dispatch, d.attempt)

abbrev pub pause_text : Option Diagnostic → String
pause_text d =
    if (pause_of d).0
    then "Restore the interface without performing this task step. Resume will resolve and retry the same step."
    else "Inspect and complete or correct the interrupted action. Resume must verify its declared effect; it will not repeat the action."

-- An action that `session.execute` carries out.
abbrev pub is_effect : ReplayAction → Bool
is_effect (wait_for c) = false
is_effect (assert_ c) = false
is_effect (checkpoint_of i) = false
is_effect (extract o t) = false
is_effect _ = true

module _ {W : Type 0} (ports : Ports W) (request : ReplayRequest) where
  -- `except (SurfaceError, ContractValidationError)`
  abbrev pub or_unknown : {A : Type 0} → Outcome A × State W → Outcome (Option A) × State W
  or_unknown (returned a, s) = (returned (some a), s)
  or_unknown (failed e, s) = (returned none, s)
  or_unknown (raised e, s) = (on_contract_error (λ code. returned none) (raised e) e, s)
  or_unknown (exhausted, s) = (exhausted, s)

  unfoldable pub reconsider : Step → Run W (Observation × PolicyDecision)
  reconsider step = do
    observation ← call ports.observe
    decision ← step_policy ports request step observation none
    return (observation, decision)

  -- The part of `_surface_failure` that asks a person, unless the policy denies the step.
  unfoldable pub ask_unless_denied :
      Decision → Step → SurfaceError → ℕ → Option Diagnostic → Observation → Run W RunResult
  ask_unless_denied deny step error version diagnostic observation =
      fail_step ports "policy_blocked" (some step.id)
  ask_unless_denied d step error version diagnostic observation =
      intervene ports request step.id error.code observation version (some (pause_text diagnostic))
        (pause_of diagnostic) (is_given diagnostic)

  unfoldable pub ask_considered :
      Step
      → SurfaceError
      → ℕ
      → Option Diagnostic
      → Option (Observation × PolicyDecision)
      → Run W RunResult
  ask_considered step error version diagnostic none =
      failure_result ports true none error.code false (some step.id)
  ask_considered step error version diagnostic (some (observation, decision)) =
      ask_unless_denied decision.decision step error version diagnostic observation

  unfoldable pub ask_person : Step → SurfaceError → ℕ → Option Diagnostic → Run W RunResult
  ask_person step error version diagnostic = do
    considered ← λ s. or_unknown (reconsider step s)
    ask_considered step error version diagnostic considered

  -- `_surface_failure` of a step, with its session.
  unfoldable pub surface_failure :
      String → SurfaceError → ℕ → Option Diagnostic → Bool → Run W RunResult
  surface_failure step_id error version diagnostic allow_intervention =
      let plain =
        failure_result ports true error.failure_frame error.code error.recoverable (some step_id) in
      elim (find_step request.artifact.steps step_id) [
        | none ↦ plain
        | some step ↦
            if allow_intervention
              && request.allow_intervention
              && (is_eligible error.code diagnostic || error.intervention_recommended)
            then ask_person step error version diagnostic
            else plain
      ]

-- What the first part of a step comes to.
pub data Prepared : Type 0 where
  ended : StepEnd → Prepared
  ready : Option ResolvedTarget → Prepared

-- `raise SurfaceError(error.code, ..., effect_absent=True) from error`
unfoldable pub or_surface_error : {W A : Type 0} → Result A → Run W A
or_surface_error (ok a) = return a
or_surface_error (err e) = on_contract_error (λ code. fail (surface_error code true)) (raise e) e

module _ {W : Type 0} (ports : Ports W) (request : ReplayRequest) (inputs : Fields) where
  unfoldable pub resolve_target : Step → Run W (Option ResolvedTarget)
  resolve_target step = elim step.target [
    | none ↦ return none
    | some target ↦ do
      bound ← or_surface_error (
          bind_target_inputs inputs request.artifact.inputs ports.policy.forbidden_field_classes
            target)
      resolved ← call (ports.resolve bound step.timeout_ms)
      return (some resolved)
  ]

  abbrev pub end_with : Run W RunResult → Run W Prepared
  end_with m = do r ← m; return (ended (finished r))

  -- What follows the decision, up to the attempt: the intent is journalled before any effect.
  unfoldable pub on_decision :
      Decision → String → Step → Observation → ℕ → Bool → Option ResolvedTarget → Run W Prepared
  on_decision deny reason step observation version allow_intervention target =
      end_with (fail_step ports "policy_blocked" (some step.id))
  on_decision require_human_approval reason step observation version allow_intervention target =
      if not allow_intervention
      then end_with (fail_step ports "recovery_requires_human" (some step.id))
      else end_with (
          intervene ports request step.id reason observation version
            (some "A scoped, single-use human approval is required.") (false, 1) false)
  on_decision allow reason step observation version allow_intervention target = do
    record_event (action_intent step.id)
    return (ready target)

  unfoldable pub act_on :
      Decision → String → Step → Observation → ℕ → Bool → Option ResolvedTarget → Run W Prepared
  act_on decision reason step observation version allow_intervention target = do
    record_event (policy_evaluated step.id decision reason)
    on_decision decision reason step observation version allow_intervention target

  -- `_execute_step` up to the attempt. The lease is asked first.
  unfoldable pub prepare : Step → ℕ → Bool → Run W Prepared
  prepare step version allow_intervention = do
    now ← reading
    with_leases (λ leases.
        (assert_can_act ports.session_id version automation_owner (ports.clock now) leases, leases))
    satisfied ← all_hold ports inputs step.preconditions
    if not satisfied
        then end_with (fail_step ports "step_precondition_mismatch" (some step.id))
        else do
          observation ← call ports.observe
          target ← resolve_target step
          decision ← step_policy ports request step observation target
          act_on decision.decision decision.reason_code step observation version allow_intervention
              target

  abbrev pub satisfied_or_fail : Bool → Run W (Unit {0})
  satisfied_or_fail true = return tt
  satisfied_or_fail false = fail (surface_error "action_condition_mismatch" false)

  abbrev pub completed_or_fail : Receipt → Run W (Unit {0})
  completed_or_fail completed = return tt
  completed_or_fail (failed_with none) = fail (surface_error "action_failed" false)
  completed_or_fail (failed_with (some code)) =
      fail (surface_error (if is_empty code then "action_failed" else code) false)

  -- `session.execute`, and the journal's entry of the call.
  unfoldable pub dispatch : ReplayAction → Step → Option ResolvedTarget → Run W Receipt
  dispatch action step target = do
    record_event (dispatched step.id)
    call (ports.execute action target inputs)

  -- `session.extract`, and the journal's entry of the call.
  unfoldable pub extract_text : Step → ResolvedTarget → Run W String
  extract_text step target = do record_event (extracted step.id); call (ports.extract target)

  -- The action itself.
  unfoldable pub perform_action : ReplayAction → Step → Option ResolvedTarget → Run W (Unit {0})
  perform_action (wait_for c) step target = do
    satisfied ← waits ports inputs step.timeout_ms c
    satisfied_or_fail satisfied
  perform_action (assert_ c) step target = do
    satisfied ← holds ports inputs c
    satisfied_or_fail satisfied
  perform_action (checkpoint_of i) step target = do
    satisfied ← holds ports inputs request.artifact.checkpoint.condition
    satisfied_or_fail satisfied
  perform_action (extract output transform) step none = fail (surface_error "target_absent" false)
  perform_action (extract output transform) step (some t) = do
    value ← extract_text step t
    set_output output (Json.text (transform_extracted_text ports.lower value transform))
  perform_action action step target = do
    receipt ← dispatch action step target
    completed_or_fail receipt

  abbrev pub perform : Step → Option ResolvedTarget → Run W (Unit {0})
  perform step = perform_action step.action step

  -- The postconditions that contain an identity, up to the first that is not verified. A surface
  -- error counts as not verified.
  unfoldable pub identities_verified : ℕ → List Condition → Run W Bool
  identities_verified timeout [] = return true
  identities_verified timeout (c ∷ cs) = do
    let rest = identities_verified timeout cs
    if not (contains_identity c) then rest else do
      verified ← try (waits ports inputs timeout c) (λ e. return false)
      if verified then rest else return false
