-- ===== src/Replay/Results.antt =====
-- replay/engine.py and runs/results.py: requests, results, and how the engine fails or asks a person.
-- Messages and the fields of diagnostics that nothing reads back are left out.
use replay_forge.Base.{
  Bool, Error, Option, String, any, bool_eq, contract_error, false, if◌then◌else◌,
  intervention_conflict, intervention_transition, lease_conflict, lease_expired, nat_eq, none, not,
  option_eq, os_error, pair_eq, raise_if, runtime_error, some, string_eq, true, unauthorized,
  value_error, ℕ, ◌&&◌, ◌==◌,
}
use replay_forge.Text.{contains}
use replay_forge.Shared.Ids.{EntityKind, new_id}
use replay_forge.Policy.Types.{DataClassification, Risk, automation, class_eq, credential, replay}
use replay_forge.Policy.Decisions.{PolicyDecision}
use replay_forge.Policy.Evaluator.{ActionContext, evaluate}
use replay_forge.Surfaces.Observation.{Observation}
use replay_forge.Interventions.Context.{
  InterventionContext, intervention_context, replay as replay_mode,
}
use replay_forge.Interventions.Router.{open_intervention}
use replay_forge.Capabilities.Json.{Fields}
use replay_forge.Capabilities.Values.{binding_classification}
use replay_forge.Capabilities.Targets.{LocatorBundle}
use replay_forge.Capabilities.Artifact.{
  CapabilityArtifact, ReplayAction, Step, ValueSource, action_kind, input_value, select, type_,
}
use replay_forge.Replay.Machine.{
  Outcome, Ports, ResolvedTarget, Run, State, call, execution_diagnostic, exhausted, failed,
  intervention_required, lift, raised, reading, record_event, replay_failed, return, returned,
  set_pause_point, with_store, ◌>>=◌, ◌>>◌,
}

pub record ReplayRequest : Type 0 where
  pub run_id : String
  pub artifact : CapabilityArtifact
  pub tenant : String
  pub inputs : Fields
  pub allow_intervention : Bool

pub data RunResult : Type 0 where
  success : (outputs : Fields) (checkpoint_id : String) → RunResult
  business_result : (code : String) (details : Fields) → RunResult
  failure : (code : String) (recoverable : Bool) (step_id : Option String) → RunResult
  intervention : (intervention_id code : String) (step_id : Option String) → RunResult

-- `ExecutionDiagnostic`, as far as the engine reads it: `phase == "after_dispatch"` and the attempt.
pub record Diagnostic : Type 0 where
  pub after_dispatch : Bool
  pub attempt : ℕ

-- An `OSError`, a `RuntimeError` or a `ValueError`, their subclasses included; the others are
-- KeyErrors, and classes of their own.
abbrev pub is_caught : Error → Bool
is_caught runtime_error = true
is_caught value_error = true
is_caught (contract_error code) = true
is_caught os_error = true
is_caught lease_conflict = true
is_caught lease_expired = true
is_caught intervention_conflict = true
is_caught intervention_transition = true
is_caught unauthorized = true
is_caught e = false

module _ {W : Type 0} (ports : Ports W) where
  -- `_attach_failure_frame` and `_attach_handoff_frame`, by the kind of the screenshot.
  unfoldable pub attach_frame : String → Run W (Unit {0})
  attach_frame kind = do
    frame ← call ports.capture_provider_frame
    call (ports.attach_screenshot kind frame)

  -- `OSError`, `RuntimeError`, of which `SurfaceError` is one, and `ValueError` are caught.
  unfoldable pub caught : Outcome (Unit {0}) × State W → Outcome String × State W
  caught (returned u, s) = (returned "captured", s)
  caught (failed e, s) = (returned "unavailable", s)
  caught (raised e, s) = (if is_caught e then returned "unavailable" else raised e, s)
  caught (exhausted, s) = (exhausted, s)

  -- The evidence of a failure: of the session, where there is one, or of the error.
  unfoldable pub capture_evidence : Bool → Option String → Run W String
  capture_evidence true frame s = caught (attach_frame "failure-state" s)
  capture_evidence false (some frame) s =
      caught (call (ports.attach_screenshot "failure-state" frame) s)
  capture_evidence false none s = (returned "not_applicable", s)

  -- `_failure`
  unfoldable pub failure_result :
      (has_session : Bool) (frame : Option String) (code : String) (recoverable : Bool)
      (step_id : Option String)
      → Run W RunResult
  failure_result has_session frame code recoverable step_id = do
    record_event (execution_diagnostic step_id)
    evidence ← capture_evidence has_session frame
    record_event (replay_failed step_id code evidence)
    return (failure code recoverable step_id)

  -- `_failure` with the session, as most callers call it.
  abbrev pub fail_step : String → Option String → Run W RunResult
  fail_step code step_id = failure_result true none code false step_id

  abbrev source_of : ReplayAction → Option ValueSource
  source_of (type_ value clear) = some value
  source_of (select option) = some option
  source_of _ = none

  abbrev is_some_source : Option ValueSource → Bool
  is_some_source none = false
  is_some_source (some s) = true

  abbrev source_class : ReplayRequest → Option ValueSource → Option DataClassification
  source_class request (some (input_value path)) =
      binding_classification request.artifact.inputs path ports.policy.forbidden_field_classes
  source_class request _ = none

  -- `any(term.casefold() in description.casefold() for term in forbidden_text_inputs)`
  abbrev names_forbidden : ReplayRequest → Option LocatorBundle → Bool
  names_forbidden request none = false
  names_forbidden request (some target) =
      any
        (λ term. contains (ports.library.casefold target.description) (ports.library.casefold term))
        request.artifact.policy.forbidden_text_inputs

  abbrev description_of : Option LocatorBundle → String → String
  description_of none name = name
  description_of (some target) name = target.description

  abbrev registered_of : Option ResolvedTarget → Risk → Option Risk
  registered_of none risk = some risk
  registered_of (some target) risk = target.registered_risk

  -- The context of `_step_policy`.
  unfoldable pub step_context :
      ReplayRequest → Step → Observation → Option ResolvedTarget → ActionContext
  step_context request step observation target = record {
    principal_type = automation;
    principal_id = "runtime";
    run_mode = replay;
    application_family = request.artifact.capability.application_family;
    tenant = request.tenant;
    origin = ports.origin;
    route = observation.route;
    action_type = action_kind step.action;
    target_description = description_of step.target step.name;
    declared_risk = step.risk;
    registered_target_risk = registered_of target step.risk;
    control_owner = "automation";
    field_classification =
        if is_some_source (source_of step.action) && names_forbidden request step.target
        then some credential
        else source_class request (source_of step.action);
  }

  -- `_step_policy`, with a fresh identifier and a reading of the clock.
  unfoldable pub step_policy :
      ReplayRequest → Step → Observation → Option ResolvedTarget → Run W PolicyDecision
  step_policy request step observation target = do
    id ← reading
    now ← reading
    lift (
        evaluate ports.library ports.policy (step_context request step observation target)
          (new_id EntityKind.decision (ports.digits id)) (ports.clock now))

  abbrev context_of : ReplayRequest → Option String → Observation → InterventionContext
  context_of request step_id observation = record {
    run_mode = replay_mode;
    application_family = request.artifact.capability.application_family;
    tenant = request.tenant;
    task_summary = request.artifact.capability.description;
    surface_route = observation.route;
    step_id = step_id;
    capability_id = some request.artifact.capability.id;
    capability_version = some request.artifact.capability.version;
    capability_name = some request.artifact.capability.name;
  }

  -- `_intervene`; `pause` is (retry_step, retry_attempt).
  unfoldable pub intervene :
      ReplayRequest
      → String
      → String
      → Observation
      → ℕ
      → Option String
      → Bool × ℕ
      → Bool
      → Run W RunResult
  intervene request step_id code observation version explanation pause has_diagnostic =
      if not request.allow_intervention then fail_step code (some step_id) else do
        if has_diagnostic then record_event (execution_diagnostic (some step_id)) else return tt
        attach_frame "handoff-before"
        digits ← reading
        context ← lift (intervention_context (context_of request (some step_id) observation))
        created ← reading
        checked ← reading
        now ← reading
        let id = new_id EntityKind.intervention (ports.digits digits)
        routed ← with_store (
            open_intervention ports.ttl
              (record {
                intervention_id = id;
                run_id = request.run_id;
                session_id = ports.session_id;
                expected_lease_version = version;
                code = code;
                step_id = some step_id;
                observation = observation;
                context = context;
                explanation = explanation;
              })
              (ports.clock created) (ports.clock checked) (ports.clock now))
        lift (raise_if (not (routed == id)) runtime_error)
        set_pause_point id pause.0 pause.1
        record_event (intervention_required (some step_id))
        return (RunResult.intervention id code (some step_id))
