-- ===== src/Replay/Detection.antt =====
-- replay/engine.py: conditions on the session, and the outcomes and failures that they detect.
use replay_forge.Base.{
  Bool, List, Option, Result, String, [], bool_eq, false, if◌then◌else◌, key_error, leb, nat_eq,
  none, ok, option_eq, pair_eq, some, string_eq, true, ℕ, ◌==◌, ◌∷◌, ◌>>=◌ as bind,
}
use replay_forge.Text.{append, is_empty, len}
use replay_forge.Dict.{Dict}
use replay_forge.Capabilities.Json.{Fields, Json, Scalar, end, field}
use replay_forge.Capabilities.Values.{resolve_input}
use replay_forge.Capabilities.Conditions.{Condition}
use replay_forge.Capabilities.Artifact.{
  ApplicationFailure, BusinessOutcome, CapabilityArtifact, Step, ValueSource, input_value,
  literal_value,
}
use replay_forge.Replay.Machine.{
  Ports, Run, SurfaceError, business_outcome, call, fail, get_outputs, lift, raise, record_event,
  return, ◌>>=◌, ◌>>◌,
}
use replay_forge.Replay.Results.{RunResult, business_result, failure_result}

-- The exception that the engine raises itself.
abbrev pub surface_error : String → Bool → SurfaceError
surface_error code no_effect = record {
  code = code;
  recoverable = false;
  effect_absent = no_effect;
  intervention_recommended = false;
  failure_frame = none;
}

abbrev pub or_this : {A : Type 0} → Option A → Option A → Option A
or_this (some later) this = some later
or_this none this = this

-- `{item.key: item for item in items}.get(key)`
unfoldable pub last_with : {A : Type 0} → (A → String) → List A → String → Option A
last_with key [] name = none
last_with key (x ∷ xs) name =
    or_this (last_with key xs name) (if key x == name then some x else none)

-- `"***" + raw[-4:]`, of a text that is not empty.
unfoldable pub redacted : String → String
redacted raw = if is_empty raw then "[REDACTED]" else append "***" (last_four raw)
  where
    last_four : String → String
    last_four String.[] = String.[]
    last_four (String.◌∷◌ c s) =
        let rest = last_four s in if leb 4 (len s) then rest else String.◌∷◌ c s

abbrev of_scalar : Scalar → Json
of_scalar (Scalar.text s) = Json.text s
of_scalar (Scalar.integer n) = Json.integer n
of_scalar (Scalar.boolean b) = Json.boolean b

-- The loop of `_business_outcome`.
unfoldable pub detail_values : (Json → String) → Fields → Dict String ValueSource → Result Fields
detail_values show inputs [] = ok end
detail_values show inputs ((name, literal_value v) ∷ details) =
    bind (detail_values show inputs details) (λ rest. ok (field name (of_scalar v) rest))
detail_values show inputs ((name, input_value path) ∷ details) =
    bind (resolve_input inputs path) (λ raw.
      bind (detail_values show inputs details)
        (λ rest. ok (field name (Json.text (redacted (show raw))) rest)))

module _ {W : Type 0} (ports : Ports W) (inputs : Fields) where
  -- `session.evaluate` with the outputs so far.
  unfoldable pub holds : Condition → Run W Bool
  holds condition = do outputs ← get_outputs; call (ports.evaluate condition outputs inputs)

  -- `session.wait_until` with the outputs so far.
  unfoldable pub waits : ℕ → Condition → Run W Bool
  waits timeout condition = do
    outputs ← get_outputs
    call (ports.wait_until condition outputs inputs timeout)

  -- The conditions in their order, up to the first that does not hold.
  unfoldable pub all_hold : List Condition → Run W Bool
  all_hold [] = return true
  all_hold (c ∷ cs) = do let rest = all_hold cs; held ← holds c; if held then rest else return false

  module _ {A : Type 0} (find : String → Option A) (trigger : A → Condition) where
    -- The item of a code, before those of the others; an unknown code is a KeyError.
    unfoldable pub matched : Option A → Run W (List A) → Run W (List A)
    matched none others = raise key_error
    matched (some x) others = do
      held ← holds (trigger x)
      rest ← others
      return (if held then x ∷ rest else rest)

    -- The items of the codes whose condition holds.
    unfoldable pub matching : List String → Run W (List A)
    matching [] = return []
    matching (code ∷ codes) = matched (find code) (matching codes)

    abbrev pub single : List A → Run W (Option A)
    single [] = return none
    single (x ∷ []) = return (some x)
    single (x ∷ y ∷ xs) = fail (surface_error "branch_ambiguous" false)

    unfoldable pub detect_one : List String → Run W (Option A)
    detect_one codes = do found ← matching codes; single found

  -- `_detect_outcome`
  unfoldable pub detect_outcome : CapabilityArtifact → Step → Run W (Option BusinessOutcome)
  detect_outcome artifact step =
      detect_one (last_with (λ o. o.code) artifact.outcomes) (λ o. o.detect) step.outcome_refs

  -- `_detect_failure`
  unfoldable pub detect_failure : CapabilityArtifact → Step → Run W (Option ApplicationFailure)
  detect_failure artifact step =
      detect_one (last_with (λ f. f.code) artifact.failures) (λ f. f.detect) step.failure_refs

  -- `_business_outcome`
  unfoldable pub business_outcome_of : BusinessOutcome → Run W RunResult
  business_outcome_of outcome = do
    details ← lift (detail_values ports.show_json inputs outcome.details)
    record_event business_outcome
    return (business_result outcome.code details)

-- `_application_failure`
abbrev pub application_failure :
    {W : Type 0} → Ports W → String → ApplicationFailure → Run W RunResult
application_failure ports step_id f =
    failure_result ports true none f.code f.recoverable (some step_id)
