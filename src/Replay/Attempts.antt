-- ===== src/Replay/Attempts.antt =====
-- replay/engine.py: the checks after an action, the handling of a surface error, and retries.
use replay_forge.Policy.Layers.{member}
use replay_forge.Base.{
  Bool, List, Option, [], bool_eq, false, if◌then◌else◌, nat_eq, nat_eqb, none, not, option_eq,
  pair_eq, some, string_eq, suc, zero, ℕ, ◌&&◌, ◌+◌, ◌-◌, ◌∷◌,
}
use replay_forge.Capabilities.Json.{Fields}
use replay_forge.Capabilities.Conditions.{Condition, contains_identity}
use replay_forge.Capabilities.Artifact.{RetryPolicy, Step}
use replay_forge.Replay.Machine.{
  Ports, Run, SurfaceError, action_result, record_event, return, returned, step_retry_scheduled,
  try, ◌>>=◌, ◌>>◌,
}
use replay_forge.Replay.Results.{Diagnostic, ReplayRequest, fail_step}
use replay_forge.Replay.Detection.{
  application_failure, business_outcome_of, detect_failure, detect_outcome, surface_error, waits,
}
use replay_forge.Replay.Steps.{
  Prepared, StepEnd, ended, finished, identities_verified, is_effect, perform, prepare, proceed,
  ready, surface_failure,
}

-- `backoff_ms[index]`, or 0 past the end.
unfoldable pub backoff : List ℕ → ℕ → ℕ
backoff [] index = 0
backoff (delay ∷ delays) index =
    let rest = backoff delays (index - 1) in if nat_eqb index 0 then delay else rest

-- `can_retry`, but the test of the attempts.
abbrev pub may_retry : RetryPolicy → SurfaceError → Bool
may_retry retry error = error.recoverable && error.effect_absent && member error.code retry.retry_on

module _ {W : Type 0} (ports : Ports W) (request : ReplayRequest) (inputs : Fields)
    (recover : Step → ℕ → Run W (Option StepEnd)) (allow_intervention : Bool) where
  -- `if x is not None: return ...`, and otherwise what follows.
  abbrev pub or_else : Option StepEnd → Run W StepEnd → Run W StepEnd
  or_else none rest = rest
  or_else (some step_end) rest = return step_end

  -- `_detect_outcome` and, where there is one, `_business_outcome`.
  unfoldable pub business_end : Step → Run W (Option StepEnd)
  business_end step = do
    outcome ← detect_outcome ports inputs request.artifact step
    elim outcome [
      | none ↦ return none
      | some o ↦ do r ← business_outcome_of ports inputs o; return (some (finished r))
    ]

  -- `_detect_failure` and, where there is one, `_application_failure`.
  unfoldable pub failure_end : Step → Run W (Option StepEnd)
  failure_end step = do
    declared ← detect_failure ports inputs request.artifact step
    elim declared [
      | none ↦ return none
      | some f ↦ do r ← application_failure ports step.id f; return (some (finished r))
    ]

  unfoldable pub surface_end : Step → SurfaceError → ℕ → Diagnostic → Run W StepEnd
  surface_end step error version diagnostic = do
    r ← surface_failure ports request step.id error version (some diagnostic) allow_intervention
    return (finished r)

  -- A postcondition that did not come true.
  unfoldable pub unmet : Step → ℕ → Diagnostic → Run W StepEnd
  unmet step version diagnostic = do
    outcome ← business_end step
    or_else outcome (do
      recovery ← recover step version
      or_else recovery (do
        declared ← failure_end step
        or_else declared
            (surface_end step (surface_error "postcondition_mismatch" false) version diagnostic)))

  -- The loop over the postconditions that contain no identity.
  unfoldable pub postconditions : Step → ℕ → Diagnostic → List Condition → Run W StepEnd
  postconditions step version diagnostic [] = return proceed
  postconditions step version diagnostic (c ∷ cs) =
      let rest = postconditions step version diagnostic cs in
      if contains_identity c then rest else do
        met ← waits ports inputs step.timeout_ms c
        if met
            then (do outcome ← business_end step; or_else outcome rest)
            else unmet step version diagnostic

  -- What follows the action: identities first, then outcomes, failures and recoveries, and the
  -- other postconditions.
  unfoldable pub verify : Step → ℕ → Diagnostic → Run W StepEnd
  verify step version diagnostic = do
    verified ← identities_verified ports request inputs step.timeout_ms step.postconditions
    if not verified
        then (do r ← fail_step ports "postcondition_mismatch" (some step.id); return (finished r))
        else (do
          outcome ← business_end step
          or_else outcome (do
            declared ← failure_end step
            or_else declared (do
              recovery ← recover step version
              or_else recovery (postconditions step version diagnostic step.postconditions))))

  -- `self.sleeper`
  unfoldable pub pause_for : ℕ → Run W (Unit {0})
  pause_for delay s = (returned tt, record s { world = ports.sleep delay s.world })

  -- Without a retry: a recovery, or the failure with its diagnostic.
  unfoldable pub give_up : Step → ℕ → ℕ → Bool → SurfaceError → Run W StepEnd
  give_up step version attempt after error = do
    recovery ← recover step version
    or_else recovery
        (surface_end step error version (record { after_dispatch = after; attempt = attempt }))

  -- The handler of a `SurfaceError`. `again` is the next attempt, none after the last.
  unfoldable pub on_error :
      Step → ℕ → ℕ → Option (Run W StepEnd) → Bool → SurfaceError → Run W StepEnd
  on_error step version attempt none after error = give_up step version attempt after error
  on_error step version attempt (some next) after error =
      if may_retry step.retry error
      then (do
        record_event (step_retry_scheduled step.id (attempt + 1) error.code)
        pause_for (backoff step.retry.backoff_ms (attempt - 1))
        next)
      else give_up step version attempt after error

  -- What the preparation came to, and the rest of the body.
  unfoldable pub go_on : Step → ℕ → ℕ → Option (Run W StepEnd) → Prepared → Run W StepEnd
  go_on step version attempt again (ended step_end) = return step_end
  go_on step version attempt again (ready target) =
      let after = is_effect step.action in
      try
        (do
          perform ports request inputs step target
          record_event (action_result step.id)
          verify step version (record { after_dispatch = after; attempt = attempt }))
        (on_error step version attempt again after)

  -- The body of `_execute_step`, in the attempt of that number. The error of a preparation is
  -- handled with nothing dispatched.
  unfoldable pub attempt_once : Step → ℕ → ℕ → Option (Run W StepEnd) → Run W StepEnd
  attempt_once step version attempt again = do
    prepared ← try (prepare ports request inputs step version allow_intervention) (λ error. do
      step_end ← on_error step version attempt again false error
      return (ended step_end))
    go_on step version attempt again prepared

  -- `_execute_step`, with `left = max_attempts - attempt`.
  unfoldable pub attempts : Step → ℕ → (left attempt : ℕ) → Run W StepEnd
  attempts step version zero attempt = attempt_once step version attempt none
  attempts step version (suc left) attempt =
      attempt_once step version attempt (some (attempts step version left (attempt + 1)))

  abbrev pub execute_step_with : Step → ℕ → ℕ → Run W StepEnd
  execute_step_with step version attempt =
      attempts step version (step.retry.max_attempts - attempt) attempt
