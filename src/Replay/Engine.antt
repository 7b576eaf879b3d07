-- ===== src/Replay/Engine.antt =====
-- replay/engine.py: recoveries, the loop over the steps, and a whole execution.
use replay_forge.Base.{
  Bool, List, Option, Result, String, [], bool_eq, err, false, if◌then◌else◌, inl, inr, key_error,
  leb, nat_eq, nat_eqb, none, not, ok, on_contract_error, option_eq, pair_eq, runtime_error, some,
  string_eq, suc, true, zero, ℕ, ◌+◌, ◌-◌, ◌==◌, ◌∷◌, ◌⊎◌,
}
use replay_forge.Dict.{Dict, insert, lookup}
use replay_forge.Interventions.Owner.{automation_owner, owner_eq}
use replay_forge.Interventions.LeaseService.{heartbeat}
use replay_forge.Capabilities.Json.{Fields}
use replay_forge.Capabilities.Values.{validate_object}
use replay_forge.Capabilities.Artifact.{Recovery, Step}
use replay_forge.Replay.Machine.{
  Ports, Run, checkpoint_verified, get_outputs, out_of_fuel, raise, reading, record_event,
  recovery_completed, recovery_exhausted, recovery_started, return, returned, with_leases, ◌>>=◌,
  ◌>>◌,
}
use replay_forge.Replay.Results.{ReplayRequest, RunResult, fail_step, intervention, success}
use replay_forge.Replay.Detection.{detect_one, last_with, matched, or_this, waits}
use replay_forge.Replay.Steps.{StepEnd, finished, proceed, resume_at}
use replay_forge.Replay.Attempts.{execute_step_with}

-- `recovery_uses.get(id, 0)`
abbrev pub or_zero : Option ℕ → ℕ
or_zero none = 0
or_zero (some n) = n

unfoldable pub uses_of : Dict String ℕ → String → ℕ
uses_of uses id = or_zero (lookup uses id)

-- `{step.id: index}[id]`: the last index of the identifier.
unfoldable pub last_index : List Step → String → ℕ → Option ℕ
last_index [] id index = none
last_index (s ∷ steps) id index =
    or_this (last_index steps id (index + 1)) (if s.id == id then some index else none)

unfoldable pub get_step : List Step → ℕ → Option Step
get_step [] index = none
get_step (s ∷ steps) index =
    let rest = get_step steps (index - 1) in if nat_eqb index 0 then some s else rest

abbrev pub needs_person : RunResult → Bool
needs_person (intervention id code step_id) = true
needs_person _ = false

module _ {W : Type 0} (ports : Ports W) (request : ReplayRequest) (inputs : Fields) where
  -- `heartbeat`, to the version of the new lease.
  unfoldable pub beat : ℕ → Run W ℕ
  beat version = do
    asserted ← reading
    checked ← reading
    now ← reading
    lease ← with_leases (
        heartbeat ports.ttl ports.session_id version automation_owner (ports.clock asserted)
          (ports.clock checked) (ports.clock now))
    return lease.version

  -- `_execute_step` of a recovery's step: no recovery and no intervention of its own.
  abbrev pub recovery_step : Step → ℕ → Run W StepEnd
  recovery_step step version =
      execute_step_with ports request inputs (λ s v. return none) false step version 1

  -- What follows a step of a recovery.
  unfoldable pub after_recovery_step :
      (ℕ → Run W (RunResult ⊎ ℕ)) → ℕ → StepEnd → Run W (RunResult ⊎ ℕ)
  after_recovery_step rest version (resume_at id v) = raise runtime_error
  after_recovery_step rest version (finished r) = return (inl r)
  after_recovery_step rest version proceed = beat version >>= rest

  -- The loop of `_execute_recovery`: a result, or the last version of the lease.
  unfoldable pub recovery_steps : List Step → ℕ → Run W (RunResult ⊎ ℕ)
  recovery_steps [] version = return (inr version)
  recovery_steps (step ∷ steps) version = do
    result ← recovery_step step version
    after_recovery_step (recovery_steps steps) version result

  -- `_execute_recovery`
  unfoldable pub execute_recovery : Recovery → ℕ → Run W (RunResult ⊎ ℕ)
  execute_recovery recovery version = do next ← beat version; recovery_steps recovery.steps next

  -- `recovery_uses[recovery.id] = uses + 1`
  unfoldable pub count_use : String → ℕ → Run W (Unit {0})
  count_use id uses s =
      (returned tt, record s { recovery_uses = insert s.recovery_uses id (uses + 1) })

  -- What the steps of a recovery came to.
  unfoldable pub after_recovery : Step → Recovery → RunResult ⊎ ℕ → Run W (Option StepEnd)
  after_recovery step recovery (inl r) = return (some (finished r))
  after_recovery step recovery (inr next) = do
    record_event (recovery_completed step.id recovery.id recovery.resume_at)
    return (some (resume_at recovery.resume_at next))

  unfoldable pub start_recovery : Step → ℕ → Recovery → ℕ → Run W (Option StepEnd)
  start_recovery step version recovery uses = do
    record_event (recovery_started step.id recovery.id (uses + 1))
    result ← execute_recovery recovery version
    after_recovery step recovery result

  -- The recovery that matched, of which there were `uses`.
  unfoldable pub use_recovery : Step → ℕ → Recovery → ℕ → Run W (Option StepEnd)
  use_recovery step version recovery uses =
      if leb recovery.max_uses uses
      then (do
        record_event (recovery_exhausted step.id recovery.id uses)
        r ← fail_step ports "recovery_exhausted" (some step.id)
        return (some (finished r)))
      else count_use recovery.id uses >> start_recovery step version recovery uses

  unfoldable pub use_matched : Step → ℕ → Option Recovery → Run W (Option StepEnd)
  use_matched step version none s = (returned none, s)
  use_matched step version (some recovery) s =
      use_recovery step version recovery (uses_of s.recovery_uses recovery.id) s

  -- `_attempt_recovery`
  unfoldable pub attempt_recovery : Step → ℕ → Run W (Option StepEnd)
  attempt_recovery step version = do
    matched ←
        detect_one ports inputs (last_with (λ r. r.id) request.artifact.recoveries) (λ r. r.trigger)
          step.recovery_refs
    use_matched step version matched

  abbrev pub execute_step : Step → ℕ → ℕ → Run W StepEnd
  execute_step = execute_step_with ports request inputs attempt_recovery true

  -- `_complete`, after the validation of the outputs.
  unfoldable pub by_validation : Result Fields → Run W RunResult
  by_validation (ok outputs) = do
    record_event checkpoint_verified
    return (success outputs request.artifact.checkpoint.id)
  by_validation (err e) =
      on_contract_error (λ code. fail_step ports "output_validation_failed" none) (raise e) e

  -- `_complete`, with the contract of the outputs.
  unfoldable pub complete : Run W RunResult
  complete = do
    verified ← waits ports inputs 10000 request.artifact.checkpoint.condition
    if not verified then fail_step ports "checkpoint_mismatch" none else (do
      outputs ← get_outputs
      by_validation (validate_object ports.formats request.artifact.outputs outputs))

  -- The step with which the loop goes on.
  unfoldable pub jump : (ℕ → ℕ → Run W (RunResult × ℕ)) → Option ℕ → ℕ → Run W (RunResult × ℕ)
  jump again none version = raise key_error
  jump again (some index) version = again index version

  -- What follows a step of the loop.
  unfoldable pub after_step :
      (ℕ → ℕ → Run W (RunResult × ℕ)) → (index version : ℕ) → StepEnd → Run W (RunResult × ℕ)
  after_step again index version (finished r) = return (r, index)
  after_step again index version (resume_at id v) = do
    next ← beat v
    jump again (last_index request.artifact.steps id 0) next
  after_step again index version proceed = do next ← beat version; again (index + 1) next

  unfoldable pub at_step :
      (ℕ → ℕ)
      → (ℕ → ℕ → Run W (RunResult × ℕ))
      → (index version : ℕ) → Option Step
      → Run W (RunResult × ℕ)
  at_step first_attempt again index version none = do r ← complete; return (r, index)
  at_step first_attempt again index version (some step) = do
    result ← execute_step step version (first_attempt index)
    after_step again index version result

  -- The loop over the steps, to the result and the index at which it came. One round costs one unit
  -- of fuel. `first_attempt` is the number of a step's first attempt, by the step's index.
  unfoldable pub run_steps :
      (first_attempt : ℕ → ℕ) (fuel index version : ℕ) → Run W (RunResult × ℕ)
  run_steps first_attempt zero index version = out_of_fuel
  run_steps first_attempt (suc fuel) index version =
      at_step first_attempt (run_steps first_attempt fuel) index version
        (get_step request.artifact.steps index)
