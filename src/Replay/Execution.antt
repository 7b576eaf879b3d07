-- ===== src/Replay/Execution.antt =====
-- replay/engine.py: a whole execution, which closes the session unless a person is to take it over,
-- and the resumption of one. The driver of surfaces, the compatibility validator and the
-- continuation sink are arguments.
use replay_forge.Base.{
  Bool, Option, Result, String, [], bool_eq, err, false, if◌then◌else◌, leb, length, ltb, nat_eq,
  nat_eqb, none, not, ok, on_contract_error, option_eq, pair_eq, raise_if, some, string_eq, suc,
  true, value_error, zero, ℕ, ◌&&◌, ◌+◌, ◌==◌, ◌||◌, ◌∷◌,
}
use replay_forge.Dict.{Dict, lookup}
use replay_forge.Interventions.LeaseService.{create_for_automation, pause}
use replay_forge.Policy.Layers.{member}
use replay_forge.Capabilities.Json.{Fields, end}
use replay_forge.Capabilities.Values.{validate_object}
use replay_forge.Capabilities.Artifact.{BusinessOutcome, CapabilityArtifact}
use replay_forge.Replay.Machine.{
  Outcome, Ports, Reply, Run, State, SurfaceError, call, closed, exhausted, fail, failed, follow,
  lift, raise, raised, reading, record_event, replay_started, return, returned, try, with_leases,
  ◌>>=◌, ◌>>◌,
}
use replay_forge.Replay.Results.{ReplayRequest, RunResult, fail_step, failure_result, intervention}
use replay_forge.Replay.Detection.{all_hold, business_outcome_of}
use replay_forge.Replay.Engine.{needs_person, run_steps}
use replay_forge.Replay.Journal.{uses_left}

-- Its session is the one of the ports.
pub record ReplayContinuation : Type 0 where
  pub intervention_id : String
  pub request : ReplayRequest
  pub inputs : Fields
  pub outputs : Fields
  pub recovery_uses : Dict String ℕ
  pub interrupted_step_index : ℕ
  pub initial_fingerprint : String
  pub retry_step : Bool
  pub retry_attempt : ℕ

pub record Driver (W : Type 0) : Type 0 where
  pub compatibility_validator : CapabilityArtifact → String → W → Reply (Unit {0}) × W
  pub open_surface : String → String → String → W → Reply (Unit {0}) × W
  pub continuation_sink : Option (ReplayContinuation → W → Reply (Unit {0}) × W)

-- `u` times the number of steps and one more.
unfoldable pub rounds : (steps u : ℕ) → ℕ
rounds steps zero = 0
rounds steps (suc u) = (steps + 1) + rounds steps u

-- Enough rounds of the loop: each start of a recovery goes back by at most all the steps.
unfoldable pub fuel_for : CapabilityArtifact → Dict String ℕ → ℕ
fuel_for artifact uses =
    length artifact.steps + 1 + rounds (length artifact.steps) (uses_left artifact.recoveries uses)

-- `pause_points.pop(id, (False, 1))`: the entry, and the others.
abbrev or_fresh : Option (Bool × ℕ) → Bool × ℕ
or_fresh none = (false, 1)
or_fresh (some pause) = pause

unfoldable pub without : Dict String (Bool × ℕ) → String → Dict String (Bool × ℕ)
without [] id = []
without ((k, v) ∷ d) id = let rest = without d id in if k == id then rest else (k, v) ∷ rest

module _ {W : Type 0} (ports : Ports W) (driver : Driver W) (request : ReplayRequest)
    (inputs : Fields) where
  unfoldable pub close_session : Run W (Unit {0})
  close_session = do record_event closed; call ports.close

  unfoldable pub take_pause : String → Run W (Bool × ℕ)
  take_pause id s = (
    returned (or_fresh (lookup s.pause_points id)),
    record s { pause_points = without s.pause_points id },
  )

  unfoldable pub hand_over :
      Option (ReplayContinuation → W → Reply (Unit {0}) × W)
      → String
      → ℕ
      → Bool × ℕ
      → Run W (Unit {0})
  hand_over none id index pause = return tt
  hand_over (some sink) id index pause = do
    observation ← call ports.observe
    λ s.
        call
          (sink (record {
            intervention_id = id;
            request = request;
            inputs = inputs;
            outputs = s.outputs;
            recovery_uses = s.recovery_uses;
            interrupted_step_index = index;
            initial_fingerprint = observation.fingerprint;
            retry_step = pause.0;
            retry_attempt = pause.1;
          }))
          s

  -- `_retain_continuation`
  unfoldable pub retain_continuation : RunResult → ℕ → Run W (Unit {0})
  retain_continuation (intervention id code step_id) index = do
    pause ← take_pause id
    hand_over driver.continuation_sink id index pause
  retain_continuation result index = return tt

  -- `_surface_failure` without a step.
  abbrev pub surface_result : Bool → SurfaceError → Run W RunResult
  surface_result has_session e =
      failure_result ports has_session e.failure_frame e.code e.recoverable none

  -- What the loop came to: the session is retained for a person, and closed otherwise.
  unfoldable pub conclude : RunResult × ℕ → Run W RunResult
  conclude (result, index) =
      if needs_person result
      then try (retain_continuation result index >> return result)
          (λ e. surface_result true e >>= λ f. close_session >> return f)
      else close_session >> return result

  -- `finally`, where an exception is on its way.
  unfoldable pub close_on_raise :
      Outcome (RunResult × ℕ) × State W → Outcome (RunResult × ℕ) × State W
  close_on_raise (returned p, s) = (returned p, s)
  close_on_raise (failed e, s) = follow (close_session s) (λ u. fail e)
  close_on_raise (raised e, s) = follow (close_session s) (λ u. raise e)
  close_on_raise (exhausted, s) = (exhausted, s)

  -- The `try` of `execute` and `resume`, once the session is there.
  unfoldable pub supervise : Run W (RunResult × ℕ) → Run W RunResult
  supervise body = do
    concluded ← λ s. close_on_raise (try body (λ e. surface_result true e >>= λ f. return (f, 0)) s)
    conclude concluded

  unfoldable pub session_body : Run W (RunResult × ℕ)
  session_body = do
    now ← reading
    lease ← with_leases (create_for_automation ports.ttl ports.session_id (ports.clock now))
    record_event replay_started
    satisfied ← all_hold ports inputs request.artifact.preconditions
    if not satisfied
        then (fail_step ports "precondition_mismatch" none >>= λ f. return (f, 0))
        else run_steps ports request inputs (λ i. 1) (fuel_for request.artifact []) 0 lease.version

  -- The result of an execution whose session could not be opened.
  unfoldable pub open_session : Run W (Option RunResult)
  open_session =
      try
        (do
          call (driver.compatibility_validator request.artifact request.tenant)
          call (
              driver.open_surface request.artifact.capability.application_family request.tenant
                request.artifact.compatibility.entry_point)
          return none)
        (λ e. surface_result false e >>= λ f. return (some f))

  unfoldable pub after_opening : Option RunResult → Run W RunResult
  after_opening none = supervise session_body
  after_opening (some result) = return result

  unfoldable pub execute_valid : Run W RunResult
  execute_valid =
      if not (member request.tenant request.artifact.compatibility.supported_variants)
      then failure_result ports false none "incompatible_tenant" false none
      else open_session >>= after_opening

module _ {W : Type 0} (ports : Ports W) (driver : Driver W) (request : ReplayRequest) where
  unfoldable pub execute_validated : Result Fields → Run W RunResult
  execute_validated (ok inputs) = execute_valid ports driver request inputs
  execute_validated (err e) =
      on_contract_error (λ code. failure_result ports false none "invalid_input" false none)
        (raise e) e

  -- `outputs` and `recovery_uses` of a fresh execution.
  abbrev pub fresh : State W → State W
  fresh s = record s { outputs = end; recovery_uses = [] }

  -- `execute`
  unfoldable pub execute : Run W RunResult
  execute s =
      execute_validated (validate_object ports.formats request.artifact.inputs request.inputs)
        (fresh s)

-- `_assert_continuation`
unfoldable pub check_continuation : ReplayContinuation → Result (Unit {0})
check_continuation c =
    raise_if
      (not (ltb c.interrupted_step_index (length c.request.artifact.steps))
        || not (leb 1 c.retry_attempt && leb c.retry_attempt 5))
      value_error

-- The first attempt of the step at an index.
abbrev pub attempt_at : ReplayContinuation → ℕ → ℕ
attempt_at c index = if nat_eqb index c.interrupted_step_index then c.retry_attempt else 1

abbrev pub resume_index : ReplayContinuation → ℕ
resume_index c = if c.retry_step then c.interrupted_step_index else c.interrupted_step_index + 1

module _ {W : Type 0} (ports : Ports W) (driver : Driver W) (c : ReplayContinuation) where
  -- `resume`, past its check: with the outcome that the revalidation found, or from the step on.
  unfoldable pub resume_from : ℕ → Option BusinessOutcome → Run W RunResult
  resume_from version none = supervise ports driver c.request c.inputs (
      run_steps ports c.request c.inputs (attempt_at c) (fuel_for c.request.artifact [])
        (resume_index c) version)
  resume_from version (some outcome) = do
    close_session ports driver c.request c.inputs
    business_outcome_of ports c.inputs outcome

  -- `outputs` and `recovery_uses` are those of the continuation.
  abbrev pub continued : State W → State W
  continued s = record s { outputs = c.outputs; recovery_uses = c.recovery_uses }

  -- `resume`
  unfoldable pub resume : ℕ → Option BusinessOutcome → Run W RunResult
  resume version outcome s =
      (lift (check_continuation c) >> resume_from version outcome) (continued s)
