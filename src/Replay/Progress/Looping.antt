-- ===== src/Replay/Progress/Looping.antt =====
-- The loop over the steps: the fuel is enough, whatever the session does.
use mathlib.Core.List.{Memᴰ}
use mathlib.Core.List.Memᴰ
use replay_forge.Replay.Progress.Attempting.{execute_step_with-Good}
use replay_forge.Dict.{Dict, lookup, none≢some}
use replay_forge.Base.{
  Bool-cases, List, Option, Result, String, [], arith, bool_eq, err, inl, inr, key_error, length,
  nat_eq, nat_eqb, none, not, ok, on_contract_error_rule, option_eq, pair_eq, refl, some, string_eq,
  suc, true, zero, ℕ, ◌+◌, ◌-◌, ◌<◌, ◌∷◌, ◌≡◌, ◌≤◌,
}
use replay_forge.Capabilities.Json.{Fields}
use replay_forge.Capabilities.Values.{validate_object}
use replay_forge.Capabilities.Artifact.{CapabilityArtifact, Recovery, Step}
use replay_forge.Replay.Machine.{
  Outcome, Ports, Run, State, checkpoint_verified, exhausted, failed, follow, raise, raised, return,
  returned, ◌>>=◌,
}
use replay_forge.Replay.Machine.Grades.{Ends, Grade, moved, plain}
use replay_forge.Replay.Machine.Parts.{
  Good, get_outputs-Good, if-Good, raise-Good, record-Good, return-Good, seq, seq_with,
}
use replay_forge.Replay.Journal.{Progress, progress, uses_left}
use replay_forge.Replay.Results.{
  ReplayRequest, RunResult, business_result, fail_step, failure, intervention, success,
}
use replay_forge.Replay.Steps.{StepEnd, finished, proceed, resume_at}
use replay_forge.Replay.Engine.{
  after_step, at_step, attempt_recovery, by_validation, complete, get_step, jump, run_steps,
  uses_of,
}
use replay_forge.Replay.Execution.{fuel_for, rounds}
use replay_forge.Replay.Progress.Reporting.{Unsuccessful, unsuccessful}
use replay_forge.Replay.Progress.Detecting.{waits-Good}
use replay_forge.Replay.Progress.Stepping.{EndMeets, end_price, fail_step-Good, step_end}
use replay_forge.Replay.Progress.Recovering.{attempt_recovery-Good, beat-Good}

rounds-le : (n u v : ℕ) → u ≤ v → rounds n u ≤ rounds n v
unfolding rounds
rounds-le n zero v le = omega arith
rounds-le n (suc u) zero le = absurd (omega arith)
rounds-le n (suc u) (suc v) le = omega (arith, rounds-le n u v (omega arith))

rounds-lt : (n u v : ℕ) → u + 1 ≤ v → (n + 1) + rounds n u ≤ rounds n v
unfolding rounds
rounds-lt n u zero le = absurd (omega arith)
rounds-lt n u (suc v) le = omega (arith, rounds-le n u v (omega arith))

uses_of-nil : (id : String) → uses_of [] id ≡ 0
unfolding uses_of lookup
uses_of-nil id = refl

-- None is used of a fresh execution.
uses_left-le :
    (recoveries : List Recovery) (uses : Dict String ℕ)
    → uses_left recoveries uses ≤ uses_left recoveries []
unfolding uses_left
uses_left-le [] uses = omega arith
uses_left-le (r ∷ recoveries) uses = omega (arith, uses_left-le recoveries uses, uses_of-nil r.id)

get_step-Memᴰ :
    (steps : List Step) (index : ℕ) {s : Step} → get_step steps index ≡ some s → Memᴰ s steps
unfolding get_step
get_step-Memᴰ [] index h = absurd (none≢some h)
get_step-Memᴰ (x ∷ steps) index h = elim (Bool-cases (nat_eqb index 0)) [
  | inl e ↦ Memᴰ.head (ground (arith, h, e))
  | inr e ↦ Memᴰ.tail (get_step-Memᴰ steps (index - 1) (ground (arith, h, e)))
]

zero_of : (n : ℕ) → nat_eqb n 0 ≡ true → n ≡ 0
zero_of n e = ground (arith, e)

get_step-lt :
    (steps : List Step) (index : ℕ) {s : Step}
    → get_step steps index ≡ some s
    → index < length steps
unfolding get_step
get_step-lt [] index h = absurd (none≢some h)
get_step-lt (x ∷ steps) index {s} h = elim (Bool-cases (nat_eqb index 0)) [
  | inl e ↦ omega (arith, zero_of index e)
  | inr e ↦ omega (arith, get_step-lt steps (index - 1) {s = s} (ground (arith, h, e)))
]

module _ {W : Type 0} (ports : Ports W) (request : ReplayRequest) (inputs : Fields) where
  abbrev a : CapabilityArtifact
  a = request.artifact

  -- The outputs of a success are what the contract's validation gave.
  abbrev pub Validated : RunResult → Type 0
  Validated (success outputs id) =
      (fs : Fields) × (validate_object ports.formats request.artifact.outputs fs ≡ ok outputs)
  Validated (business_result code details) = Unit {0}
  Validated (failure code recoverable step_id) = Unit {0}
  Validated (intervention id code step_id) = Unit {0}

  pub Unsuccessful-Validated : (r : RunResult) → Unsuccessful r → Validated r
  Unsuccessful-Validated (success outputs id) bad = absurd bad
  Unsuccessful-Validated (business_result code details) bad = tt
  Unsuccessful-Validated (failure code recoverable step_id) bad = tt
  Unsuccessful-Validated (intervention id code step_id) bad = tt

  abbrev pub validated : Grade RunResult
  validated = record { price = λ _. 0; meets = Validated }

  abbrev pub validated_at : Grade (RunResult × ℕ)
  validated_at = record { price = λ _. 0; meets = λ p. Validated p.0 }

  pub unsuccessful-Good : (m : Run W RunResult) → Good a unsuccessful m → Good a validated m
  unsuccessful-Good m good = record { at = λ s. by_end s (m s) (good.at s) }
    where
      by_end :
          (s : State W) (x : Outcome RunResult × State W)
          → Ends (progress a) unsuccessful s x
          → Ends (progress a) validated s x
      by_end s (returned r, t) (bad, p) = (Unsuccessful-Validated r bad, p)
      by_end s (failed e, t) p = p
      by_end s (raised e, t) p = p
      by_end s (exhausted, t) p = p

  by_validation-Good :
      (fs : Fields) (x : Result Fields)
      → validate_object ports.formats request.artifact.outputs fs ≡ x
      → Good a validated (by_validation ports request inputs x)
  unfolding by_validation
  by_validation-Good fs (ok outputs) e =
      seq a (record-Good a checkpoint_verified (λ log. refl))
        (λ u. return-Good a validated (success outputs request.artifact.checkpoint.id) (fs, e) refl)
  by_validation-Good fs (err error) e =
      on_contract_error_rule (Good a validated)
        (λ code. fail_step ports "output_validation_failed" none) (raise error) error
        (λ code.
          unsuccessful-Good _ (fail_step-Good ports request inputs "output_validation_failed" none))
        (raise-Good a validated error)

  complete-Good : Good a validated (complete ports request inputs)
  unfolding complete
  complete-Good = seq a (waits-Good a ports inputs 10000 _) (λ verified.
      if-Good a (not verified)
        (unsuccessful-Good _ (fail_step-Good ports request inputs "checkpoint_mismatch" none))
        (seq a (get_outputs-Good a) (λ fs. by_validation-Good fs _ refl)))

  at_index-Good :
      (index : ℕ) (m : Run W RunResult)
      → Good a validated m
      → Good a validated_at (m >>= λ r. return (r, index))
  at_index-Good index m good = seq_with a good (λ r v. return-Good a validated_at (r, index) v refl)

  -- The rounds that the loop may still take.
  budget : ℕ → State W → ℕ
  budget index s =
      (length request.artifact.steps - index)
      + 1
      + rounds (length request.artifact.steps)
          (uses_left request.artifact.recoveries s.recovery_uses)

  Enough : ℕ → (ℕ → ℕ → Run W (RunResult × ℕ)) → Type 0
  Enough fuel again =
      (index version : ℕ) (s : State W)
      → budget index s ≤ fuel
      → Ends (progress a) validated_at s (again index version s)

  -- What follows a heartbeat.
  beaten :
      (t : State W) (x : Outcome ℕ × State W) (next : ℕ → Run W (RunResult × ℕ))
      → Ends (progress a) plain t x
      → ((v : ℕ) (u : State W) → Progress a 0 t u → Ends (progress a) validated_at u (next v u))
      → Ends (progress a) validated_at t (follow x next)
  beaten t (returned v, u) next (good, p) go =
      moved (progress a) validated_at (next v u) p (go v u p)
  beaten t (failed e, u) next p go = p
  beaten t (raised e, u) next p go = p
  beaten t (exhausted, u) next p go = p

  jump-Ends :
      (fuel : ℕ) (again : ℕ → ℕ → Run W (RunResult × ℕ)) (target : Option ℕ) (version : ℕ)
      (s : State W)
      → Enough fuel again
      → budget 0 s ≤ fuel
      → Ends (progress a) validated_at s (jump ports request inputs again target version s)
  unfolding jump Enough budget
  jump-Ends fuel again none version s enough left = (raise-Good a validated_at key_error).at s
  jump-Ends fuel again (some index) version s enough left = enough index version s (omega arith)

  after_step-Ends :
      (fuel : ℕ) (again : ℕ → ℕ → Run W (RunResult × ℕ)) (index version : ℕ) (e : StepEnd)
      (s t : State W)
      → Enough fuel again
      → budget index s ≤ fuel + 1
      → index < length request.artifact.steps
      → EndMeets e
      → Progress a (end_price e) s t
      → Ends (progress a) validated_at t (after_step ports request inputs again index version e t)
  unfolding after_step Enough budget
  after_step-Ends fuel again index version (finished r) s t enough left inside good p =
      (return-Good a validated_at (r, index) (Unsuccessful-Validated r good) refl).at t
  after_step-Ends fuel again index version (resume_at id v) s t enough left inside good p =
      beaten t _ _ ((beat-Good ports request inputs v).at t) (λ w u q.
        jump-Ends fuel again _ w u enough (
          omega (
            arith,
            p.spends,
            q.spends,
            left,
            rounds-lt (length request.artifact.steps)
                (uses_left request.artifact.recoveries u.recovery_uses)
                (uses_left request.artifact.recoveries s.recovery_uses)
                (omega (arith, p.spends, q.spends)),
          )))
  after_step-Ends fuel again index version proceed s t enough left inside good p =
      beaten t _ _ ((beat-Good ports request inputs version).at t) (λ w u q.
        enough (index + 1) w u (
          omega (
            arith,
            left,
            inside,
            rounds-le (length request.artifact.steps)
                (uses_left request.artifact.recoveries u.recovery_uses)
                (uses_left request.artifact.recoveries s.recovery_uses)
                (omega (arith, p.spends, q.spends)),
          )))

  after_execution :
      (fuel : ℕ) (again : ℕ → ℕ → Run W (RunResult × ℕ)) (index version : ℕ) (s : State W)
      (x : Outcome StepEnd × State W)
      → Enough fuel again
      → budget index s ≤ fuel + 1
      → index < length request.artifact.steps
      → Ends (progress a) step_end s x
      → Ends
          (progress a)
          validated_at
          s
          (follow x (after_step ports request inputs again index version))
  after_execution fuel again index version s (returned e, t) enough left inside (good, p) =
      moved (progress a) validated_at _ ((progress a).spares (end_price e) p)
        (after_step-Ends fuel again index version e s t enough left inside good p)
  after_execution fuel again index version s (failed e, t) enough left inside p = p
  after_execution fuel again index version s (raised e, t) enough left inside p = p
  after_execution fuel again index version s (exhausted, t) enough left inside p = p

  at_step-Ends :
      (first : ℕ → ℕ) (fuel : ℕ) (again : ℕ → ℕ → Run W (RunResult × ℕ)) (index version : ℕ)
      (o : Option Step) (s : State W)
      → get_step request.artifact.steps index ≡ o
      → Enough fuel again
      → budget index s ≤ fuel + 1
      → Ends
          (progress a)
          validated_at
          s
          (at_step ports request inputs first again index version o s)
  unfolding at_step
  at_step-Ends first fuel again index version none s e enough left =
      (at_index-Good index (complete ports request inputs) complete-Good).at s
  at_step-Ends first fuel again index version (some step) s e enough left =
      after_execution fuel again index version s _ enough left
        (get_step-lt request.artifact.steps index e)
        ((execute_step_with-Good ports request inputs (attempt_recovery ports request inputs) true
            (attempt_recovery-Good ports request inputs) step
            (Memᴰ.append_left _ (get_step-Memᴰ request.artifact.steps index e)) version
            (first index)).at
          s)

  run_steps-Enough :
      (first : ℕ → ℕ) (fuel : ℕ) → Enough fuel (run_steps ports request inputs first fuel)
  unfolding run_steps Enough budget
  run_steps-Enough first zero index version s left = absurd (omega (arith, left))
  run_steps-Enough first (suc fuel) index version s left =
      at_step-Ends first fuel (run_steps ports request inputs first fuel) index version
        (get_step request.artifact.steps index) s refl (run_steps-Enough first fuel)
        (omega (arith, left))

  -- The fuel of the artifact is enough from every state.
  pub run_steps-Good :
      (first : ℕ → ℕ) (index version : ℕ)
      → Good a validated_at
          (run_steps ports request inputs first (fuel_for request.artifact []) index version)
  unfolding Enough budget fuel_for
  run_steps-Good first index version = record {
    at = λ s. run_steps-Enough first (fuel_for request.artifact []) index version s (
        omega (
          arith,
          rounds-le (length request.artifact.steps)
              (uses_left request.artifact.recoveries s.recovery_uses)
              (uses_left request.artifact.recoveries [])
              (uses_left-le request.artifact.recoveries s.recovery_uses),
        ));
  }
