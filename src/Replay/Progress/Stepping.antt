-- ===== src/Replay/Progress/Stepping.antt =====
-- The parts of a step.
use replay_forge.Base.{Bool, Option, String, false, none, on_contract_error_rule, some, true, ℕ}
use replay_forge.Capabilities.Json.{Fields}
use replay_forge.Capabilities.Artifact.{Step}
use replay_forge.Policy.Types.{Decision, allow, deny, require_human_approval}
use replay_forge.Policy.Decisions.{PolicyDecision}
use replay_forge.Surfaces.Observation.{Observation}
use replay_forge.Replay.Machine.{
  Outcome, Ports, Run, State, SurfaceError, exhausted, failed, raised, returned,
}
use replay_forge.Replay.Machine.Grades.{Ends, Grade, plain}
use replay_forge.Replay.Machine.Parts.{Good, call-Good, done, if-Good, option-Good, seq}
use replay_forge.Replay.Journal.{progress}
use replay_forge.Replay.Results.{Diagnostic, ReplayRequest, fail_step}
use replay_forge.Replay.Steps.{
  Prepared, StepEnd, ask_considered, ask_person, ask_unless_denied, ended, find_step, finished,
  or_unknown, proceed, ready, reconsider, resume_at, surface_failure,
}
use replay_forge.Replay.Progress.Reporting.{
  Unsuccessful, failure_result-Good, intervene-Good, step_policy-Good, unsuccessful,
}

-- A resumption is paid for; a result is no success.
abbrev pub EndMeets : StepEnd → Type 0
EndMeets (finished r) = Unsuccessful r
EndMeets (resume_at id version) = Unit {0}
EndMeets proceed = Unit {0}

abbrev pub end_price : StepEnd → ℕ
end_price (finished r) = 0
end_price (resume_at id version) = 1
end_price proceed = 0

abbrev pub step_end : Grade StepEnd
step_end = record { price = end_price; meets = EndMeets }

abbrev pub PreparedMeets : Prepared → Type 0
PreparedMeets (ended e) = EndMeets e
PreparedMeets (ready target) = Unit {0}

abbrev pub prepared_price : Prepared → ℕ
prepared_price (ended e) = end_price e
prepared_price (ready target) = 0

abbrev pub prepared : Grade Prepared
prepared = record { price = prepared_price; meets = PreparedMeets }

module _ {W : Type 0} (ports : Ports W) (request : ReplayRequest) (inputs : Fields) where
  abbrev pub Fine : {A : Type 0} → Grade A → Run W A → Type 0
  Fine = Good {W = W} request.artifact

  or_unknown-Ends :
      {A : Type 0} (s : State W) (x : Outcome A × State W)
      → Ends (progress request.artifact) plain s x
      → Ends (progress request.artifact) plain s (or_unknown ports request x)
  or_unknown-Ends s (returned a, t) h = h
  or_unknown-Ends s (failed e, t) h = (tt, h)
  or_unknown-Ends s (raised e, t) h =
      on_contract_error_rule (λ x. Ends (progress request.artifact) plain s (x, t))
        (λ code. returned none) (raised e) e (λ code. (tt, h)) h
  or_unknown-Ends s (exhausted, t) h = h

  reconsider-Good : (step : Step) → Fine plain (reconsider ports request step)
  unfolding reconsider
  reconsider-Good step = seq request.artifact (call-Good request.artifact ports.observe) (λ o.
      seq request.artifact (step_policy-Good request.artifact ports request step o none)
        (λ d. done request.artifact (o, d)))

  pub fail_step-Good :
      (code : String) (step_id : Option String) → Fine unsuccessful (fail_step ports code step_id)
  fail_step-Good code step_id =
      failure_result-Good request.artifact ports true none code false step_id

  ask_unless_denied-Good :
      (d : Decision) (step : Step) (e : SurfaceError) (version : ℕ) (g : Option Diagnostic)
      (o : Observation)
      → Fine unsuccessful (ask_unless_denied ports request d step e version g o)
  unfolding ask_unless_denied
  ask_unless_denied-Good deny step e version g o = fail_step-Good "policy_blocked" (some step.id)
  ask_unless_denied-Good allow step e version g o =
      intervene-Good request.artifact ports request _ _ o version _ _ _
  ask_unless_denied-Good require_human_approval step e version g o =
      intervene-Good request.artifact ports request _ _ o version _ _ _

  ask_considered-Good :
      (step : Step) (e : SurfaceError) (version : ℕ) (g : Option Diagnostic)
      (p : Option (Observation × PolicyDecision))
      → Fine unsuccessful (ask_considered ports request step e version g p)
  unfolding ask_considered
  ask_considered-Good step e version g none =
      failure_result-Good request.artifact ports true none e.code false (some step.id)
  ask_considered-Good step e version g (some (o, d)) =
      ask_unless_denied-Good d.decision step e version g o

  ask_person-Good :
      (step : Step) (e : SurfaceError) (version : ℕ) (g : Option Diagnostic)
      → Fine unsuccessful (ask_person ports request step e version g)
  unfolding ask_person
  ask_person-Good step e version g =
      seq request.artifact {m = λ s. or_unknown ports request (reconsider ports request step s)}
        (record { at = λ s. or_unknown-Ends s _ ((reconsider-Good step).at s) })
        (ask_considered-Good step e version g)

  pub surface_failure-Good :
      (step_id : String) (e : SurfaceError) (version : ℕ) (g : Option Diagnostic) (allowed : Bool)
      → Fine unsuccessful (surface_failure ports request step_id e version g allowed)
  unfolding surface_failure
  surface_failure-Good step_id e version g allowed =
      option-Good request.artifact (find_step request.artifact.steps step_id)
        (failure_result-Good request.artifact ports true e.failure_frame e.code e.recoverable
          (some step_id))
        (λ step. if-Good request.artifact _ (ask_person-Good step e version g) (
          failure_result-Good request.artifact ports true e.failure_frame e.code e.recoverable
            (some step_id)))
