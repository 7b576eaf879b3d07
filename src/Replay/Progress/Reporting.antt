-- ===== src/Replay/Progress/Reporting.antt =====
-- Failures, policy decisions and interventions.
use replay_forge.Base.{
  Bool, Error, Option, String, false, if◌then◌else◌, none, not, refl, some, true, ℕ,
}
use replay_forge.Capabilities.Artifact.{CapabilityArtifact, Step}
use replay_forge.Surfaces.Observation.{Observation}
use replay_forge.Replay.Machine.{
  Outcome, Ports, ResolvedTarget, State, execution_diagnostic, exhausted, failed,
  intervention_required, raised, record_event, replay_failed, return, returned,
}
use replay_forge.Replay.Machine.Grades.{Ends, Grade, plain}
use replay_forge.Replay.Machine.Parts.{
  Good, call-Good, done, if-Good, lifted, reading-Good, record-Good, return-Good, seq,
  set_pause_point-Good, with_store-Good,
}
use replay_forge.Replay.Journal.{Progress, progress}
use replay_forge.Replay.Results.{
  ReplayRequest, RunResult, attach_frame, capture_evidence, caught, failure, failure_result,
  intervene, is_caught, step_policy, success,
}

-- The result is no success.
abbrev pub Unsuccessful : RunResult → Type 0
Unsuccessful (success outputs checkpoint_id) = ⊥
Unsuccessful r = Unit {0}

abbrev pub unsuccessful : Grade RunResult
unsuccessful = record { price = λ _. 0; meets = Unsuccessful }

module _ {W : Type 0} (artifact : CapabilityArtifact) (ports : Ports W) where
  attach_frame-Good : (kind : String) → Good artifact plain (attach_frame ports kind)
  unfolding attach_frame
  attach_frame-Good kind = search (seq artifact, call-Good artifact)

  unavailable-Ends :
      (s t : State W) (e : Error) (b : Bool)
      → Progress artifact 0 s t
      → Ends {W = W}
          (progress artifact)
          {A = String}
          plain
          s
          ((if b then returned "unavailable" else raised e), t)
  unavailable-Ends s t e true h = (tt, h)
  unavailable-Ends s t e false h = h

  caught-Ends :
      (s : State W) (x : Outcome (Unit {0}) × State W)
      → Ends (progress artifact) plain s x
      → Ends (progress artifact) plain s (caught ports x)
  unfolding caught
  caught-Ends s (returned u, t) h = h
  caught-Ends s (failed e, t) h = (tt, h)
  caught-Ends s (raised e, t) h = unavailable-Ends s t e (is_caught e) h
  caught-Ends s (exhausted, t) h = h

  capture_evidence-Good :
      (has_session : Bool) (frame : Option String)
      → Good artifact plain (capture_evidence ports has_session frame)
  unfolding capture_evidence
  capture_evidence-Good true frame = record {
    at = λ s.
        caught-Ends s (attach_frame ports "failure-state" s)
          ((attach_frame-Good "failure-state").at s);
  }
  capture_evidence-Good false (some frame) = record {
    at = λ s.
        caught-Ends s _ ((call-Good artifact (ports.attach_screenshot "failure-state" frame)).at s);
  }
  capture_evidence-Good false none = done artifact "not_applicable"

  pub failure_result-Good :
      (has_session : Bool) (frame : Option String) (code : String) (recoverable : Bool)
      (step_id : Option String)
      → Good artifact unsuccessful (failure_result ports has_session frame code recoverable step_id)
  unfolding failure_result
  failure_result-Good has_session frame code recoverable step_id =
      seq artifact (record-Good artifact (execution_diagnostic step_id) (λ log. refl)) (λ u.
        seq artifact (capture_evidence-Good has_session frame) (λ evidence.
          seq artifact (record-Good artifact (replay_failed step_id code evidence) (λ log. refl))
            (λ u. return-Good artifact unsuccessful (failure code recoverable step_id) tt refl)))

  pub step_policy-Good :
      (request : ReplayRequest) (step : Step) (o : Observation) (target : Option ResolvedTarget)
      → Good artifact plain (step_policy ports request step o target)
  unfolding step_policy
  step_policy-Good request step o target =
      search (seq artifact, reading-Good artifact, lifted artifact)

  pub intervene-Good :
      (request : ReplayRequest) (step_id code : String) (o : Observation) (version : ℕ)
      (explanation : Option String) (pause : Bool × ℕ) (has_diagnostic : Bool)
      → Good artifact unsuccessful
          (intervene ports request step_id code o version explanation pause has_diagnostic)
  unfolding intervene
  intervene-Good request step_id code o version explanation pause has_diagnostic =
      if-Good artifact (not request.allow_intervention)
        (failure_result-Good true none code false (some step_id))
        (seq artifact
          (if-Good artifact has_diagnostic
            (record-Good artifact (execution_diagnostic (some step_id)) (λ log. refl))
            (done artifact tt))
          (λ u. seq artifact (attach_frame-Good "handoff-before") (λ u.
            seq artifact (reading-Good artifact) (λ digits.
              seq artifact (lifted artifact _) (λ context.
                seq artifact (reading-Good artifact) (λ created.
                  seq artifact (reading-Good artifact) (λ checked.
                    seq artifact (reading-Good artifact) (λ now.
                      seq artifact (with_store-Good artifact _) (λ routed.
                        seq artifact (lifted artifact _) (λ u.
                          seq artifact (set_pause_point-Good artifact _ pause.0 pause.1)
                            (λ u. seq artifact required (λ u. result _))))))))))))
    where
      required : Good artifact plain (record_event {W = W} (intervention_required (some step_id)))
      required = record-Good artifact (intervention_required (some step_id)) (λ log. refl)

      result :
          (id : String)
          → Good artifact unsuccessful
              (return {W = W} (RunResult.intervention id code (some step_id)))
      result id =
          return-Good artifact unsuccessful (RunResult.intervention id code (some step_id)) tt refl
