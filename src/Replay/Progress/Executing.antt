-- ===== src/Replay/Progress/Executing.antt =====
-- A whole execution: it ends, whatever the session does, with a sound journal; what it reports as a
-- success was validated, and its session is closed unless a person takes over.
use replay_forge.Base.{Bool, Option, String, false, none, not, refl, some, true, ℕ}
use replay_forge.Capabilities.Json.{Fields}
use replay_forge.Capabilities.Artifact.{CapabilityArtifact}
use replay_forge.Replay.Machine.{
  Outcome, Ports, Reply, Run, State, SurfaceError, closed, exhausted, failed, raised,
  replay_started, return, returned, ◌>>=◌, ◌>>◌,
}
use replay_forge.Replay.Machine.Grades.{Ends, Grade, moved, plain}
use replay_forge.Replay.Machine.Parts.{
  Good, call-Good, done, fail-Good, if-Good, raise-Good, reading-Good, record-Good, return-Good,
  seq, seq_with, try-Good, unchanged, with_leases-Good,
}
use replay_forge.Replay.Journal.{progress}
use replay_forge.Replay.Results.{
  ReplayRequest, RunResult, business_result, failure, intervention, success,
}
use replay_forge.Replay.Engine.{needs_person}
use replay_forge.Replay.Execution.{
  Driver, ReplayContinuation, after_opening, close_on_raise, close_session, conclude, execute_valid,
  hand_over, open_session, retain_continuation, session_body, supervise, surface_result, take_pause,
}
use replay_forge.Replay.Progress.Reporting.{Unsuccessful, failure_result-Good, unsuccessful}
use replay_forge.Replay.Progress.Detecting.{all_hold-Good}
use replay_forge.Replay.Progress.Stepping.{fail_step-Good}
use replay_forge.Replay.Progress.Looping.{
  Unsuccessful-Validated, Validated, run_steps-Good, unsuccessful-Good, validated, validated_at,
}

module _ {W : Type 0} (ports : Ports W) (driver : Driver W) (request : ReplayRequest)
    (inputs : Fields) where
  abbrev a : CapabilityArtifact
  a = request.artifact

  pub close_session-Good : Good a plain (close_session ports driver request inputs)
  unfolding close_session
  close_session-Good = seq a (record-Good a closed (λ log. refl)) (λ u. call-Good a ports.close)

  take_pause-Good : (id : String) → Good a plain (take_pause ports driver request inputs id)
  unfolding take_pause
  take_pause-Good id = record { at = λ s. (tt, unchanged a s _ refl refl) }

  hand_over-Good :
      (sink : Option (ReplayContinuation → W → Reply (Unit {0}) × W)) (id : String) (index : ℕ)
      (pause : Bool × ℕ)
      → Good a plain (hand_over ports driver request inputs sink id index pause)
  unfolding hand_over
  hand_over-Good none id index pause = done a tt
  hand_over-Good (some sink) id index pause =
      seq a (call-Good a ports.observe) (λ o. record { at = λ s. (call-Good a _).at s })

  retain_continuation-Good :
      (r : RunResult) (index : ℕ)
      → Good a plain (retain_continuation ports driver request inputs r index)
  unfolding retain_continuation
  retain_continuation-Good (success outputs id) index = done a tt
  retain_continuation-Good (business_result code details) index = done a tt
  retain_continuation-Good (failure code recoverable step_id) index = done a tt
  retain_continuation-Good (intervention id code step_id) index =
      seq a (take_pause-Good id) (hand_over-Good driver.continuation_sink id index)

  closed-Good :
      (r : RunResult)
      → Validated ports request inputs r
      → Good a
          (validated ports request inputs)
          (close_session ports driver request inputs >> return r)
  closed-Good r v =
      seq a close_session-Good (λ u. return-Good a (validated ports request inputs) r v refl)

  surface_result-Good :
      (has_session : Bool) (e : SurfaceError)
      → Good a unsuccessful (surface_result ports driver request inputs has_session e)
  surface_result-Good has_session e =
      failure_result-Good a ports has_session e.failure_frame e.code e.recoverable none

  conclude-Good :
      (p : RunResult × ℕ)
      → Validated ports request inputs p.0
      → Good a (validated ports request inputs) (conclude ports driver request inputs p)
  unfolding conclude
  conclude-Good (r, index) v =
      if-Good a (needs_person r)
        (try-Good a
          (seq a (retain_continuation-Good r index)
            (λ u. return-Good a (validated ports request inputs) r v refl))
          (λ e.
            seq_with a (surface_result-Good true e)
              (λ f bad. closed-Good f (Unsuccessful-Validated ports request inputs f bad))))
        (closed-Good r v)

  failed_at-Good :
      (m : Run W RunResult)
      → Good a unsuccessful m
      → Good a (validated_at ports request inputs) (m >>= λ f. return (f, 0))
  failed_at-Good m good = seq_with a good (λ f bad.
      return-Good a (validated_at ports request inputs) (f, 0)
        (Unsuccessful-Validated ports request inputs f bad) refl)

  close_on_raise-Ends :
      (s : State W) (x : Outcome (RunResult × ℕ) × State W)
      → Ends (progress a) (validated_at ports request inputs) s x
      → Ends
          (progress a)
          (validated_at ports request inputs)
          s
          (close_on_raise ports driver request inputs x)
  unfolding close_on_raise
  close_on_raise-Ends s (returned p, t) h = h
  close_on_raise-Ends s (failed e, t) p =
      moved (progress a) (validated_at ports request inputs) _ p
        ((seq a close_session-Good (λ u. fail-Good a (validated_at ports request inputs) e)).at t)
  close_on_raise-Ends s (raised e, t) p =
      moved (progress a) (validated_at ports request inputs) _ p
        ((seq a close_session-Good (λ u. raise-Good a (validated_at ports request inputs) e)).at t)
  close_on_raise-Ends s (exhausted, t) h = h

  pub supervise-Good :
      (body : Run W (RunResult × ℕ))
      → Good a (validated_at ports request inputs) body
      → Good a (validated ports request inputs) (supervise ports driver request inputs body)
  unfolding supervise
  supervise-Good body good =
      seq_with a {f = validated_at ports request inputs}
        (record {
          at = λ s.
              close_on_raise-Ends s _
                ((try-Good a good (λ e. failed_at-Good _ (surface_result-Good true e))).at s);
        })
        conclude-Good

  session_body-Good :
      Good a (validated_at ports request inputs) (session_body ports driver request inputs)
  unfolding session_body
  session_body-Good = seq a (reading-Good a) (λ now. seq a (with_leases-Good a _) (λ lease.
      seq a (record-Good a replay_started (λ log. refl)) (λ u.
        seq a (all_hold-Good a ports inputs request.artifact.preconditions) (λ satisfied.
          if-Good a (not satisfied)
            (failed_at-Good _ (fail_step-Good ports request inputs "precondition_mismatch" none))
            (run_steps-Good ports request inputs (λ i. 1) 0 lease.version)))))

  OpeningMeets : Option RunResult → Type 0
  OpeningMeets none = Unit {0}
  OpeningMeets (some r) = Unsuccessful r

  abbrev opening : Grade (Option RunResult)
  opening = record { price = λ _. 0; meets = OpeningMeets }

  open_session-Good : Good a opening (open_session ports driver request inputs)
  unfolding open_session OpeningMeets
  open_session-Good =
      try-Good a
        (seq a (call-Good a _)
          (λ u. seq a (call-Good a _) (λ u. return-Good a opening none tt refl)))
        (λ e.
          seq_with a (surface_result-Good false e)
            (λ f bad. return-Good a opening (some f) bad refl))

  after_opening-Good :
      (o : Option RunResult)
      → OpeningMeets o
      → Good a (validated ports request inputs) (after_opening ports driver request inputs o)
  unfolding after_opening OpeningMeets
  after_opening-Good none h = supervise-Good _ session_body-Good
  after_opening-Good (some r) bad =
      return-Good a (validated ports request inputs) r
        (Unsuccessful-Validated ports request inputs r bad) refl

  pub execute_valid-Good :
      Good a (validated ports request inputs) (execute_valid ports driver request inputs)
  unfolding execute_valid
  execute_valid-Good =
      if-Good a _
        (unsuccessful-Good ports request inputs _
          (failure_result-Good a ports false none "incompatible_tenant" false none))
        (seq_with a open_session-Good after_opening-Good)
