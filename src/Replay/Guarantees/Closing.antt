-- ===== src/Replay/Guarantees/Closing.antt =====
-- The session is closed unless a person is to take it over, and a step without the lease does nothing.
use replay_forge.Base.{
  Bool, Error, List, Option, err, false, none, refl, some, subst, suc, sym, true, true≢false, zero,
  ℕ, ◌+◌, ◌-◌, ◌∙◌, ◌∷◌, ◌≡◌,
}
use replay_forge.Capabilities.Json.{Fields}
use replay_forge.Capabilities.Artifact.{Step}
use replay_forge.Interventions.Owner.{automation_owner}
use replay_forge.Interventions.LeaseRules.{assert_can_act}
use replay_forge.Replay.Machine.{
  Event, Outcome, Ports, Reply, Run, State, broken, call, closed, exhausted, failed, follow, handle,
  in_world, raised, reading, record_event, refused, replied, return, returned, with_leases, ◌>>=◌,
  ◌>>◌,
}
use replay_forge.Replay.Results.{
  ReplayRequest, RunResult, business_result, failure, intervention, success,
}
use replay_forge.Replay.Steps.{StepEnd, prepare}
use replay_forge.Replay.Attempts.{attempt_once, attempts}
use replay_forge.Replay.Engine.{attempt_recovery, execute_step, needs_person}
use replay_forge.Replay.Execution.{
  Driver, close_session, conclude, retain_continuation, supervise, surface_result,
}

-- The last thing that happened is the closing of the session.
abbrev pub ends_closed : List Event → Bool
ends_closed (closed ∷ log) = true
ends_closed log = false

-- If the run returned a result that needs no person, the session was closed last.
ClosesUnlessPerson : {W : Type 0} → Outcome RunResult × State W → Type 0
ClosesUnlessPerson (returned r, t) = needs_person r ≡ false → ends_closed t.log ≡ true
ClosesUnlessPerson x = Unit {0}

module _ {W : Type 0} (ports : Ports W) (driver : Driver W) (request : ReplayRequest)
    (inputs : Fields) where
  closing :
      (r : RunResult) (s : State W)
      → ClosesUnlessPerson ((close_session ports driver request inputs >> return r) s)
  unfolding close_session record_event call ClosesUnlessPerson
  closing r s = by_reply (ports.close s.world)
    where
      by_reply :
          (x : Reply (Unit {0}) × W)
          → ClosesUnlessPerson
              (follow (in_world x (record s { log = closed ∷ s.log })) (λ u. return r))
      by_reply (replied u, w) = λ h. refl
      by_reply (refused e, w) = tt
      by_reply (broken e, w) = tt

  failing :
      (x : Outcome RunResult × State W)
      → ClosesUnlessPerson (follow x (λ f. close_session ports driver request inputs >> return f))
  unfolding ClosesUnlessPerson
  failing (returned f, t) = closing f t
  failing (failed e, t) = tt
  failing (raised e, t) = tt
  failing (exhausted, t) = tt

  retaining :
      (r : RunResult) (x : Outcome (Unit {0}) × State W)
      → needs_person r ≡ true
      → ClosesUnlessPerson (
          handle (follow x (λ u. return r)) (λ e.
            surface_result ports driver request inputs true e >>= λ f.
            close_session ports driver request inputs >> return f))
  unfolding ClosesUnlessPerson
  retaining r (returned u, t) person = λ h. absurd (true≢false (sym person ∙ h))
  retaining r (failed e, t) person = failing (surface_result ports driver request inputs true e t)
  retaining r (raised e, t) person = tt
  retaining r (exhausted, t) person = tt

  concluding :
      (r : RunResult) (index : ℕ) (s : State W)
      → ClosesUnlessPerson (conclude ports driver request inputs (r, index) s)
  unfolding conclude
  concluding (intervention id code step_id) index s =
      retaining (intervention id code step_id)
        (retain_continuation ports driver request inputs (intervention id code step_id) index s)
        refl
  concluding (success outputs id) index s = closing (success outputs id) s
  concluding (business_result code details) index s = closing (business_result code details) s
  concluding (failure code recoverable step_id) index s =
      closing (failure code recoverable step_id) s

  concluding_all :
      (x : Outcome (RunResult × ℕ) × State W)
      → ClosesUnlessPerson (follow x (conclude ports driver request inputs))
  unfolding ClosesUnlessPerson
  concluding_all (returned (r, index), t) = concluding r index t
  concluding_all (failed e, t) = tt
  concluding_all (raised e, t) = tt
  concluding_all (exhausted, t) = tt

  -- Whatever ran in the session: if the supervised run returns a result that needs no person, then
  -- the session was closed, as the last thing that happened.
  pub session_is_closed :
      (body : Run W (RunResult × ℕ)) (s t : State W) (r : RunResult)
      → supervise ports driver request inputs body s ≡ (returned r, t)
      → needs_person r ≡ false
      → ends_closed t.log ≡ true
  unfolding supervise ClosesUnlessPerson
  session_is_closed body s t r e = subst ClosesUnlessPerson e (concluding_all _)

module _ {W : Type 0} (ports : Ports W) (request : ReplayRequest) (inputs : Fields) where
  refused_once :
      (recover : Step → ℕ → Run W (Option StepEnd)) (allowed : Bool) (step : Step)
      (version attempt : ℕ) (again : Option (Run W StepEnd)) (s : State W) {e : Error}
      → assert_can_act ports.session_id version automation_owner
          (ports.clock s.readings)
          s.store.leases
        ≡ err e
      → attempt_once ports request inputs recover allowed step version attempt again s
        ≡ (raised e, record s { readings = s.readings + 1 })
  unfolding attempt_once prepare reading with_leases
  refused_once recover allowed step version attempt again s h = rw h refl

  -- A step for which automation may not act, by the lease of its session, raises the error of the
  -- lease service and touches nothing: neither the session nor the journal, outputs or leases.
  pub refused_step_touches_nothing :
      (step : Step) (version attempt : ℕ) (s : State W) (e : Error)
      → assert_can_act ports.session_id version automation_owner
          (ports.clock s.readings)
          s.store.leases
        ≡ err e
      → execute_step ports request inputs step version attempt s
        ≡ (raised e, record s { readings = s.readings + 1 })
  unfolding attempts
  refused_step_touches_nothing step version attempt s e h =
      by_left (step.retry.max_attempts - attempt)
    where
      by_left :
          (left : ℕ)
          → attempts ports request inputs
              (attempt_recovery ports request inputs)
              true
              step
              version
              left
              attempt
              s
            ≡ (raised e, record s { readings = s.readings + 1 })
      by_left zero =
          refused_once (attempt_recovery ports request inputs) true step version attempt none s h
      by_left (suc left) =
          refused_once (attempt_recovery ports request inputs) true step version attempt
            (some (
              attempts ports request inputs (attempt_recovery ports request inputs) true step
                version left (attempt + 1)))
            s h
