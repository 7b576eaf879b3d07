-- ===== src/Replay/Progress/Attempting.antt =====
-- A step with its retries, over any recovery that is within its grade.
use mathlib.Core.List.{Memᴰ}
use replay_forge.Base.{
  Bool, List, Option, [], any, ap, arith, bool_eq, eq_refl, false, nat_eq, none, not, option_eq,
  pair_eq, refl, some, string_eq, suc, true, zero, ℕ, ◌+◌, ◌-◌, ◌∷◌, ◌≡◌, ◌≤◌,
}
use replay_forge.Capabilities.Json.{Fields}
use replay_forge.Capabilities.Conditions.{Condition, contains_identity}
use replay_forge.Capabilities.Artifact.{CapabilityArtifact, Step}
use replay_forge.Replay.Machine.{
  Outcome, Ports, ResolvedTarget, Run, State, SurfaceError, action_result, exhausted, failed,
  follow, raised, return, returned, step_retry_scheduled, try, ◌>>=◌,
}
use replay_forge.Replay.Machine.Grades.{Ends, Grade, follow-Ends, handle-Ends, moved, plain}
use replay_forge.Replay.Machine.Parts.{
  Good, if-Good, if_known-Good, option-Good, record-Good, return-Good, seq, seq_with, try-Good,
  unchanged,
}
use replay_forge.Replay.Journal.{all_steps, is_authorized, permits_retry, progress}
use replay_forge.Replay.Results.{Diagnostic, ReplayRequest, RunResult}
use replay_forge.Replay.Detection.{
  application_failure, business_outcome_of, detect_failure, detect_outcome,
}
use replay_forge.Replay.Steps.{
  Prepared, StepEnd, ended, finished, is_effect, prepare, proceed, ready,
}
use replay_forge.Replay.Attempts.{
  attempt_once, attempts, business_end, execute_step_with, failure_end, give_up, go_on, may_retry,
  on_error, or_else, pause_for, postconditions, surface_end, unmet, verify,
}
use replay_forge.Replay.Progress.Reporting.{failure_result-Good, unsuccessful}
use replay_forge.Replay.Progress.Detecting.{business_outcome_of-Good, detect_one-Good, waits-Good}
use replay_forge.Replay.Progress.Stepping.{
  EndMeets, end_price, fail_step-Good, prepared, step_end, surface_failure-Good,
}
use replay_forge.Replay.Progress.Preparing.{identities_verified-Good, perform-Ends, prepare-Good}
use replay_forge.Replay.Progress.Authorizing.{
  Authorized, IsAuthorized, after, at_end, prepare-IsAuthorized, try-IsAuthorized,
}

abbrev pub OptionEndMeets : Option StepEnd → Type 0
OptionEndMeets none = Unit {0}
OptionEndMeets (some e) = EndMeets e

abbrev pub option_price : Option StepEnd → ℕ
option_price none = 0
option_price (some e) = end_price e

abbrev pub option_end : Grade (Option StepEnd)
option_end = record { price = option_price; meets = OptionEndMeets }

-- A member that passes the test.
pub any-member :
    {A : Type 0} (p : A → Bool) (xs : List A) {x : A} → Memᴰ x xs → p x ≡ true → any p xs ≡ true
any-member p [] m h = elim m [ ]
any-member p (y ∷ ys) (Memᴰ.head e) h = ground (arith, ap p e, h)
any-member p (y ∷ ys) (Memᴰ.tail m) h = ground (arith, any-member p ys m h)

module _ {W : Type 0} (ports : Ports W) (request : ReplayRequest) (inputs : Fields)
    (recover : Step → ℕ → Run W (Option StepEnd)) (allowed : Bool)
    (recover-Good : (step : Step) (version : ℕ)
      → Good {W = W} request.artifact option_end (recover step version)) where
  abbrev a : CapabilityArtifact
  a = request.artifact

  -- An optional end, which may be paid for, and what follows where there is none.
  or_else-Good :
      (m : Run W (Option StepEnd)) (rest : Run W StepEnd)
      → Good a option_end m
      → Good a step_end rest
      → Good a step_end (m >>= λ o. or_else ports request inputs recover allowed o rest)
  or_else-Good m rest good after = record { at = λ s. by_end s (m s) (good.at s) }
    where
      by_end :
          (s : State W) (x : Outcome (Option StepEnd) × State W)
          → Ends (progress a) option_end s x
          → Ends
              (progress a)
              step_end
              s
              (follow x (λ o. or_else ports request inputs recover allowed o rest))
      by_end s (returned none, t) (h, p) = moved (progress a) step_end (rest t) p (after.at t)
      by_end s (returned (some e), t) h = h
      by_end s (failed e, t) h = h
      by_end s (raised e, t) h = h
      by_end s (exhausted, t) h = h

  finish-Good :
      (m : Run W RunResult)
      → Good a unsuccessful m
      → Good a step_end (m >>= λ r. return (finished r))
  finish-Good m good = seq_with a good (λ r bad. return-Good a step_end (finished r) bad refl)

  some_end-Good :
      (m : Run W RunResult)
      → Good a unsuccessful m
      → Good a option_end (m >>= λ r. return (some (finished r)))
  some_end-Good m good =
      seq_with a good (λ r bad. return-Good a option_end (some (finished r)) bad refl)

  business_end-Good :
      (step : Step) → Good a option_end (business_end ports request inputs recover allowed step)
  unfolding business_end detect_outcome
  business_end-Good step =
      seq_with a (detect_one-Good a ports inputs _ _ step.outcome_refs) (λ o found.
        option-Good a o (return-Good a option_end none tt refl) (λ x.
          some_end-Good (business_outcome_of ports inputs x)
            (business_outcome_of-Good a ports inputs x)))

  failure_end-Good :
      (step : Step) → Good a option_end (failure_end ports request inputs recover allowed step)
  unfolding failure_end detect_failure
  failure_end-Good step =
      seq_with a (detect_one-Good a ports inputs _ _ step.failure_refs) (λ o found.
        option-Good a o (return-Good a option_end none tt refl) (λ x.
          some_end-Good (application_failure ports step.id x)
            (failure_result-Good a ports true none x.code x.recoverable (some step.id))))

  surface_end-Good :
      (step : Step) (e : SurfaceError) (version : ℕ) (d : Diagnostic)
      → Good a step_end (surface_end ports request inputs recover allowed step e version d)
  unfolding surface_end
  surface_end-Good step e version d =
      finish-Good _ (surface_failure-Good ports request inputs step.id e version (some d) allowed)

  unmet-Good :
      (step : Step) (version : ℕ) (d : Diagnostic)
      → Good a step_end (unmet ports request inputs recover allowed step version d)
  unfolding unmet
  unmet-Good step version d = or_else-Good _ _ (business_end-Good step) (
      or_else-Good _ _ (recover-Good step version)
        (or_else-Good _ _ (failure_end-Good step) (surface_end-Good step _ version d)))

  postconditions-Good :
      (step : Step) (version : ℕ) (d : Diagnostic) (cs : List Condition)
      → Good a step_end (postconditions ports request inputs recover allowed step version d cs)
  unfolding postconditions
  postconditions-Good step version d [] = return-Good a step_end proceed tt refl
  postconditions-Good step version d (c ∷ cs) =
      if-Good a (contains_identity c) (postconditions-Good step version d cs) (
        seq a (waits-Good a ports inputs step.timeout_ms c) (λ met.
          if-Good a met
            (or_else-Good _ _ (business_end-Good step) (postconditions-Good step version d cs))
            (unmet-Good step version d)))

  verify-Good :
      (step : Step) (version : ℕ) (d : Diagnostic)
      → Good a step_end (verify ports request inputs recover allowed step version d)
  unfolding verify
  verify-Good step version d =
      seq a (identities_verified-Good ports request inputs step.timeout_ms step.postconditions)
        (λ verified.
          if-Good a (not verified)
            (finish-Good _
              (fail_step-Good ports request inputs "postcondition_mismatch" (some step.id)))
            (or_else-Good _ _ (business_end-Good step) (
              or_else-Good _ _ (failure_end-Good step) (
                or_else-Good _ _ (recover-Good step version)
                  (postconditions-Good step version d step.postconditions)))))

  pause_for-Good : (delay : ℕ) → Good a plain (pause_for ports request inputs recover allowed delay)
  unfolding pause_for
  pause_for-Good delay = record { at = λ s. (tt, unchanged a s _ refl refl) }

  give_up-Good :
      (step : Step) (version attempt : ℕ) (after : Bool) (e : SurfaceError)
      → Good a step_end (give_up ports request inputs recover allowed step version attempt after e)
  unfolding give_up
  give_up-Good step version attempt after e =
      or_else-Good _ _ (recover-Good step version) (surface_end-Good step e version _)

  -- The end of a step as what its preparation came to.
  ended-Good :
      (m : Run W StepEnd) → Good a step_end m → Good a prepared (m >>= λ r. return (ended r))
  ended-Good m good = record { at = λ s. by_end s (m s) (good.at s) }
    where
      by_end :
          (s : State W) (x : Outcome StepEnd × State W)
          → Ends (progress a) step_end s x
          → Ends (progress a) prepared s (follow x (λ r. return (ended r)))
      by_end s (returned e, t) h = h
      by_end s (failed e, t) h = h
      by_end s (raised e, t) h = h
      by_end s (exhausted, t) h = h

  -- A next attempt is within the policy of the step, and within its grade.
  NextGood : Step → ℕ → Option (Run W StepEnd) → Type 0
  NextGood step attempt none = Unit {0}
  NextGood step attempt (some next) = (attempt + 1 ≤ step.retry.max_attempts) × Good a step_end next

  module _ (step : Step) (listed : Memᴰ step (all_steps a)) where
    permitted :
        (attempt : ℕ) (e : SurfaceError)
        → attempt + 1 ≤ step.retry.max_attempts
        → may_retry step.retry e ≡ true
        → permits_retry step.id (attempt + 1) e.code step ≡ true
    permitted attempt e within may = ground (arith, eq_refl step.id, within, may)

    on_error-Good :
        (version attempt : ℕ) (again : Option (Run W StepEnd))
        → NextGood step attempt again
        → (after : Bool) (e : SurfaceError)
        → Good a step_end
            (on_error ports request inputs recover allowed step version attempt again after e)
    unfolding on_error NextGood
    on_error-Good version attempt none next after e = give_up-Good step version attempt after e
    on_error-Good version attempt (some m) (within, next) after e =
        if_known-Good a (may_retry step.retry e)
          (λ may.
            seq a
              (record-Good a (step_retry_scheduled step.id (attempt + 1) e.code)
                (λ log. any-member _ (all_steps a) listed (permitted attempt e within may)))
              (λ u. seq a (pause_for-Good _) (λ u. next)))
          (give_up-Good step version attempt after e)

    go_on-Ends :
        (version attempt : ℕ) (again : Option (Run W StepEnd)) (target : Option ResolvedTarget)
        → NextGood step attempt again
        → (s : State W) → is_authorized step.id s.log ≡ true
        → Ends
            (progress a)
            step_end
            s
            (go_on ports request inputs recover allowed step version attempt again (ready target) s)
    unfolding go_on
    go_on-Ends version attempt again target next s authorized =
        handle-Ends (progress a) step_end s _ _
          (follow-Ends (progress a) plain step_end s _ _
            (perform-Ends ports request inputs step.action step target s authorized)
            (λ u v.
              seq a (record-Good a (action_result step.id) (λ log. refl))
                (λ w. verify-Good step version _)))
          (on_error-Good version attempt again next (is_effect step.action))

    prepared-Good :
        (version attempt : ℕ) (again : Option (Run W StepEnd))
        → NextGood step attempt again
        → Good a prepared (
            try (prepare ports request inputs step version allowed) (λ e. do
              r ← on_error ports request inputs recover allowed step version attempt again false e
              return (ended r)))
    prepared-Good version attempt again next =
        try-Good a (prepare-Good ports request inputs step version allowed)
          (λ e. ended-Good _ (on_error-Good version attempt again next false e))

    prepared-IsAuthorized :
        (version attempt : ℕ) (again : Option (Run W StepEnd))
        → IsAuthorized step (
            try (prepare ports request inputs step version allowed) (λ e. do
              r ← on_error ports request inputs recover allowed step version attempt again false e
              return (ended r)))
    prepared-IsAuthorized version attempt again =
        try-IsAuthorized step (prepare-IsAuthorized ports request inputs step version allowed) (λ e.
          after step
            (on_error ports request inputs recover allowed step version attempt again false e)
            (λ r. at_end step r))

    attempt_once-Good :
        (version attempt : ℕ) (again : Option (Run W StepEnd))
        → NextGood step attempt again
        → Good a step_end
            (attempt_once ports request inputs recover allowed step version attempt again)
    unfolding attempt_once go_on
    attempt_once-Good version attempt again next = record {
      at = λ s.
          by_end s _ ((prepared-Good version attempt again next).at s)
            ((prepared-IsAuthorized version attempt again).at s);
    }
      where
        by_end :
            (s : State W) (x : Outcome Prepared × State W)
            → Ends (progress a) prepared s x
            → Authorized step x
            → Ends
                (progress a)
                step_end
                s
                (follow x (go_on ports request inputs recover allowed step version attempt again))
        by_end s (returned (ended e), t) h u = h
        by_end s (returned (ready target), t) (h, p) authorized =
            moved (progress a) step_end _ p
              (go_on-Ends version attempt again target next t authorized)
        by_end s (failed e, t) h u = h
        by_end s (raised e, t) h u = h
        by_end s (exhausted, t) h u = h

    attempts-Good :
        (version left attempt : ℕ)
        → left ≤ step.retry.max_attempts - attempt
        → Good a step_end (attempts ports request inputs recover allowed step version left attempt)
    unfolding attempts NextGood
    attempts-Good version zero attempt within = attempt_once-Good version attempt none tt
    attempts-Good version (suc left) attempt within =
        attempt_once-Good version attempt _
          (omega arith, attempts-Good version left (attempt + 1) (omega arith))

    pub execute_step_with-Good :
        (version attempt : ℕ)
        → Good a step_end
            (execute_step_with ports request inputs recover allowed step version attempt)
    execute_step_with-Good version attempt = attempts-Good version _ attempt (omega arith)
