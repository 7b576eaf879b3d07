-- ===== src/Replay/Progress/Preparing.antt =====
-- A step up to its attempt, and the action.
use replay_forge.Base.{
  Bool, List, Option, Result, String, [], err, false, none, not, ok, on_contract_error_rule, refl,
  some, true, ℕ, ◌&&◌, ◌∷◌, ◌≡◌,
}
use replay_forge.Capabilities.Json.{Fields}
use replay_forge.Capabilities.Conditions.{Condition, contains_identity}
use replay_forge.Capabilities.Artifact.{
  CapabilityArtifact, ReplayAction, Step, assert_, checkpoint_of, click, extract, navigate,
  press_keys, scroll, select, switch_context, type_, wait_for,
}
use replay_forge.Policy.Types.{Decision, allow, deny, require_human_approval}
use replay_forge.Surfaces.Observation.{Observation}
use replay_forge.Replay.Machine.{
  Event, Ports, Receipt, ResolvedTarget, Run, State, action_intent, call, completed, dispatched,
  extracted, fail, failed_with, policy_evaluated, raise, record_event, ◌>>=◌, ◌>>◌,
}
use replay_forge.Replay.Machine.Grades.{Ends, follow-Ends, moved, plain}
use replay_forge.Replay.Machine.Parts.{
  Good, call-Good, done, entry, fail-Good, if-Good, option-Good, raise-Good, reading-Good,
  record-Good, return-Good, seq, seq_with, set_output-Good, try-Good, with_leases-Good,
}
use replay_forge.Replay.Journal.{is_authorized, is_permitted, is_start, progress}
use replay_forge.Replay.Results.{ReplayRequest, RunResult}
use replay_forge.Replay.Detection.{surface_error}
use replay_forge.Replay.Steps.{
  act_on, completed_or_fail, dispatch, end_with, ended, extract_text, finished, identities_verified,
  on_decision, or_surface_error, perform_action, prepare, ready, resolve_target, satisfied_or_fail,
}
use replay_forge.Replay.Progress.Reporting.{intervene-Good, step_policy-Good, unsuccessful}
use replay_forge.Replay.Progress.Detecting.{all_hold-Good, holds-Good, waits-Good}
use replay_forge.Replay.Progress.Stepping.{fail_step-Good, prepared}

module _ {W : Type 0} (ports : Ports W) (request : ReplayRequest) (inputs : Fields) where
  abbrev a : CapabilityArtifact
  a = request.artifact

  or_surface_error-Good : {A : Type 0} (r : Result A) → Good {W = W} a plain (or_surface_error r)
  unfolding or_surface_error
  or_surface_error-Good (ok x) = done a x
  or_surface_error-Good (err e) =
      on_contract_error_rule (Good a plain) (λ code. fail (surface_error code true)) (raise e) e
        (λ code. fail-Good a plain (surface_error code true)) (raise-Good a plain e)

  resolve_target-Good : (step : Step) → Good a plain (resolve_target ports request inputs step)
  unfolding resolve_target
  resolve_target-Good step = option-Good a step.target (done a none) (λ target.
      seq a (or_surface_error-Good _)
        (λ bound. seq a (call-Good a _) (λ resolved. done a (some resolved))))

  end_with-Good :
      (m : Run W RunResult)
      → Good a unsuccessful m
      → Good a prepared (end_with ports request inputs m)
  end_with-Good m good =
      seq_with a good (λ r bad. return-Good a prepared (ended (finished r)) bad refl)

  act_on-Good :
      (d : Decision) (reason : String) (step : Step) (o : Observation) (version : ℕ)
      (allowed : Bool) (target : Option ResolvedTarget)
      → Good a prepared (act_on ports request inputs d reason step o version allowed target)
  unfolding act_on on_decision
  act_on-Good deny reason step o version allowed target =
      seq a (record-Good a (policy_evaluated step.id deny reason) (λ log. refl))
        (λ u. end_with-Good _ (fail_step-Good ports request inputs "policy_blocked" (some step.id)))
  act_on-Good require_human_approval reason step o version allowed target =
      seq a (record-Good a (policy_evaluated step.id require_human_approval reason) (λ log. refl))
        (λ u.
          if-Good a (not allowed)
            (end_with-Good _
              (fail_step-Good ports request inputs "recovery_requires_human" (some step.id)))
            (end_with-Good _ (
              intervene-Good a ports request step.id reason o version
                (some "A scoped, single-use human approval is required.") (false, 1) false)))
  act_on-Good allow reason step o version allowed target =
      seq a (record-Good a (policy_evaluated step.id allow reason) (λ log. refl)) (λ u.
        seq a (record-Good a (action_intent step.id) (λ log. refl))
          (λ u. return-Good a prepared (ready target) tt refl))

  pub prepare-Good :
      (step : Step) (version : ℕ) (allowed : Bool)
      → Good a prepared (prepare ports request inputs step version allowed)
  unfolding prepare
  prepare-Good step version allowed = seq a (reading-Good a) (λ now.
      seq a (with_leases-Good a _) (λ lease.
        seq a (all_hold-Good a ports inputs step.preconditions) (λ satisfied.
          if-Good a (not satisfied)
            (end_with-Good _
              (fail_step-Good ports request inputs "step_precondition_mismatch" (some step.id)))
            (seq a (call-Good a ports.observe) (λ o. seq a (resolve_target-Good step) (λ target.
              seq a (step_policy-Good a ports request step o target)
                (λ d. act_on-Good d.decision d.reason_code step o version allowed target)))))))

  satisfied_or_fail-Good : (b : Bool) → Good a plain (satisfied_or_fail ports request inputs b)
  satisfied_or_fail-Good true = done a tt
  satisfied_or_fail-Good false = fail-Good a plain (surface_error "action_condition_mismatch" false)

  completed_or_fail-Good : (r : Receipt) → Good a plain (completed_or_fail ports request inputs r)
  completed_or_fail-Good completed = done a tt
  completed_or_fail-Good (failed_with none) =
      fail-Good a plain (surface_error "action_failed" false)
  completed_or_fail-Good (failed_with (some code)) = fail-Good a plain _

  -- The entry of a call that its step is authorized for, and what follows it.
  entered :
      {A : Type 0} (e : Event) (m : Run W A) (s : State W)
      → not (is_start e) && is_permitted a e s.log ≡ true
      → Good a plain m
      → Ends (progress a) plain s ((record_event e >> m) s)
  unfolding record_event
  entered e m s permitted good =
      moved (progress a) plain (m (record s { log = e ∷ s.log })) (entry a e s permitted)
        (good.at (record s { log = e ∷ s.log }))

  dispatch-Ends :
      (action : ReplayAction) (step : Step) (target : Option ResolvedTarget) (s : State W)
      → is_authorized step.id s.log ≡ true
      → Ends (progress a) plain s (
          (dispatch ports request inputs action step target
              >>= completed_or_fail ports request inputs)
            s)
  unfolding dispatch
  dispatch-Ends action step target s authorized =
      follow-Ends (progress a) plain plain s (dispatch ports request inputs action step target s)
        (completed_or_fail ports request inputs)
        (entered (dispatched step.id) (call (ports.execute action target inputs)) s authorized
          (call-Good a _))
        (λ r u. completed_or_fail-Good r)

  -- An action of a step that is authorized.
  pub perform-Ends :
      (action : ReplayAction) (step : Step) (target : Option ResolvedTarget) (s : State W)
      → is_authorized step.id s.log ≡ true
      → Ends (progress a) plain s (perform_action ports request inputs action step target s)
  unfolding perform_action extract_text
  perform-Ends (wait_for c) step target s h =
      (seq a (waits-Good a ports inputs step.timeout_ms c) satisfied_or_fail-Good).at s
  perform-Ends (assert_ c) step target s h =
      (seq a (holds-Good a ports inputs c) satisfied_or_fail-Good).at s
  perform-Ends (checkpoint_of i) step target s h =
      (seq a (holds-Good a ports inputs request.artifact.checkpoint.condition)
          satisfied_or_fail-Good).at
        s
  perform-Ends (extract output transform) step none s h =
      (fail-Good a {A = Unit {0}} plain (surface_error "target_absent" false)).at s
  perform-Ends (extract output transform) step (some t) s h =
      follow-Ends (progress a) plain plain s (extract_text ports request inputs step t s) _
        (entered (extracted step.id) (call (ports.extract t)) s h (call-Good a _))
        (λ value u. set_output-Good a output _)
  perform-Ends (navigate e) step target s h = dispatch-Ends (navigate e) step target s h
  perform-Ends click step target s h = dispatch-Ends click step target s h
  perform-Ends (type_ v c) step target s h = dispatch-Ends (type_ v c) step target s h
  perform-Ends (press_keys k) step target s h = dispatch-Ends (press_keys k) step target s h
  perform-Ends (select v) step target s h = dispatch-Ends (select v) step target s h
  perform-Ends (scroll d n) step target s h = dispatch-Ends (scroll d n) step target s h
  perform-Ends (switch_context c) step target s h = dispatch-Ends (switch_context c) step target s h

  pub identities_verified-Good :
      (timeout : ℕ) (cs : List Condition)
      → Good a plain (identities_verified ports request inputs timeout cs)
  unfolding identities_verified
  identities_verified-Good timeout [] = done a true
  identities_verified-Good timeout (c ∷ cs) =
      if-Good a (not (contains_identity c)) (identities_verified-Good timeout cs) (
        seq a (try-Good a (waits-Good a ports inputs timeout c) (λ e. done a false))
          (λ verified. if-Good a verified (identities_verified-Good timeout cs) (done a false)))
