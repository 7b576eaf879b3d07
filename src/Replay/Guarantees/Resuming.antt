-- ===== src/Replay/Guarantees/Resuming.antt =====
-- What a resumption guarantees.
use replay_forge.Base.{Option, String, arith, none, some, true, ℕ, ◌+◌, ◌-◌, ◌≡◌, ◌≢◌, ◌≤◌}
use replay_forge.Capabilities.Json.{end}
use replay_forge.Capabilities.Artifact.{BusinessOutcome}
use replay_forge.Replay.Machine.{Ports, State, exhausted}
use replay_forge.Replay.Machine.Grades.{Ends}
use replay_forge.Replay.Engine.{uses_of}
use replay_forge.Replay.Machine.Parts.{Good, lifted, seq}
use replay_forge.Replay.Journal.{is_sound, limit, progress, starts}
use replay_forge.Replay.Execution.{
  Driver, ReplayContinuation, attempt_at, check_continuation, continued, resume, resume_from,
  resume_index,
}
use replay_forge.Replay.Guarantees.{ends_lem, sound_lem, starts_lem}
use replay_forge.Replay.Progress.Detecting.{business_outcome_of-Good}
use replay_forge.Replay.Progress.Looping.{run_steps-Good, unsuccessful-Good, validated}
use replay_forge.Replay.Progress.Executing.{close_session-Good, supervise-Good}

module _ {W : Type 0} (ports : Ports W) (driver : Driver W) (c : ReplayContinuation) where
  resume_from-Good :
      (version : ℕ) (outcome : Option BusinessOutcome)
      → Good c.request.artifact
          (validated ports c.request end)
          (resume_from ports driver c version outcome)
  unfolding resume_from
  resume_from-Good version none =
      supervise-Good ports driver c.request c.inputs _
        (run_steps-Good ports c.request c.inputs (attempt_at c) (resume_index c) version)
  resume_from-Good version (some outcome) =
      seq c.request.artifact (close_session-Good ports driver c.request c.inputs) (λ u.
        unsuccessful-Good ports c.request end _
          (business_outcome_of-Good c.request.artifact ports c.inputs outcome))

  resume-Ends :
      (version : ℕ) (outcome : Option BusinessOutcome) (s : State W)
      → Ends
          (progress c.request.artifact)
          (validated ports c.request end)
          (continued ports driver c s)
          (resume ports driver c version outcome s)
  unfolding resume
  resume-Ends version outcome s =
      (seq c.request.artifact (lifted c.request.artifact (check_continuation c))
          (λ u. resume_from-Good version outcome)).at
        (continued ports driver c s)

  -- A resumption ends, from any continuation and whatever the session answers: it returns a result
  -- or raises.
  pub resume_ends :
      (version : ℕ) (outcome : Option BusinessOutcome) (s : State W)
      → (resume ports driver c version outcome s).0 ≢ exhausted
  resume_ends version outcome s h =
      ends_lem ports c.request (continued ports driver c s)
        (resume ports driver c version outcome s) (resume-Ends version outcome s) h

  -- However a resumption ends, every start of a recovery that it adds is counted on top of the uses
  -- of the continuation, and it adds at most as many as those uses leave of what the recovery that
  -- stands last under that identifier declares.
  pub resumed_recoveries_are_bounded :
      (version : ℕ) (outcome : Option BusinessOutcome) (s : State W) (id : String)
      → let t = (resume ports driver c version outcome s).1 in
        (starts id t.log + uses_of c.recovery_uses id
          ≡ starts id s.log + uses_of t.recovery_uses id)
        × (starts id t.log
            ≤ starts id s.log + (limit c.request.artifact id - uses_of c.recovery_uses id))
  resumed_recoveries_are_bounded version outcome s id =
      let (counted, limited) =
        starts_lem ports c.request (continued ports driver c s)
          (resume ports driver c version outcome s) (resume-Ends version outcome s) id in
      (counted, omega (arith, counted, limited))

  -- A resumption keeps the journal sound, however it ends: in front of every call of the session's
  -- `execute` or `extract` for a step, the newest entries are the intent of that step and, before
  -- it, the policy's permission of that step; every retry is one that a step of that identifier
  -- lists, within its attempts; and the number with which a start of a recovery is journalled is
  -- within the uses that a recovery of that identifier declares.
  pub resume_stays_sound :
      (version : ℕ) (outcome : Option BusinessOutcome) (s : State W)
      → is_sound c.request.artifact s.log ≡ true
      → is_sound c.request.artifact (resume ports driver c version outcome s).1.log ≡ true
  resume_stays_sound version outcome s =
      sound_lem ports c.request (continued ports driver c s)
        (resume ports driver c version outcome s) (resume-Ends version outcome s)
