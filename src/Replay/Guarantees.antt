-- ===== src/Replay/Guarantees.antt =====
-- What every execution of an artifact guarantees.
pub mod Closing
pub mod Resuming
use replay_forge.Replay.Progress.Reporting.{failure_result-Good}
use replay_forge.Replay.Machine.Grades.{Ends}
use replay_forge.Replay.Journal.{is_sound, limit, progress, starts}
use replay_forge.Base.{
  Result, String, arith, bool_eq, err, false, nat_eq, none, ok, on_contract_error_rule, option_eq,
  pair_eq, string_eq, true, ◌+◌, ◌-◌, ◌≡◌, ◌≢◌, ◌≤◌,
}
use replay_forge.Capabilities.Json.{Fields, end}
use replay_forge.Replay.Machine.{Outcome, Ports, State, exhausted, failed, raise, raised, returned}
use replay_forge.Dict.{lookup, lookup-insert_eq}
use replay_forge.Replay.Engine.{uses_of}
use replay_forge.Replay.Machine.Parts.{Good, raise-Good}
use replay_forge.Replay.Results.{ReplayRequest, RunResult, failure_result}
use replay_forge.Replay.Execution.{Driver, execute, execute_validated, fresh}
use replay_forge.Replay.Progress.Looping.{unsuccessful-Good, validated}
use replay_forge.Replay.Progress.Executing.{execute_valid-Good}

module _ {W : Type 0} (ports : Ports W) (request : ReplayRequest) where
  -- What a computation within its grade says of its end and of the journal.
  ends_lem :
      (s : State W) (x : Outcome RunResult × State W)
      → Ends (progress request.artifact) (validated ports request end) s x
      → x.0 ≢ exhausted
  ends_lem s (returned r, t) h e = absurd (cc)
  ends_lem s (failed f, t) h e = absurd (cc)
  ends_lem s (raised f, t) h e = absurd (cc)
  ends_lem s (exhausted, t) h e = h

  sound_lem :
      (s : State W) (x : Outcome RunResult × State W)
      → Ends (progress request.artifact) (validated ports request end) s x
      → is_sound request.artifact s.log ≡ true
      → is_sound request.artifact x.1.log ≡ true
  sound_lem s (returned r, t) (v, p) h = p.keeps_sound h
  sound_lem s (failed f, t) p h = p.keeps_sound h
  sound_lem s (raised f, t) p h = p.keeps_sound h
  sound_lem s (exhausted, t) p h = absurd p

  -- What it says of the starts of recoveries.
  starts_lem :
      (s : State W) (x : Outcome RunResult × State W)
      → Ends (progress request.artifact) (validated ports request end) s x
      → (id : String)
      → (starts id x.1.log + uses_of s.recovery_uses id
          ≡ starts id s.log + uses_of x.1.recovery_uses id)
        × (uses_of x.1.recovery_uses id
            ≤ uses_of s.recovery_uses id + (limit request.artifact id - uses_of s.recovery_uses id))
  starts_lem s (returned r, t) (v, p) id = (p.counts id, p.limits id)
  starts_lem s (failed f, t) p id = (p.counts id, p.limits id)
  starts_lem s (raised f, t) p id = (p.counts id, p.limits id)
  starts_lem s (exhausted, t) p id = absurd p

module _ {W : Type 0} (ports : Ports W) (driver : Driver W) (request : ReplayRequest) where
  execute_validated-Good :
      (x : Result Fields)
      → Good request.artifact
          (validated ports request end)
          (execute_validated ports driver request x)
  unfolding execute_validated
  execute_validated-Good (ok inputs) = execute_valid-Good ports driver request inputs
  execute_validated-Good (err error) =
      on_contract_error_rule (Good request.artifact (validated ports request end))
        (λ code. failure_result ports false none "invalid_input" false none) (raise error) error
        (λ code.
          unsuccessful-Good ports request end _
            (failure_result-Good request.artifact ports false none "invalid_input" false none))
        (raise-Good request.artifact (validated ports request end) error)

  execute-Ends :
      (s : State W)
      → Ends
          (progress request.artifact)
          (validated ports request end)
          (fresh ports driver request s)
          (execute ports driver request s)
  unfolding execute
  execute-Ends s = (execute_validated-Good _).at (fresh ports driver request s)

  -- Execution ends: whatever the session, the driver and the evidence store answer, the fuel of the
  -- loop does not run out, so it returns a result or raises.
  pub execute_ends : (s : State W) → (execute ports driver request s).0 ≢ exhausted
  execute_ends s h =
      ends_lem ports request (fresh ports driver request s) (execute ports driver request s)
        (execute-Ends s) h

  -- Execution keeps the journal sound, however it ends: in front of every call of the session's
  -- `execute` or `extract` for a step, the newest entries are the intent of that step and, before
  -- it, the policy's permission of that step; every retry is one that a step of that identifier
  -- lists, within its attempts; and the number with which a start of a recovery is journalled is
  -- within the uses that a recovery of that identifier declares.
  pub journal_stays_sound :
      (s : State W)
      → is_sound request.artifact s.log ≡ true
      → is_sound request.artifact (execute ports driver request s).1.log ≡ true
  journal_stays_sound s =
      sound_lem ports request (fresh ports driver request s) (execute ports driver request s)
        (execute-Ends s)

  -- However an execution ends, it has started each recovery as often as it has counted a use of it,
  -- and at most as often as the recovery that stands last under that identifier declares.
  pub recoveries_are_bounded :
      (s : State W) (id : String)
      → let t = (execute ports driver request s).1 in
        (starts id t.log ≡ starts id s.log + uses_of t.recovery_uses id)
        × (starts id t.log ≤ starts id s.log + limit request.artifact id)
  unfolding uses_of lookup
  recoveries_are_bounded s id =
      let (counted, limited) =
        starts_lem ports request (fresh ports driver request s) (execute ports driver request s)
          (execute-Ends s) id in
      (omega (arith, counted), omega (arith, counted, limited))
