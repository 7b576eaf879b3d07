-- ===== src/Runs/Execution/Life.antt =====
-- runs/viewing.py: an execution over any sequence of the viewer's calls.
pub mod Final
use replay_forge.Dict.{lookup-insert_eq}
use replay_forge.Base.{
  Bool, List, Option, Result, String, [], arith, false, if◌then◌else◌, nat_eq, none, ok, option_eq,
  pair_eq, refl, some, string_eq, true, ℕ, ◌==◌, ◌>>=◌, ◌∷◌, ◌≡◌, ◌≤◌,
}
use replay_forge.Runs.Execution.{
  Bytes, Execution, Limits, Mode, Outcome, RunFeed, State, SurfaceFrame, bind, business_outcome,
  by_status, check_limits, enter_phase, failure, finish, invalid_execution_result, is_finished,
  new_execution, paused, publish_event, publish_frame, resume, run_result, running, status_of,
  success, terminated,
}
use replay_forge.Runs.Execution.Bounds.{
  IsBounded, new_execution-IsBounded, publish_event-IsBounded, publish_frame-IsBounded,
}

-- A call of the viewer that reaches an execution, with the clock's readings.
pub data Operation (E R : Type 0) : Type 0 where
  framing : RunFeed → SurfaceFrame → ℕ → Operation E R
  recording : RunFeed → E → Operation E R
  finishing : Outcome R → ℕ → Operation E R
  reporting : RunFeed → Outcome R → ℕ → Operation E R
  binding : String → Operation E R
  entering : String → Operation E R
  resuming : Operation E R

module _ {E R : Type 0} (limits : Limits) where
  pub operate : Operation E R → Execution E R → Result (Execution E R)
  operate (framing feed frame now) item = publish_frame limits feed frame now item
  operate (recording feed payload) item = ok (publish_event limits feed payload item)
  operate (finishing outcome now) item = ok (finish limits outcome now item)
  operate (reporting feed outcome now) item = ok (run_result limits feed outcome now item)
  operate (binding run_id) item = ok (bind limits run_id item)
  operate (entering name) item = ok (enter_phase limits name item)
  operate resuming item = ok (resume limits item)

  -- The calls one after the other.
  pub operate_all : List (Operation E R) → Execution E R → Result (Execution E R)
  operate_all [] item = ok item
  operate_all (o ∷ operations) item = operate o item >>= operate_all operations

  relabelled :
      (item : Execution E R) (state : State) (phase : String) (run_ids : List String)
      (result : Option (Outcome R)) (finished_at : Option ℕ)
      → IsBounded limits item
      → IsBounded limits (record item {
        state = state;
        phase = phase;
        run_ids = run_ids;
        result = result;
        finished_at = finished_at;
      })
  relabelled item state phase run_ids result finished_at b = record {
    few = b.few;
    small = b.small;
    counted = b.counted;
    numbered = b.numbered;
    newest = b.newest;
    few_events = b.few_events;
    gone = b.gone;
    newest_event = b.newest_event;
    events = b.events;
  }

  either :
      (test : Bool) {x y : Execution E R}
      → IsBounded limits x
      → IsBounded limits y
      → IsBounded limits (if test then x else y)
  either true a b = a
  either false a b = b

  finish-IsBounded :
      (outcome : Outcome R) (now : ℕ) (item : Execution E R)
      → IsBounded limits item
      → IsBounded limits (finish limits outcome now item)
  unfolding finish by_status
  finish-IsBounded outcome now item b =
      let set = λ (s : State) (o : Outcome R) (t : Option ℕ).
        relabelled item s item.phase item.run_ids (some o) t b in
      let at = λ (s : String). status_of outcome == some s in
      either (is_finished item.finished_at) b (
        either (at "intervention_required") (set paused outcome item.finished_at) (
          either (at "success") (set success outcome (some now)) (
            either (at "failure") (set failure outcome (some now)) (
              either (at "business_outcome") (set business_outcome outcome (some now)) (
                either (at "terminated") (set terminated outcome (some now))
                  (set failure invalid_execution_result (some now)))))))

  operate-IsBounded :
      (o : Operation E R) (item : Execution E R)
      → 1 ≤ limits.maximum_events
      → IsBounded limits item
      → (after : Execution E R) × (operate o item ≡ ok after) × IsBounded limits after
  unfolding operate run_result bind enter_phase resume
  operate-IsBounded (framing feed frame now) item positive b =
      publish_frame-IsBounded limits feed frame now item b
  operate-IsBounded (recording feed payload) item positive b =
      (_, refl, publish_event-IsBounded limits feed payload item positive b)
  operate-IsBounded (finishing outcome now) item positive b =
      (_, refl, finish-IsBounded outcome now item b)
  operate-IsBounded (reporting feed outcome now) item positive b =
      (_, refl, either _ (finish-IsBounded outcome now item b) b)
  operate-IsBounded (binding run_id) item positive b =
      (_, refl, either _ b (relabelled item item.state item.phase _ item.result item.finished_at b))
  operate-IsBounded (entering name) item positive b = (
    _,
    refl,
    either _ b (relabelled item item.state name item.run_ids item.result item.finished_at b),
  )
  operate-IsBounded resuming item positive b = (
    _,
    refl,
    either _ b (relabelled item running item.phase item.run_ids none item.finished_at b),
  )

  operate_all-IsBounded :
      (operations : List (Operation E R)) (item : Execution E R)
      → 1 ≤ limits.maximum_events
      → IsBounded limits item
      → (after : Execution E R) × (operate_all operations item ≡ ok after) × IsBounded limits after
  unfolding operate_all
  operate_all-IsBounded [] item positive b = (item, refl, b)
  operate_all-IsBounded (o ∷ operations) item positive b =
      let (next, done, kept) = operate-IsBounded o item positive b in
      let (after, rest, bounded) = operate_all-IsBounded operations next positive kept in
      (after, rw done rest, bounded)

  -- With limits that their constructor admits, every sequence of calls of the viewer on a new
  -- execution returns, and leaves it within its limits: frames, their bytes and events are bounded,
  -- the byte count is exact, and frames and events are numbered without gaps.
  pub always-IsBounded :
      (id : String) (mode : Mode) (token_hash : Bytes) (operations : List (Operation E R))
      → check_limits limits ≡ ok tt
      → (after : Execution E R) × (operate_all operations (new_execution id mode token_hash)
          ≡ ok after)
        × IsBounded limits after
  unfolding check_limits
  always-IsBounded id mode token_hash operations admitted =
      operate_all-IsBounded operations (new_execution id mode token_hash) (ground (arith, admitted))
        (new_execution-IsBounded limits id mode token_hash)
