-- ===== src/Runs/Polling.antt =====
-- runs/viewing.py: what a client with a token reads of an execution. `hash` is SHA-256 of a token's
-- bytes; the constant-time comparison of digests is equality.
pub mod Cursor
use replay_forge.Base.{
  List, Option, Result, String, [], err, execution_unavailable, frame_expired, if◌then◌else◌, ltb,
  map, nat_eq, none, ok, option_eq, pair_eq, some, string_eq, true, ℕ, ◌∷◌,
}
use replay_forge.Dict.{lookup, lookup-insert_eq}
use replay_forge.Action.{Action, lift, ◌>>=◌, ◌>>◌}
use replay_forge.Runs.Execution.{
  Bytes, Execution, Frame, Limits, Mode, Outcome, State, ViewEvent, bytes_beq,
}
use replay_forge.Runs.Viewer.{Viewer, unexpired}

pub record Snapshot (E R : Type 0) : Type 0 where
  pub execution_id : String
  pub mode : Mode
  pub state : State
  pub phase : String
  pub run_ids : List String
  pub frames : List Frame
  pub evicted_frames : ℕ
  pub events : List (ViewEvent E)
  pub event_cursor : ℕ
  pub first_event_sequence : Option ℕ
  pub result : Option (Outcome R)
  pub retention_seconds : ℕ

found_frame : Option Frame → Result Bytes
found_frame none = err frame_expired
found_frame (some frame) = ok frame.content

module _ {E : Type 0} where
  -- `[event for event in item.events if event["sequence"] > after]`
  unfoldable pub newer : ℕ → List (ViewEvent E) → List (ViewEvent E)
  newer after [] = []
  newer after (e ∷ events) =
      let rest = newer after events in if ltb after e.number then e ∷ rest else rest

  abbrev first_number : List (ViewEvent E) → Option ℕ
  first_number [] = none
  first_number (e ∷ events) = some e.number

module _ {E R : Type 0} where
  -- What `snapshot` returns of an execution.
  unfoldable pub snapshot_of : Limits → ℕ → Execution E R → Snapshot E R
  snapshot_of limits after item = record {
    execution_id = item.id;
    mode = item.mode;
    state = item.state;
    phase = item.phase;
    run_ids = item.run_ids;
    frames = map (λ (entry : ℕ × Frame). entry.1) item.frames;
    evicted_frames = item.evicted_frames;
    events = newer after item.events;
    event_cursor = item.event_sequence;
    first_event_sequence = first_number item.events;
    result = item.result;
    retention_seconds = limits.retention_seconds;
  }

  authorized : Bytes → Option (Execution E R) → Result (Execution E R)
  authorized digest none = err execution_unavailable
  authorized digest (some item) =
      if bytes_beq item.token_hash digest then ok item else err execution_unavailable

  -- `_authorize`, which sweeps the table first.
  authorize :
      (String → Bytes)
      → Limits
      → String
      → String
      → (String → ℕ)
      → Action (Viewer E R) (Execution E R)
  unfolding authorized
  authorize hash limits id token now viewer =
      let items = unexpired limits.retention_seconds now viewer.items in
      (authorized (hash token) (lookup items id), record viewer { items = items })

  -- `snapshot`
  pub snapshot :
      (String → Bytes)
      → Limits
      → String
      → String
      → ℕ
      → (String → ℕ)
      → Action (Viewer E R) (Snapshot E R)
  snapshot hash limits id token after now = do
    item ← authorize hash limits id token now
    lift (ok (snapshot_of limits after item))

  -- `frame`
  pub read_frame :
      (String → Bytes) → Limits → String → String → ℕ → (String → ℕ) → Action (Viewer E R) Bytes
  unfolding found_frame
  read_frame hash limits id token sequence now = do
    item ← authorize hash limits id token now
    lift (found_frame (lookup item.frames sequence))

  -- `close`, as far as the table goes.
  pub close : Viewer E R → Viewer E R
  close viewer = record { items = []; closed = true }
