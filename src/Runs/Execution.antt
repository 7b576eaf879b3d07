-- ===== src/Runs/Execution.antt =====
-- runs/viewing.py: the buffers of one execution. Bytes are lists of their values; what an event and
-- a result hold besides the keys that the viewer reads are parameters. `monotonic()` is a number.
pub mod Eviction
pub mod Numbering
pub mod Bounds
pub mod Life
use replay_forge.Base.{
  Bool, List, Option, Result, String, [], any, err, false, if◌then◌else◌, key_error, length, ltb,
  nat_eq, nat_eqb, none, not, ok, option_eq, pair_eq, raise_if, some, string_eq, suc, true,
  value_error, zero, ℕ, ◌&&◌, ◌++◌, ◌+◌, ◌-◌, ◌==◌, ◌>>=◌, ◌>>◌, ◌||◌, ◌∷◌,
}
use replay_forge.Dict.{Dict, insert, lookup-insert_eq}

abbrev pub Bytes : Type 0
Bytes = List ℕ

pub data Mode : Type 0 where
  replay discovery : Mode

pub data State : Type 0 where
  running paused success failure business_outcome terminated : State

-- `ViewingLimits`
pub record Limits : Type 0 where
  pub maximum_active : ℕ
  pub maximum_executions : ℕ
  pub maximum_frames : ℕ
  pub maximum_bytes : ℕ
  pub maximum_frame_bytes : ℕ
  pub maximum_events : ℕ
  pub retention_seconds : ℕ

-- `ViewingLimits.__post_init__`
unfoldable pub check_limits : Limits → Result (Unit {0})
check_limits l = do
  raise_if
      (ltb l.maximum_active 1
        || ltb l.maximum_executions 1
        || ltb l.maximum_frames 1
        || ltb l.maximum_bytes 1
        || ltb l.maximum_frame_bytes 1
        || ltb l.maximum_events 1
        || ltb l.retention_seconds 1)
      value_error
  raise_if (ltb l.maximum_executions l.maximum_active) value_error

-- An entry of `frames`: the metadata and the content.
pub record Frame : Type 0 where
  pub number : ℕ
  pub run_id : String
  pub phase : String
  pub captured_at : ℕ
  pub width : ℕ
  pub height : ℕ
  pub event_number : ℕ
  pub content : Bytes

-- `SurfaceFrame`, as far as the viewer reads it.
pub record SurfaceFrame : Type 0 where
  pub content : Bytes
  pub width : ℕ
  pub height : ℕ

pub record ViewEvent (E : Type 0) : Type 0 where
  pub payload : E
  pub number : ℕ
  pub run_id : String
  pub phase : String

-- A result: reported by the run with its status, or one that the viewer puts in its place.
pub data Outcome (R : Type 0) : Type 0 where
  reported : Option String → R → Outcome R
  execution_failed invalid_execution_result : Outcome R

pub record Execution (E R : Type 0) : Type 0 where
  pub id : String
  pub mode : Mode
  pub token_hash : Bytes
  pub state : State
  pub phase : String
  pub frames : Dict ℕ Frame
  pub events : List (ViewEvent E)
  pub run_ids : List String
  pub sequence : ℕ
  pub event_sequence : ℕ
  pub evicted_frames : ℕ
  pub byte_count : ℕ
  pub result : Option (Outcome R)
  pub finished_at : Option ℕ

-- `RunFeed`, without its manager.
pub record RunFeed : Type 0 where
  pub execution_id : String
  pub run_id : String
  pub phase : String

-- `_Execution(execution_id, mode, token_hash)`
abbrev pub new_execution : {E R : Type 0} → String → Mode → Bytes → Execution E R
new_execution id mode token_hash = record {
  id = id;
  mode = mode;
  token_hash = token_hash;
  state = running;
  phase = "starting";
  frames = [];
  events = [];
  run_ids = [];
  sequence = 0;
  event_sequence = 0;
  evicted_frames = 0;
  byte_count = 0;
  result = none;
  finished_at = none;
}

pub bytes_beq : Bytes → Bytes → Bool
bytes_beq [] [] = true
bytes_beq [] (c ∷ b) = false
bytes_beq (c ∷ a) [] = false
bytes_beq (c ∷ a) (d ∷ b) = nat_eqb c d && bytes_beq a b

-- `data.startswith(prefix)`
starts_bytes : Bytes → Bytes → Bool
starts_bytes content [] = true
starts_bytes [] (p ∷ prefix) = false
starts_bytes (c ∷ content) (p ∷ prefix) = nat_eqb c p && starts_bytes content prefix

-- `data.startswith(b"\x89PNG\r\n\x1a\n")`
unfoldable pub is_png : Bytes → Bool
unfolding starts_bytes
is_png content = starts_bytes content (137 ∷ 80 ∷ 78 ∷ 71 ∷ 13 ∷ 10 ∷ 26 ∷ 10 ∷ [])

abbrev pub min : ℕ → ℕ → ℕ
min a b = if ltb b a then b else a

abbrev pub is_finished : Option ℕ → Bool
is_finished none = false
is_finished (some t) = true

-- `last_data == data and last_metadata["run_id"] == feed.run_id`, of the last frame if there is one.
unfoldable pub repeats_last : Bytes → String → Dict ℕ Frame → Bool
unfolding bytes_beq
repeats_last content run_id [] = false
repeats_last content run_id ((k, last) ∷ []) =
    bytes_beq last.content content && last.run_id == run_id
repeats_last content run_id (entry ∷ next ∷ frames) = repeats_last content run_id (next ∷ frames)

-- What the eviction leaves.
pub record Kept : Type 0 where
  pub frames : Dict ℕ Frame
  pub count : ℕ
  pub evicted : ℕ

-- The loop that drops frames: what is left, its byte count, and the number of evicted frames.
-- `popitem` of no frame raises KeyError.
pub evict : ℕ → ℕ → Dict ℕ Frame → ℕ → ℕ → Result Kept
evict maximum bytes [] count evicted =
    if ltb bytes count
    then err key_error
    else ok (record { frames = []; count = count; evicted = evicted })
evict maximum bytes ((k, frame) ∷ frames) count evicted =
    let rest = evict maximum bytes frames (count - length frame.content) (suc evicted) in
    if ltb maximum (suc (length frames)) || ltb bytes count
    then rest
    else ok (record { frames = (k, frame) ∷ frames; count = count; evicted = evicted })

abbrev pub frame_limit : Limits → Mode → ℕ
frame_limit limits replay = limits.maximum_frames
frame_limit limits discovery = 1

unfoldable pub drop : {A : Type 0} → ℕ → List A → List A
drop zero xs = xs
drop (suc n) [] = []
drop (suc n) (x ∷ xs) = drop n xs

-- `del events[: -maximum]`
pub keep_last : {A : Type 0} → ℕ → List A → List A
keep_last maximum xs = if nat_eqb maximum 0 then xs else drop (length xs - maximum) xs

status_of : {R : Type 0} → Outcome R → Option String
status_of (reported status rest) = status
status_of execution_failed = some "failure"
status_of invalid_execution_result = some "failure"

module _ {E R : Type 0} (limits : Limits) where
  -- The frame that is stored for a published one.
  abbrev pub stored_frame : RunFeed → SurfaceFrame → ℕ → Execution E R → Frame
  stored_frame feed frame captured item = record {
    number = suc item.sequence;
    run_id = feed.run_id;
    phase = feed.phase;
    captured_at = captured;
    width = frame.width;
    height = frame.height;
    event_number = item.event_sequence;
    content = frame.content;
  }

  -- Without the tests: the frame is stored, and the oldest ones make room.
  pub store_frame : RunFeed → SurfaceFrame → ℕ → Execution E R → Result (Execution E R)
  store_frame feed frame captured item = do
    kept ←
        evict (frame_limit limits item.mode) limits.maximum_bytes
          (insert item.frames (suc item.sequence) (stored_frame feed frame captured item))
          (item.byte_count + length frame.content) item.evicted_frames
    ok (record item {
      sequence = suc item.sequence;
      frames = kept.frames;
      byte_count = kept.count;
      evicted_frames = kept.evicted;
    })

  -- `publish_frame`, of an execution that is there.
  pub publish_frame : RunFeed → SurfaceFrame → ℕ → Execution E R → Result (Execution E R)
  publish_frame feed frame captured item =
      if not (is_png frame.content)
        || ltb (min limits.maximum_frame_bytes limits.maximum_bytes) (length frame.content)
      then ok item
      else if is_finished item.finished_at || repeats_last frame.content feed.run_id item.frames
      then ok item
      else store_frame feed frame captured item

  -- `publish_event`
  pub publish_event : RunFeed → E → Execution E R → Execution E R
  publish_event feed payload item = if is_finished item.finished_at then item else record item {
    event_sequence = suc item.event_sequence;
    events = keep_last limits.maximum_events (
        item.events
        ++ record {
          payload = payload;
          number = suc item.event_sequence;
          run_id = feed.run_id;
          phase = feed.phase;
        }
          ∷ []);
  }

  -- `phase`
  pub enter_phase : String → Execution E R → Execution E R
  enter_phase name item =
      if is_finished item.finished_at then item else record item { phase = name }

  abbrev finished : State → Outcome R → ℕ → Execution E R → Execution E R
  finished state outcome now item = record item {
    state = state;
    finished_at = some now;
    result = some outcome;
  }

  -- The branches of `finish` on the status.
  by_status : Option String → Outcome R → ℕ → Execution E R → Execution E R
  by_status status outcome now item =
      if status == some "intervention_required"
      then record item { state = paused; result = some outcome }
      else if status == some "success"
      then finished success outcome now item
      else if status == some "failure"
      then finished failure outcome now item
      else if status == some "business_outcome"
      then finished business_outcome outcome now item
      else if status == some "terminated"
      then finished terminated outcome now item
      else finished failure invalid_execution_result now item

  -- `finish`; `now` is the reading of the monotonic clock.
  pub finish : Outcome R → ℕ → Execution E R → Execution E R
  unfolding by_status status_of
  finish outcome now item =
      if is_finished item.finished_at then item else by_status (status_of outcome) outcome now item

  -- `run_result`
  pub run_result : RunFeed → Outcome R → ℕ → Execution E R → Execution E R
  unfolding status_of
  run_result feed outcome now item =
      if feed.phase == "replay"
        || status_of outcome == some "intervention_required"
        || status_of outcome == some "terminated"
      then finish outcome now item
      else item

  -- `resume`
  pub resume : Execution E R → Execution E R
  resume item =
      if is_finished item.finished_at then item else record item { state = running; result = none }

  -- `bind`, without the feed that it returns.
  pub bind : String → Execution E R → Execution E R
  bind run_id item =
      if any (λ r. r == run_id) item.run_ids
      then item
      else record item { run_ids = item.run_ids ++ run_id ∷ [] }
