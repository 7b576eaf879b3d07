-- ===== src/Runs/Execution/Bounds.antt =====
-- The buffers of an execution stay within the limits, and evicting frames never fails.
use replay_forge.Base.{
  Bool-cases, String, [], arith, inl, inr, length, length-append, ltb, nat_eq, not, ok, option_eq,
  pair_eq, refl, string_eq, suc, ℕ, ◌++◌, ◌+◌, ◌||◌, ◌∷◌, ◌≡◌, ◌≤◌,
}
use replay_forge.Dict.{Dict, insert}
use replay_forge.Runs.Execution.{
  Bytes, Execution, Frame, Limits, Mode, RunFeed, SurfaceFrame, ViewEvent, frame_limit, is_finished,
  is_png, keep_last, min, new_execution, publish_event, publish_frame, repeats_last, store_frame,
  stored_frame,
}
use replay_forge.Runs.Execution.Eviction.{
  IsNumbered, IsNumbered-append, evict-Fits, evict-newest, insert_last, total_bytes,
  total_bytes-append,
}
use replay_forge.Runs.Execution.Numbering.{AreNumbered, AreNumbered-append, keep_last-fits}

-- What an execution keeps is within the limits: the frames and their bytes, both counted exactly,
-- and the events. Frames and events are numbered without gaps up to the last number given out, and
-- every frame that is missing was evicted.
pub record IsBounded {E R : Type 0} (limits : Limits) (item : Execution E R) : Type 0 where
  pub few : length item.frames ≤ frame_limit limits item.mode
  pub small : item.byte_count ≤ limits.maximum_bytes
  pub counted : item.byte_count ≡ total_bytes item.frames
  pub numbered : IsNumbered item.evicted_frames item.frames
  pub newest : item.evicted_frames + length item.frames ≡ item.sequence
  pub few_events : length item.events ≤ limits.maximum_events
  pub gone : ℕ
  pub newest_event : gone + length item.events ≡ item.event_sequence
  pub events : AreNumbered gone item.events

module _ {E R : Type 0} (limits : Limits) where
  pub new_execution-IsBounded :
      (id : String) (mode : Mode) (token_hash : Bytes)
      → IsBounded limits (new_execution {E = E} {R = R} id mode token_hash)
  unfolding total_bytes IsNumbered AreNumbered
  new_execution-IsBounded id mode token_hash = record {
    few = omega arith;
    small = omega arith;
    counted = refl;
    numbered = tt;
    newest = refl;
    few_events = omega arith;
    gone = 0;
    newest_event = refl;
    events = tt;
  }

  -- Publishing a frame to an execution within its limits raises nothing, although the loop that
  -- evicts frames pops one after the other, and leaves the execution within its limits.
  pub store_frame-IsBounded :
      (feed : RunFeed) (frame : SurfaceFrame) (now : ℕ) (item : Execution E R)
      → IsBounded limits item
      → (after : Execution E R) × (store_frame limits feed frame now item ≡ ok after)
        × IsBounded limits after
  unfolding store_frame
  store_frame-IsBounded feed frame now item bounded =
      let new = stored_frame limits feed frame now item in
      let frames = item.frames ++ (suc item.sequence, new) ∷ [] in
      let inserted : insert item.frames (suc item.sequence) new ≡ frames =
        insert_last item.evicted_frames item.frames (suc item.sequence) new bounded.numbered
          (omega (arith, bounded.newest)) in
      let (k, done, fits, same) =
        evict-Fits (frame_limit limits item.mode) limits.maximum_bytes frames
          (item.byte_count + length frame.content) item.evicted_frames
          (omega (arith, bounded.counted, total_bytes-append item.frames (suc item.sequence) new))
          (IsNumbered-append item.evicted_frames item.frames (suc item.sequence) new
            bounded.numbered (omega (arith, bounded.newest)) refl) in
      (
        record item {
          sequence = suc item.sequence;
          frames = k.frames;
          byte_count = k.count;
          evicted_frames = k.evicted;
        },
        rw (inserted, done) refl,
        record {
          few = fits.few;
          small = fits.small;
          counted = fits.counted;
          numbered = fits.numbered;
          newest = omega (
            arith,
            same,
            bounded.newest,
            length-append item.frames ((suc item.sequence, new) ∷ []),
          );
          few_events = bounded.few_events;
          gone = bounded.gone;
          newest_event = bounded.newest_event;
          events = bounded.events;
        },
      )

  pub store_frame-newest :
      (feed : RunFeed) (frame : SurfaceFrame) (now : ℕ) (item : Execution E R)
      → IsBounded limits item
      → 1 ≤ frame_limit limits item.mode
      → length frame.content ≤ limits.maximum_bytes
      → (after : Execution E R) × (older : Dict ℕ Frame) × (store_frame limits feed frame now item
          ≡ ok after)
        × (after.frames
            ≡ older ++ (suc item.sequence, stored_frame limits feed frame now item) ∷ [])
  unfolding store_frame
  store_frame-newest feed frame now item bounded room small =
      let new = stored_frame limits feed frame now item in
      let inserted : insert item.frames (suc item.sequence) new
          ≡ item.frames ++ (suc item.sequence, new) ∷ [] =
        insert_last item.evicted_frames item.frames (suc item.sequence) new bounded.numbered
          (omega (arith, bounded.newest)) in
      let count : item.byte_count + length frame.content
          ≡ total_bytes (item.frames ++ (suc item.sequence, new) ∷ []) =
        omega (arith, bounded.counted, total_bytes-append item.frames (suc item.sequence) new) in
      let (k, done, fits, same) =
        evict-Fits (frame_limit limits item.mode) limits.maximum_bytes
          (item.frames ++ (suc item.sequence, new) ∷ []) (item.byte_count + length frame.content)
          item.evicted_frames count
          (IsNumbered-append item.evicted_frames item.frames (suc item.sequence) new
            bounded.numbered (omega (arith, bounded.newest)) refl) in
      let (older, last) =
        evict-newest (frame_limit limits item.mode) limits.maximum_bytes item.frames
          (suc item.sequence) new (item.byte_count + length frame.content) item.evicted_frames room
          small count done in
      (
        record item {
          sequence = suc item.sequence;
          frames = k.frames;
          byte_count = k.count;
          evicted_frames = k.evicted;
        },
        older,
        rw (inserted, done) refl,
        last,
      )

  pub publish_frame-IsBounded :
      (feed : RunFeed) (frame : SurfaceFrame) (now : ℕ) (item : Execution E R)
      → IsBounded limits item
      → (after : Execution E R) × (publish_frame limits feed frame now item ≡ ok after)
        × IsBounded limits after
  unfolding publish_frame
  publish_frame-IsBounded feed frame now item bounded =
      elim (Bool-cases (
        not (is_png frame.content)
        || ltb (min limits.maximum_frame_bytes limits.maximum_bytes) (length frame.content))) [
          | inl unfit ↦ (item, rw unfit refl, bounded)
          | inr fit ↦
              elim (Bool-cases (
                is_finished item.finished_at
                || repeats_last frame.content feed.run_id item.frames)) [
                  | inl old ↦ (item, rw (fit, old) refl, bounded)
                  | inr new ↦
                      let (after, done, kept) = store_frame-IsBounded feed frame now item bounded in
                      (after, rw (fit, new) done, kept)
                ]
        ]

  pub publish_event-IsBounded :
      (feed : RunFeed) (payload : E) (item : Execution E R)
      → 1 ≤ limits.maximum_events
      → IsBounded limits item
      → IsBounded limits (publish_event limits feed payload item)
  unfolding publish_event
  publish_event-IsBounded feed payload item positive bounded =
      elim (Bool-cases (is_finished item.finished_at)) [
        | inl over ↦ rw over bounded
        | inr live ↦ rw live (record {
          few = bounded.few;
          small = bounded.small;
          counted = bounded.counted;
          numbered = bounded.numbered;
          newest = bounded.newest;
          few_events = kept.3;
          gone = kept.0;
          newest_event =
              omega (arith, kept.1, bounded.newest_event, length-append item.events (event ∷ []));
          events = kept.2;
        })
      ]
    where
      event : ViewEvent E
      event = record {
        payload = payload;
        number = suc item.event_sequence;
        run_id = feed.run_id;
        phase = feed.phase;
      }

      kept :
          (g : ℕ) × (g + length (keep_last limits.maximum_events (item.events ++ event ∷ []))
            ≡ bounded.gone + length (item.events ++ event ∷ []))
          × AreNumbered g (keep_last limits.maximum_events (item.events ++ event ∷ []))
          × (length (keep_last limits.maximum_events (item.events ++ event ∷ []))
              ≤ limits.maximum_events)
      kept =
          keep_last-fits limits.maximum_events bounded.gone (item.events ++ event ∷ []) positive (
            AreNumbered-append bounded.gone item.events event bounded.events
              (omega (arith, bounded.newest_event)))
