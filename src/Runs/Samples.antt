-- ===== src/Runs/Samples.antt =====
-- An execution's buffers on concrete frames.
use replay_forge.Base.{
  List, String, [], arith, err, execution_capacity_reached, false, if◌then◌else◌, inl, length,
  nat_eq, ok, option_eq, pair_eq, refl, some, string_eq, true, viewer_unavailable, ℕ, ◌++◌, ◌+◌,
  ◌<◌, ◌∷◌, ◌≡◌, ◌≤◌, ◌⊎◌,
}
use replay_forge.Dict.{Dict, lookup}
use replay_forge.Runs.Execution.{
  Bytes, Execution, Frame, Limits, RunFeed, SurfaceFrame, ViewEvent, check_limits, is_png,
  new_execution, publish_frame, repeats_last, replay, reported, stored_frame, success,
}
use replay_forge.Runs.Execution.Bounds.{IsBounded, new_execution-IsBounded}
use replay_forge.Runs.Execution.Life.{
  Operation, always-IsBounded, finishing, framing, operate_all, recording,
}
use replay_forge.Runs.Execution.Life.Final.{finished_is_final, newest_is_kept}
use replay_forge.Runs.Viewer.{Viewer, active, start}
use replay_forge.Runs.Viewer.Capacity.{AreDated, IsWithin, start_refuses, start_succeeds}
use replay_forge.Runs.Execution.Numbering.{AreNumbered}
use replay_forge.Runs.Execution.Eviction.{IsNumbered, total_bytes}
use replay_forge.Runs.Polling.{snapshot_of}
use replay_forge.Runs.Polling.Cursor.{snapshot_misses_nothing}

abbrev sample_limits : Limits
sample_limits = record {
  maximum_active = 1;
  maximum_executions = 2;
  maximum_frames = 1;
  maximum_bytes = 20;
  maximum_frame_bytes = 10;
  maximum_events = 2;
  retention_seconds = 300;
}

abbrev png : Bytes
png = 137 ∷ 80 ∷ 78 ∷ 71 ∷ 13 ∷ 10 ∷ 26 ∷ 10 ∷ 1 ∷ []

abbrev sample_feed : RunFeed
sample_feed = record { execution_id = "exe"; run_id = "run"; phase = "replay" }

abbrev sample_frame : SurfaceFrame
sample_frame = record { content = png; width = 2; height = 1 }

abbrev sample_operations : List (Operation String String)
sample_operations =
    framing sample_feed sample_frame 5
    ∷ recording sample_feed "clicked"
    ∷ finishing (reported (some "success") "done") 9
    ∷ []

sample_limits_admitted : check_limits sample_limits ≡ ok tt
unfolding check_limits
sample_limits_admitted = refl

abbrev fresh_execution : Execution String String
fresh_execution = new_execution "exe" replay []

always-IsBounded_example :
    (after : Execution String String) × (operate_all sample_limits sample_operations fresh_execution
      ≡ ok after)
    × IsBounded sample_limits after
always-IsBounded_example =
    always-IsBounded sample_limits "exe" replay [] sample_operations sample_limits_admitted

abbrev done_execution : Execution String String
done_execution = record fresh_execution { state = success; finished_at = some 9 }

finished_is_final_example :
    (ids : List String) × (operate_all sample_limits sample_operations done_execution
      ≡ ok (record done_execution { run_ids = ids }))
finished_is_final_example = finished_is_final sample_limits sample_operations done_execution refl

png_accepted : is_png png ≡ true
unfolding is_png
png_accepted = refl

nothing_repeats : repeats_last png "run" fresh_execution.frames ≡ false
unfolding repeats_last
nothing_repeats = refl

newest_is_kept_example :
    (after : Execution String String) × (older : Dict ℕ Frame) × (publish_frame sample_limits
        sample_feed sample_frame 5 fresh_execution
      ≡ ok after)
    × (after.frames
        ≡ older ++ (1, stored_frame sample_limits sample_feed sample_frame 5 fresh_execution) ∷ [])
newest_is_kept_example =
    newest_is_kept sample_limits sample_feed sample_frame 5 fresh_execution
      (new_execution-IsBounded sample_limits "exe" replay []) (omega arith) png_accepted
      (omega arith) refl nothing_repeats

abbrev old_execution : Execution String String
old_execution = record done_execution { id = "old" }

abbrev sample_viewer : Viewer String String
sample_viewer = record {
  items = ("old", old_execution) ∷ ("older", done_execution) ∷ [];
  closed = false;
}

sample_viewer-IsWithin : IsWithin sample_limits sample_viewer
unfolding active AreDated
sample_viewer-IsWithin = record {
  few = omega arith;
  few_active = omega arith;
  dated = (refl, (refl, tt));
}

nothing_runs : active sample_viewer.items < sample_limits.maximum_active
unfolding active
nothing_runs = omega arith

start_succeeds_example :
    (after : Viewer String String) × (start sample_limits "new" replay [] (λ k. 20) sample_viewer
      ≡ (ok "new", after))
    × (lookup after.items "new" ≡ some (new_execution "new" replay []))
    × IsWithin sample_limits after
start_succeeds_example =
    start_succeeds sample_limits "new" replay [] (λ k. 20) sample_viewer sample_limits_admitted
      sample_viewer-IsWithin refl nothing_runs

abbrev closed_viewer : Viewer String String
closed_viewer = record sample_viewer { closed = true }

closed_viewer-IsWithin : IsWithin sample_limits closed_viewer
closed_viewer-IsWithin = record {
  few = sample_viewer-IsWithin.few;
  few_active = sample_viewer-IsWithin.few_active;
  dated = sample_viewer-IsWithin.dated;
}

start_refuses_example :
    ((start sample_limits "new" replay [] (λ k. 20) closed_viewer).0
      ≡ err (if closed_viewer.closed then viewer_unavailable else execution_capacity_reached))
    × IsWithin sample_limits (start sample_limits "new" replay [] (λ k. 20) closed_viewer).1
start_refuses_example =
    start_refuses sample_limits "new" replay [] (λ k. 20) closed_viewer closed_viewer-IsWithin
      (inl refl)

abbrev event_at : ℕ → ViewEvent String
event_at n = record { payload = "clicked"; number = n; run_id = "run"; phase = "replay" }

-- The first of three events was dropped.
abbrev busy_execution : Execution String String
busy_execution = record fresh_execution {
  events = event_at 2 ∷ event_at 3 ∷ [];
  event_sequence = 3;
}

busy_execution-IsBounded : IsBounded sample_limits busy_execution
unfolding total_bytes IsNumbered AreNumbered
busy_execution-IsBounded = record {
  few = omega arith;
  small = omega arith;
  counted = refl;
  numbered = tt;
  newest = refl;
  few_events = omega arith;
  gone = 1;
  newest_event = refl;
  events = (refl, (refl, tt));
}

snapshot_misses_nothing_example :
    (from : ℕ) × AreNumbered from (snapshot_of sample_limits 2 busy_execution).events
    × (from + length (snapshot_of sample_limits 2 busy_execution).events ≡ 3)
    × ((from ≡ 2) ⊎ ((from ≡ busy_execution-IsBounded.gone) × (2 ≤ busy_execution-IsBounded.gone)))
snapshot_misses_nothing_example =
    snapshot_misses_nothing sample_limits 2 busy_execution busy_execution-IsBounded (omega arith)
