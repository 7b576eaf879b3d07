-- ===== src/Runs/Execution/Life/Final.antt =====
-- What a finished execution still takes, and that the newest frame is shown.
use replay_forge.Base.{
  Bool-cases, List, String, [], any, arith, false, inl, inr, length, nat_eq, ok, option_eq, pair_eq,
  refl, string_eq, suc, true, ℕ, ◌++◌, ◌==◌, ◌∷◌, ◌≡◌, ◌≤◌,
}
use replay_forge.Dict.{Dict}
use replay_forge.Runs.Execution.{
  Execution, Frame, Limits, RunFeed, SurfaceFrame, bind, enter_phase, finish, frame_limit,
  is_finished, is_png, min, publish_event, publish_frame, repeats_last, resume, run_result,
  stored_frame,
}
use replay_forge.Runs.Execution.Bounds.{IsBounded, store_frame-newest}
use replay_forge.Runs.Execution.Life.{
  Operation, binding, entering, finishing, framing, operate, operate_all, recording, reporting,
  resuming,
}

module _ {E R : Type 0} (limits : Limits) where
  -- Equal but for the runs that are bound to it.
  operate-finished :
      (o : Operation E R) (item : Execution E R)
      → is_finished item.finished_at ≡ true
      → (ids : List String) × (operate limits o item ≡ ok (record item { run_ids = ids }))
  unfolding operate publish_frame publish_event finish run_result bind enter_phase resume
  operate-finished (framing feed frame now) item over = (item.run_ids, ground (arith, over))
  operate-finished (recording feed payload) item over = (item.run_ids, rw over refl)
  operate-finished (finishing outcome now) item over = (item.run_ids, rw over refl)
  operate-finished (reporting feed outcome now) item over = (item.run_ids, ground (arith, over))
  operate-finished (binding run_id) item over =
      elim (Bool-cases (any (λ r. r == run_id) item.run_ids)) [
        | inl old ↦ (item.run_ids, rw old refl)
        | inr new ↦ (item.run_ids ++ run_id ∷ [], rw new refl)
      ]
  operate-finished (entering name) item over = (item.run_ids, rw over refl)
  operate-finished resuming item over = (item.run_ids, rw over refl)

  -- A finished execution is final: no sequence of the viewer's calls raises or changes anything of
  -- it but the runs that are bound to it, so its state, result, frames and events stay.
  pub finished_is_final :
      (operations : List (Operation E R)) (item : Execution E R)
      → is_finished item.finished_at ≡ true
      → (ids : List String) × (operate_all limits operations item
          ≡ ok (record item { run_ids = ids }))
  unfolding operate_all
  finished_is_final [] item over = (item.run_ids, refl)
  finished_is_final (o ∷ operations) item over =
      let (ids, done) = operate-finished o item over in
      let (later, rest) = finished_is_final operations (record item { run_ids = ids }) over in
      (later, rw done rest)

  -- A PNG frame within the limits that differs from the last one is shown: publishing it to a live
  -- execution within its limits returns, with the new frame as the last that is retained.
  pub newest_is_kept :
      (feed : RunFeed) (frame : SurfaceFrame) (now : ℕ) (item : Execution E R)
      → IsBounded limits item
      → 1 ≤ frame_limit limits item.mode
      → is_png frame.content ≡ true
      → length frame.content ≤ min limits.maximum_frame_bytes limits.maximum_bytes
      → is_finished item.finished_at ≡ false
      → repeats_last frame.content feed.run_id item.frames ≡ false
      → (after : Execution E R) × (older : Dict ℕ Frame) × (publish_frame limits feed frame now item
          ≡ ok after)
        × (after.frames
            ≡ older ++ (suc item.sequence, stored_frame limits feed frame now item) ∷ [])
  unfolding publish_frame
  newest_is_kept feed frame now item b room png small live differs =
      let (after, older, done, last) =
        store_frame-newest limits feed frame now item b room (ground (arith, small)) in
      (after, older, ground (arith, png, small, live, differs, done), last)
