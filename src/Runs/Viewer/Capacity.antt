-- ===== src/Runs/Viewer/Capacity.antt =====
-- Starting an execution keeps the table within its limits.
use replay_forge.Base.{
  Bool-cases, String, [], arith, err, execution_capacity_reached, false, if◌then◌else◌, inl, inr,
  leb, length, nat_eq, ok, option_eq, pair_eq, refl, some, string_eq, suc, true, viewer_unavailable,
  zero, ℕ, ◌<◌, ◌==◌, ◌∷◌, ◌≡◌, ◌≤◌, ◌⊎◌,
}
use replay_forge.Dict.{Dict, insert, lookup, lookup-insert_self}
use replay_forge.Runs.Execution.{
  Bytes, Execution, Limits, Mode, check_limits, is_finished, new_execution,
}
use replay_forge.Runs.Viewer.{
  Viewer, active, has_expired, is_true_time, make_room, remove_oldest, start, unexpired,
}

module _ {E R : Type 0} where
  -- No execution finished at the time 0 of the monotonic clock, which the code takes for no time.
  unfoldable pub AreDated : Dict String (Execution E R) → Type 0
  AreDated [] = Unit {0}
  AreDated ((k, item) ∷ items) =
      (is_true_time item.finished_at ≡ is_finished item.finished_at) × AreDated items

  unexpired-AreDated :
      (retention : ℕ) (now : String → ℕ) (items : Dict String (Execution E R))
      → AreDated items
      → AreDated (unexpired retention now items)
        × (length (unexpired retention now items) ≤ length items)
        × (active (unexpired retention now items) ≡ active items)
  unfolding unexpired AreDated active
  unexpired-AreDated retention now [] dated = (tt, omega arith, refl)
  unexpired-AreDated retention now ((k, item) ∷ items) dated =
      let rest = unexpired-AreDated retention now items dated.1 in
      elim (Bool-cases (has_expired retention (now k) item.finished_at)) [
        | inl over ↦ rw over (rest.0, omega (arith, rest.1), ground (arith, over, rest.2))
        | inr live ↦ rw live ((dated.0, rest.0), omega (arith, rest.1), ground (arith, rest.2))
      ]

  remove_oldest-some :
      (items : Dict String (Execution E R))
      → AreDated items
      → active items < length items
      → (rest : Dict String (Execution E R)) × (remove_oldest items ≡ some rest)
        × AreDated rest
        × (suc (length rest) ≡ length items)
        × (active rest ≡ active items)
  unfolding remove_oldest AreDated active
  remove_oldest-some [] dated some_finished = absurd (omega (arith, some_finished))
  remove_oldest-some ((k, item) ∷ items) dated some_finished =
      elim (Bool-cases (is_finished item.finished_at)) [
        | inl over ↦ (items, ground (arith, dated.0, over), dated.1, omega arith, rw over refl)
        | inr live ↦
            let (rest, done, kept, size, same) =
              remove_oldest-some items dated.1 (ground (arith, some_finished, live)) in
            (
              (k, item) ∷ rest,
              ground (arith, dated.0, live, done),
              (dated.0, kept),
              omega (arith, size),
              ground (arith, live, same),
            )
      ]

  make_room-fits :
      (fuel maximum : ℕ) (items : Dict String (Execution E R))
      → length items ≤ fuel
      → AreDated items
      → active items < maximum
      → (rest : Dict String (Execution E R)) × (make_room fuel maximum items ≡ (ok tt, rest))
        × AreDated rest
        × (length rest < maximum)
        × (active rest ≡ active items)
  unfolding make_room
  make_room-fits zero maximum items enough dated room =
      (items, refl, dated, omega (arith, enough, room), refl)
  make_room-fits (suc fuel) maximum items enough dated room =
      elim (Bool-cases (leb maximum (length items))) [
        | inl full ↦
            let (rest, done, kept, size, same) =
              remove_oldest-some items dated (ground (arith, full, room)) in
            let (last, ended, dates, few, still) =
              make_room-fits fuel maximum rest (omega (arith, size, enough)) kept
                (omega (arith, same, room)) in
            (last, rw (full, done) ended, dates, few, omega (arith, still, same))
        | inr free ↦ (items, rw free refl, dated, ground (arith, free), refl)
      ]

  -- A new entry, or one that replaces another.
  insert-new :
      (items : Dict String (Execution E R)) (id : String) (mode : Mode) (token_hash : Bytes)
      → (length (insert items id (new_execution id mode token_hash)) ≤ suc (length items))
        × (active (insert items id (new_execution id mode token_hash)) ≤ suc (active items))
        × (AreDated items → AreDated (insert items id (new_execution id mode token_hash)))
  unfolding insert active AreDated
  insert-new [] id mode token_hash = (omega arith, omega arith, λ d. (refl, tt))
  insert-new ((k, item) ∷ items) id mode token_hash =
      let rest = insert-new items id mode token_hash in
      elim (Bool-cases (k == id)) [
        | inl same ↦ rw same (omega arith, ground arith, λ d. (refl, d.1))
        | inr other ↦
            rw other (omega (arith, rest.0), ground (arith, rest.1), λ d. (d.0, rest.2 d.1))
      ]

-- The table holds at most as many executions, and as many that run, as the limits say.
pub record IsWithin {E R : Type 0} (limits : Limits) (viewer : Viewer E R) : Type 0 where
  pub few : length viewer.items ≤ limits.maximum_executions
  pub few_active : active viewer.items ≤ limits.maximum_active
  pub dated : AreDated viewer.items

module _ {E R : Type 0} (limits : Limits) where
  -- Starting an execution in a table within limits that their constructor admits, where no execution
  -- finished at the time 0: unless the viewer is closed or as many executions run as may run, the
  -- loop that makes room ends and finds what to remove, `start` returns the identifier, the new
  -- execution is in the table, and the table stays within its limits.
  pub start_succeeds :
      (id : String) (mode : Mode) (token_hash : Bytes) (now : String → ℕ) (viewer : Viewer E R)
      → check_limits limits ≡ ok tt
      → IsWithin limits viewer
      → viewer.closed ≡ false
      → active viewer.items < limits.maximum_active
      → (after : Viewer E R) × (start limits id mode token_hash now viewer ≡ (ok id, after))
        × (lookup after.items id ≡ some (new_execution id mode token_hash))
        × IsWithin limits after
  unfolding start check_limits
  start_succeeds id mode token_hash now viewer admitted within live room =
      let (dated, fewer, same) =
        unexpired-AreDated limits.retention_seconds now viewer.items within.dated in
      let items = unexpired limits.retention_seconds now viewer.items in
      let (rest, made, dates, few, still) =
        make_room-fits (length items) limits.maximum_executions items (omega arith) dated
          (ground (arith, admitted, same, room)) in
      let added = insert-new rest id mode token_hash in
      let has_room : leb limits.maximum_active (active items) ≡ false =
        ground (arith, same, room) in
      (
        record viewer { items = insert rest id (new_execution id mode token_hash) },
        rw (live, has_room, made) refl,
        lookup-insert_self rest id (new_execution id mode token_hash),
        record {
          few = omega (arith, added.0, few);
          few_active = omega (arith, added.1, still, same, room);
          dated = added.2 dates;
        },
      )

  start-refused :
      (id : String) (mode : Mode) (token_hash : Bytes) (now : String → ℕ) (viewer : Viewer E R)
      → (viewer.closed ≡ true)
        ⊎ (limits.maximum_active ≤ active (unexpired limits.retention_seconds now viewer.items))
      → start limits id mode token_hash now viewer ≡ (
        err (if viewer.closed then viewer_unavailable else execution_capacity_reached),
        record viewer { items = unexpired limits.retention_seconds now viewer.items },
      )
  unfolding start
  start-refused id mode token_hash now viewer why = ground (arith, why)

  -- A call of `start` that raises, since the viewer is closed or as many executions run as may run,
  -- keeps the table within its limits too.
  pub start_refuses :
      (id : String) (mode : Mode) (token_hash : Bytes) (now : String → ℕ) (viewer : Viewer E R)
      → IsWithin limits viewer
      → (viewer.closed ≡ true) ⊎ (limits.maximum_active ≤ active viewer.items)
      → ((start limits id mode token_hash now viewer).0
          ≡ err (if viewer.closed then viewer_unavailable else execution_capacity_reached))
        × IsWithin limits (start limits id mode token_hash now viewer).1
  start_refuses id mode token_hash now viewer within why =
      let (dated, fewer, same) =
        unexpired-AreDated limits.retention_seconds now viewer.items within.dated in
      rw (start-refused id mode token_hash now viewer (rw same why)) (
        refl,
        record {
          few = omega (arith, fewer, within.few);
          few_active = omega (arith, same, within.few_active);
          dated = dated;
        },
      )
