-- ===== src/Runs/Viewer.antt =====
-- runs/viewing.py: the table of executions. Threads and the pool are left out: the operation that an
-- execution runs reaches the table through the calls of Execution. A sweep reads the monotonic clock
-- once for each execution, so its readings are a function of the key.
pub mod Capacity
use replay_forge.Base.{
  Bool, Option, Result, String, [], err, execution_capacity_reached, false, if◌then◌else◌, leb,
  length, ltb, nat_eq, none, ok, option_eq, pair_eq, some, stop_iteration, string_eq, suc,
  viewer_unavailable, zero, ℕ, ◌+◌, ◌∷◌,
}
use replay_forge.Dict.{Dict, insert, lookup-insert_eq}
use replay_forge.Action.{Action}
use replay_forge.Runs.Execution.{Bytes, Execution, Limits, Mode, is_finished, new_execution}

pub record Viewer (E R : Type 0) : Type 0 where
  pub items : Dict String (Execution E R)
  pub closed : Bool

-- `finished_at is not None and monotonic() - finished_at >= retention_seconds`
abbrev pub has_expired : ℕ → ℕ → Option ℕ → Bool
has_expired retention now none = false
has_expired retention now (some t) = leb (t + retention) now

-- `if item.finished_at`: no time, and the time 0, are false.
abbrev pub is_true_time : Option ℕ → Bool
is_true_time none = false
is_true_time (some t) = ltb 0 t

module _ {E R : Type 0} where
  -- The entries that a sweep keeps.
  pub unexpired : ℕ → (String → ℕ) → Dict String (Execution E R) → Dict String (Execution E R)
  unexpired retention now [] = []
  unexpired retention now ((k, item) ∷ items) =
      let rest = unexpired retention now items in
      if has_expired retention (now k) item.finished_at then rest else (k, item) ∷ rest

  -- `sum(item.finished_at is None for item in self._items.values())`
  unfoldable pub active : Dict String (Execution E R) → ℕ
  active [] = 0
  active ((k, item) ∷ items) =
      if is_finished item.finished_at then active items else suc (active items)

  -- Without the first entry that has finished; none is the StopIteration of `next`.
  remove_oldest : Dict String (Execution E R) → Option (Dict String (Execution E R))
  remove_oldest [] = none
  remove_oldest ((k, item) ∷ items) =
      if is_true_time item.finished_at then some items else put (remove_oldest items)
    where
      put : Option (Dict String (Execution E R)) → Option (Dict String (Execution E R))
      put none = none
      put (some rest) = some ((k, item) ∷ rest)

  -- The loop `while len(items) >= maximum`, on fuel.
  make_room : ℕ → ℕ → Action (Dict String (Execution E R)) (Unit {0})
  make_room zero maximum items = (ok tt, items)
  make_room (suc fuel) maximum items =
      if leb maximum (length items)
      then elim (remove_oldest items) [
        | none ↦ (err stop_iteration, items)
        | some rest ↦ make_room fuel maximum rest
      ]
      else (ok tt, items)

  added :
      String
      → Mode
      → Bytes
      → Viewer E R
      → Result (Unit {0}) × Dict String (Execution E R)
      → Result String × Viewer E R
  added id mode token_hash viewer (ok done, items) =
      (ok id, record viewer { items = insert items id (new_execution id mode token_hash) })
  added id mode token_hash viewer (err e, items) = (err e, record viewer { items = items })

  -- `start`, with the identifier and the hash of the token that it draws.
  pub start : Limits → String → Mode → Bytes → (String → ℕ) → Action (Viewer E R) String
  unfolding added
  start limits id mode token_hash now viewer =
      let items = unexpired limits.retention_seconds now viewer.items in
      let swept = record viewer { items = items } in
      if viewer.closed
      then (err viewer_unavailable, swept)
      else if leb limits.maximum_active (active items)
      then (err execution_capacity_reached, swept)
      else added id mode token_hash swept (make_room (length items) limits.maximum_executions items)
