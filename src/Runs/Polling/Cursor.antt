-- ===== src/Runs/Polling/Cursor.antt =====
-- A client that polls with the cursor of its last snapshot misses no event that is still kept.
use replay_forge.Runs.Execution.Bounds.{IsBounded}
use replay_forge.Base.{
  subst, Bool-cases, List, [], arith, inl, inr, leb, length, refl, suc, zero, ℕ, ◌+◌, ◌-◌, ◌∷◌, ◌≡◌,
  ◌≤◌, ◌⊎◌,
}
use replay_forge.Runs.Execution.{Execution, Limits, ViewEvent, drop}
use replay_forge.Runs.Execution.Numbering.{AreNumbered, drop-AreNumbered}
use replay_forge.Runs.Polling.{newer, snapshot_of}

module _ {E : Type 0} where
  newer-all :
      (after n : ℕ) (events : List (ViewEvent E))
      → AreNumbered n events
      → after ≤ n
      → newer after events ≡ events
  unfolding newer AreNumbered
  newer-all after n [] numbered early = refl
  newer-all after n (e ∷ events) numbered early =
      let rest = newer-all after (suc n) events numbered.1 (omega (arith, early)) in
      ground (arith, rest, numbered.0, early)

  newer-drop :
      (m n : ℕ) (events : List (ViewEvent E))
      → AreNumbered n events
      → newer (m + n) events ≡ drop m events
  unfolding newer drop AreNumbered
  newer-drop zero n events numbered =
      subst (λ x. newer x events ≡ events) (omega arith)
        (newer-all n n events numbered (omega arith))
  newer-drop (suc m) n [] numbered = refl
  newer-drop (suc m) n (e ∷ events) numbered =
      let rest : newer (suc m + n) events ≡ drop m events =
        subst (λ x. newer x events ≡ drop m events) (omega arith)
          (newer-drop m (suc n) events numbered.1) in
      ground (arith, rest, numbered.0)

module _ {E R : Type 0} (limits : Limits) where
  -- Of an execution within its limits, a snapshot after a cursor that is not above the last event
  -- number misses nothing: its events are numbered without gaps up to the last number given out, and start
  -- right after the cursor, or, where the oldest of these were dropped, with the oldest that is kept.
  pub snapshot_misses_nothing :
      (after : ℕ) (item : Execution E R) (b : IsBounded limits item)
      → after ≤ item.event_sequence
      → (from : ℕ) × AreNumbered from (snapshot_of limits after item).events
        × (from + length (snapshot_of limits after item).events ≡ item.event_sequence)
        × ((from ≡ after) ⊎ ((from ≡ b.gone) × (after ≤ b.gone)))
  unfolding snapshot_of
  snapshot_misses_nothing after item b known = elim (Bool-cases (leb after b.gone)) [
    | inl early ↦
        let same = newer-all after b.gone item.events b.events (ground (arith, early)) in
        rw same (b.gone, b.events, b.newest_event, inr (refl, ground (arith, early)))
    | inr late ↦
        let skipped = after - b.gone in
        let same : newer after item.events ≡ drop skipped item.events =
          subst (λ x. newer x item.events ≡ drop skipped item.events) (ground (arith, late))
            (newer-drop skipped b.gone item.events b.events) in
        let (kept, size) =
          drop-AreNumbered skipped b.gone after item.events (ground (arith, late))
            (omega (arith, known, b.newest_event)) b.events in
        rw same (after, kept, ground (arith, size, late, b.newest_event), inl refl)
  ]
