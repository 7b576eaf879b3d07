-- ===== src/Runs/Execution/Numbering.antt =====
-- What is left of numbered events when the oldest are dropped.
use replay_forge.Base.{
  subst, List, [], arith, false, length, nat_eqb, refl, suc, zero, ℕ, ◌++◌, ◌+◌, ◌-◌, ◌∷◌, ◌≡◌, ◌≤◌,
}
use replay_forge.Runs.Execution.{ViewEvent, drop, keep_last}

module _ {E : Type 0} where
  -- The events are numbered from `n + 1` on without gaps.
  unfoldable pub AreNumbered : ℕ → List (ViewEvent E) → Type 0
  AreNumbered n [] = Unit {0}
  AreNumbered n (e ∷ events) = (e.number ≡ suc n) × AreNumbered (suc n) events

  pub AreNumbered-append :
      (n : ℕ) (events : List (ViewEvent E)) (e : ViewEvent E)
      → AreNumbered n events
      → e.number ≡ suc (n + length events)
      → AreNumbered n (events ++ e ∷ [])
  unfolding AreNumbered
  AreNumbered-append n [] e numbered next = (omega (arith, next), tt)
  AreNumbered-append n (d ∷ events) e numbered next =
      (numbered.0, AreNumbered-append (suc n) events e numbered.1 (omega (arith, next)))

  pub drop-AreNumbered :
      (m n k : ℕ) (events : List (ViewEvent E))
      → k ≡ n + m
      → m ≤ length events
      → AreNumbered n events
      → AreNumbered k (drop m events) × (m + length (drop m events) ≡ length events)
  unfolding drop AreNumbered
  drop-AreNumbered zero n k events at few numbered =
      (subst (λ x. AreNumbered x events) (omega (arith, at)) numbered, omega arith)
  drop-AreNumbered (suc m) n k [] at few numbered = absurd (omega (arith, few))
  drop-AreNumbered (suc m) n k (e ∷ events) at few numbered =
      let rest =
        drop-AreNumbered m (suc n) k events (omega (arith, at)) (omega (arith, few)) numbered.1 in
      (rest.0, omega (arith, rest.1))

  pub keep_last-fits :
      (maximum gone : ℕ) (events : List (ViewEvent E))
      → 1 ≤ maximum
      → AreNumbered gone events
      → (g : ℕ) × (g + length (keep_last maximum events) ≡ gone + length events)
        × AreNumbered g (keep_last maximum events)
        × (length (keep_last maximum events) ≤ maximum)
  unfolding keep_last
  keep_last-fits maximum gone events positive numbered =
      let extra = length events - maximum in
      let (kept, same) =
        drop-AreNumbered extra gone (gone + extra) events refl (omega arith) numbered in
      let some_limit : nat_eqb maximum 0 ≡ false = ground (arith, positive) in
      rw some_limit (gone + extra, omega (arith, same), kept, omega (arith, same))
