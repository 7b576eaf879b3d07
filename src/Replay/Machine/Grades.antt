-- ===== src/Replay/Machine/Grades.antt =====
-- Rules for what a computation of the engine does to the state, however it ends.
use replay_forge.Base.{ℕ}
use replay_forge.Replay.Machine.{
  Outcome, Run, State, SurfaceError, exhausted, failed, follow, handle, raised, returned, try,
  ◌>>=◌,
}

-- A relation of the states before and after, with a price, that composes.
pub record Costs (W : Type 0) : Type 1 where
  pub moves : ℕ → State W → State W → Type 0
  pub stays : (s : State W) → moves 0 s s
  pub then_ : (n : ℕ) {s t u : State W} → moves 0 s t → moves n t u → moves n s u
  pub spares : (n : ℕ) {s t : State W} → moves n s t → moves 0 s t

-- What a value says, and what it costs at least.
pub record Grade (A : Type 0) : Type 1 where
  pub price : A → ℕ
  pub meets : A → Type 0

-- No claim on the value.
abbrev pub plain : {A : Type 0} → Grade A
plain = record { price = λ _. 0; meets = λ _. Unit {0} }

module _ {W : Type 0} (costs : Costs W) where
  abbrev pub Ends : {A : Type 0} → Grade A → State W → Outcome A × State W → Type 0
  Ends g s (returned a, t) = g.meets a × costs.moves (g.price a) s t
  Ends g s (failed e, t) = costs.moves 0 s t
  Ends g s (raised e, t) = costs.moves 0 s t
  Ends g s (exhausted, t) = ⊥

  -- Whatever the state, the computation ends, and within its grade.
  pub record Tame {A : Type 0} (g : Grade A) (m : Run W A) : Type 0 where
    pub at : (s : State W) → Ends g s (m s)

  pub moved :
      {A : Type 0} (g : Grade A) {s t : State W} (x : Outcome A × State W)
      → costs.moves 0 s t
      → Ends g t x
      → Ends g s x
  moved g (returned a, u) first (good, second) = (good, costs.then_ (g.price a) first second)
  moved g (failed e, u) first second = costs.then_ 0 first second
  moved g (raised e, u) first second = costs.then_ 0 first second
  moved g (exhausted, u) first second = second

  pub follow-Ends :
      {A B : Type 0} (f : Grade A) (g : Grade B) (s : State W) (x : Outcome A × State W)
      (next : A → Run W B)
      → Ends f s x
      → ((a : A) → f.meets a → Tame g (next a))
      → Ends g s (follow x next)
  follow-Ends f g s (returned a, t) next (good, first) go =
      moved g (next a t) (costs.spares (f.price a) first) ((go a good).at t)
  follow-Ends f g s (failed e, t) next first go = first
  follow-Ends f g s (raised e, t) next first go = first
  follow-Ends f g s (exhausted, t) next first go = first

  pub bind-Tame :
      {A B : Type 0} (f : Grade A) (g : Grade B) (m : Run W A) (next : A → Run W B)
      → Tame f m
      → ((a : A) → f.meets a → Tame g (next a))
      → Tame g (m >>= next)
  bind-Tame f g m next first go = record { at = λ s. follow-Ends f g s (m s) next (first.at s) go }

  pub handle-Ends :
      {A : Type 0} (g : Grade A) (s : State W) (x : Outcome A × State W)
      (h : SurfaceError → Run W A)
      → Ends g s x
      → ((e : SurfaceError) → Tame g (h e))
      → Ends g s (handle x h)
  handle-Ends g s (returned a, t) h first go = first
  handle-Ends g s (failed e, t) h first go = moved g (h e t) first ((go e).at t)
  handle-Ends g s (raised e, t) h first go = first
  handle-Ends g s (exhausted, t) h first go = first

  pub try-Tame :
      {A : Type 0} (g : Grade A) (m : Run W A) (h : SurfaceError → Run W A)
      → Tame g m
      → ((e : SurfaceError) → Tame g (h e))
      → Tame g (try m h)
  try-Tame g m h first go = record { at = λ s. handle-Ends g s (m s) h (first.at s) go }
