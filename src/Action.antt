-- ===== src/Action.antt =====
-- Methods that change an object and may raise: what was written before a raise stays written, so
-- the state comes back beside the error too.
use replay_forge.Base.{Result, err, err≢ok, ok, refl, ◌≡◌}

abbrev pub Action : Type 0 → Type 0 → Type 0
Action S A = S → Result A × S

abbrev pub next : {S A B : Type 0} → Result A × S → (A → Action S B) → Result B × S
next (ok a, s) f = f a s
next (err e, s) f = (err e, s)

infixl 10 ◌>>=◌ ◌>>◌
abbrev pub ◌>>=◌ : {S A B : Type 0} → Action S A → (A → Action S B) → Action S B
◌>>=◌ m f s = next (m s) f

abbrev pub ◌>>◌ : {S A B : Type 0} → Action S A → Action S B → Action S B
m >> k = m >>= λ _. k

-- A part that changes nothing.
abbrev pub lift : {S A : Type 0} → Result A → Action S A
lift r s = (r, s)

-- A part that reads the state.
abbrev pub reads : {S A : Type 0} → (S → Result A) → Action S A
reads f s = (f s, s)

-- A predicate of the final state, from the state in which a part fails and from what follows it.
module _ {S A B : Type 0} (P : S → Type 0) where
  pub lift-bind_rule :
      (r : Result A) (f : A → Action S B) (s : S)
      → P s
      → ((a : A) → r ≡ ok a → P (f a s).1)
      → P ((lift r >>= f) s).1
  lift-bind_rule (ok a) f s stay go = go a refl
  lift-bind_rule (err e) f s stay go = stay

  pub reads-bind_rule :
      (g : S → Result A) (f : A → Action S B) (s : S)
      → P s
      → ((a : A) → g s ≡ ok a → P (f a s).1)
      → P ((reads g >>= f) s).1
  reads-bind_rule g f s = lift-bind_rule (g s) f s

-- What a run that returns leaves behind.
abbrev pub Ensures : {S B : Type 0} → (B → S → Type 0) → Result B × S → Type 0
Ensures {B = B} P x = (b : B) → x.0 ≡ ok b → P b x.1

module _ {S A B : Type 0} (P : B → S → Type 0) where
  pub lift-bind-Ensures :
      (r : Result A) (f : A → Action S B) (s : S)
      → ((a : A) → r ≡ ok a → Ensures P (f a s))
      → Ensures P ((lift r >>= f) s)
  lift-bind-Ensures (ok a) f s go = go a refl
  lift-bind-Ensures (err e) f s go = λ b h. absurd (err≢ok h)

  pub reads-bind-Ensures :
      (g : S → Result A) (f : A → Action S B) (s : S)
      → ((a : A) → g s ≡ ok a → Ensures P (f a s))
      → Ensures P ((reads g >>= f) s)
  reads-bind-Ensures g f s = lift-bind-Ensures (g s) f s

-- What follows and changes nothing leaves the state.
pub next-lift :
    {S A B : Type 0} (x : Result A × S) (g : A → Result B) → (next x (λ a. lift (g a))).1 ≡ x.1
next-lift (ok a, s) g = refl
next-lift (err e, s) g = refl
