-- ===== src/Replay/Progress/Keys.antt =====
-- What the engine finds under an identifier of the artifact.
use mathlib.Core.List.{Memᴰ}
use mathlib.Core.List.Memᴰ
use replay_forge.Base.{
  Bool-cases, List, Option, String, [], arith, bool_eq, eq→≡, if◌then◌else◌, inl, inr, nat_eq, none,
  option_eq, pair_eq, refl, some, string_eq, subst, ◌==◌, ◌∷◌, ◌≡◌,
}
use replay_forge.Dict.{none≢some, some-eq}
use replay_forge.Capabilities.Artifact.{Recovery, Step}
use replay_forge.Replay.Journal.{recovery_steps_of}
use replay_forge.Replay.Detection.{last_with, or_this}

this-Memᴰ :
    {A : Type 0} (key : A → String) (y : A) (ys : List A) (name : String) (o : Option A) {x : A}
    → (o ≡ some x → Memᴰ x ys)
    → or_this o (if key y == name then some y else none) ≡ some x
    → Memᴰ x (y ∷ ys)
this-Memᴰ key y ys name (some z) later h = Memᴰ.tail (later h)
this-Memᴰ key y ys name none later h = elim (Bool-cases (key y == name)) [
  | inl e ↦ Memᴰ.head (ground (arith, h, e))
  | inr e ↦ absurd (ground (arith, h, e))
]

-- What is found under a key is an item.
pub last_with-Memᴰ :
    {A : Type 0} (key : A → String) (xs : List A) (name : String) {x : A}
    → last_with key xs name ≡ some x
    → Memᴰ x xs
unfolding last_with
last_with-Memᴰ key [] name h = absurd (none≢some h)
last_with-Memᴰ key (y ∷ ys) name h =
    this-Memᴰ key y ys name (last_with key ys name) (last_with-Memᴰ key ys name) h

this-key :
    {A : Type 0} (key : A → String) (y : A) (name : String) (o : Option A) {x : A}
    → (o ≡ some x → key x ≡ name)
    → or_this o (if key y == name then some y else none) ≡ some x
    → key x ≡ name
this-key key y name (some z) later h = later h
this-key key y name none later h = elim (Bool-cases (key y == name)) [
  | inl e ↦
      subst (λ x. key x ≡ name) (some-eq {o = some y} refl (ground (arith, h, e)))
        (eq→≡ (key y) name e)
  | inr e ↦ absurd (ground (arith, h, e))
]

-- It has that key.
pub last_with-key :
    {A : Type 0} (key : A → String) (xs : List A) (name : String) {x : A}
    → last_with key xs name ≡ some x
    → key x ≡ name
unfolding last_with
last_with-key key [] name h = absurd (none≢some h)
last_with-key key (y ∷ ys) name h =
    this-key key y name (last_with key ys name) (last_with-key key ys name) h

-- The steps of a recovery are steps of the artifact.
pub recovery_steps_of-Memᴰ :
    (recoveries : List Recovery) {r : Recovery} {s : Step}
    → Memᴰ r recoveries
    → Memᴰ s r.steps
    → Memᴰ s (recovery_steps_of recoveries)
unfolding recovery_steps_of
recovery_steps_of-Memᴰ [] m listed = elim m [ ]
recovery_steps_of-Memᴰ (q ∷ recoveries) {s = s} (Memᴰ.head e) listed =
    Memᴰ.append_left (recovery_steps_of recoveries) (subst (λ x. Memᴰ s x.steps) e listed)
recovery_steps_of-Memᴰ (q ∷ recoveries) (Memᴰ.tail m) listed =
    Memᴰ.append_right q.steps (recovery_steps_of-Memᴰ recoveries m listed)
