-- ===== src/Replay/Journal.antt =====
-- What the journal of an execution may say, by the artifact.
use mathlib.Core.List.{Memᴰ}
use replay_forge.Base.{
  Bool, Bool-cases, List, Option, String, [], any, ap, arith, bool_eq, eq_refl, eq→≡, false,
  if◌then◌else◌, inl, inr, leb, nat_eq, none, option_eq, pair_eq, some, string_eq, true, ℕ, ◌&&◌,
  ◌++◌, ◌+◌, ◌-◌, ◌<◌, ◌==◌, ◌∙◌, ◌∷◌, ◌≡◌, ◌≤◌,
}
use replay_forge.Dict.{Dict, insert, lookup, lookup-insert}
use replay_forge.Policy.Types.{Decision, allow, class_eq}
use replay_forge.Policy.Layers.{member}
use replay_forge.Capabilities.Artifact.{CapabilityArtifact, Recovery, Step}
use replay_forge.Replay.Machine.{
  Event, State, action_intent, dispatched, extracted, policy_evaluated, recovery_started,
  step_retry_scheduled,
}
use replay_forge.Replay.Machine.Grades.{Costs}
use replay_forge.Replay.Detection.{last_with}
use replay_forge.Replay.Engine.{or_zero, uses_of}

abbrev is_allow : Decision → Bool
is_allow allow = true
is_allow _ = false

-- Right before: the intent of the step, and before that the policy's permission of the step.
unfoldable pub is_authorized : String → List Event → Bool
is_authorized id (action_intent i ∷ policy_evaluated j decision reason ∷ log) =
    i == id && j == id && is_allow decision
is_authorized id log = false

-- The steps of the artifact, those of its recoveries included.
unfoldable pub recovery_steps_of : List Recovery → List Step
recovery_steps_of [] = []
recovery_steps_of (r ∷ recoveries) = r.steps ++ recovery_steps_of recoveries

abbrev pub all_steps : CapabilityArtifact → List Step
all_steps artifact = artifact.steps ++ recovery_steps_of artifact.recoveries

abbrev pub permits_retry : String → ℕ → String → Step → Bool
permits_retry id attempt reason step =
    step.id == id && leb attempt step.retry.max_attempts && member reason step.retry.retry_on

abbrev pub permits_use : String → ℕ → Recovery → Bool
permits_use id uses recovery = recovery.id == id && leb uses recovery.max_uses

module _ (artifact : CapabilityArtifact) where
  -- A dispatch or an extraction is authorized; a retry is one that the step's policy lists, within its attempts; a
  -- recovery starts within its uses.
  abbrev pub is_permitted : Event → List Event → Bool
  is_permitted (dispatched id) log = is_authorized id log
  is_permitted (extracted id) log = is_authorized id log
  is_permitted (step_retry_scheduled id attempt reason) log =
      any (permits_retry id attempt reason) (all_steps artifact)
  is_permitted (recovery_started id recovery uses) log =
      any (permits_use recovery uses) artifact.recoveries
  is_permitted e log = true

  unfoldable pub is_sound : List Event → Bool
  is_sound [] = true
  is_sound (e ∷ log) = is_permitted e log && is_sound log

-- How often the recoveries may still start.
unfoldable pub uses_left : List Recovery → Dict String ℕ → ℕ
uses_left [] uses = 0
uses_left (r ∷ recoveries) uses = (r.max_uses - uses_of uses r.id) + uses_left recoveries uses

-- How often a recovery was started.
abbrev pub is_start : Event → Bool
is_start (recovery_started id recovery uses) = true
is_start e = false

abbrev started_id : Event → String
started_id (recovery_started id recovery uses) = recovery
started_id e = ""

unfoldable pub starts : String → List Event → ℕ
starts id [] = 0
starts id (e ∷ log) =
    let rest = starts id log in if is_start e && started_id e == id then rest + 1 else rest

-- The declared uses of the recovery that the engine finds under an identifier.
abbrev limit_of : Option Recovery → ℕ
limit_of none = 0
limit_of (some r) = r.max_uses

abbrev pub limit : CapabilityArtifact → String → ℕ
limit artifact id = limit_of (last_with (λ r. r.id) artifact.recoveries id)

pub starts-other :
    (id : String) (e : Event) (log : List Event)
    → is_start e ≡ false
    → starts id (e ∷ log) ≡ starts id log
unfolding starts
starts-other id e log other = ground (arith, other)

-- The journal stays sound, the uses that are left fall by the price at least, the starts of a
-- recovery that are journalled are the uses that are counted, and no count passes its limit.
pub record Progress {W : Type 0} (artifact : CapabilityArtifact) (n : ℕ) (s t : State W)
    : Type 0 where
  pub spends :
      n + uses_left artifact.recoveries t.recovery_uses
      ≤ uses_left artifact.recoveries s.recovery_uses
  pub keeps_sound : is_sound artifact s.log ≡ true → is_sound artifact t.log ≡ true
  pub counts :
      (id : String)
      → starts id t.log + uses_of s.recovery_uses id ≡ starts id s.log + uses_of t.recovery_uses id
  pub limits :
      (id : String)
      → uses_of t.recovery_uses id
        ≤ uses_of s.recovery_uses id + (limit artifact id - uses_of s.recovery_uses id)

abbrev pub progress : {W : Type 0} → CapabilityArtifact → Costs W
progress artifact = record {
  moves = Progress artifact;
  stays = λ s. record {
    spends = omega arith;
    keeps_sound = λ h. h;
    counts = λ id. omega arith;
    limits = λ id. omega arith;
  };
  then_ = λ n p q. record {
    spends = omega (arith, p.spends, q.spends);
    keeps_sound = λ h. q.keeps_sound (p.keeps_sound h);
    counts = λ id. omega (arith, p.counts id, q.counts id);
    limits = λ id. omega (arith, p.limits id, q.limits id);
  };
  spares = λ n p. record {
    spends = omega (arith, p.spends);
    keeps_sound = p.keeps_sound;
    counts = p.counts;
    limits = p.limits;
  };
}

uses_of-insert :
    (uses : Dict String ℕ) (k j : String) (n : ℕ)
    → uses_of (insert uses k n) j ≡ or_zero (if k == j then some n else lookup uses j)
unfolding uses_of
uses_of-insert uses k j n = ap or_zero (lookup-insert uses k j n)

uses_of-insert_self :
    (uses : Dict String ℕ) (k j : String) (n : ℕ)
    → (k == j) ≡ true
    → uses_of (insert uses k n) j ≡ n
uses_of-insert_self uses k j n e =
    uses_of-insert uses k j n ∙ ap (λ b. or_zero (if b then some n else lookup uses j)) e

uses_of-insert_ne :
    (uses : Dict String ℕ) (k j : String) (n : ℕ)
    → (k == j) ≡ false
    → uses_of (insert uses k n) j ≡ uses_of uses j
unfolding uses_of
uses_of-insert_ne uses k j n e =
    uses_of-insert uses k j n ∙ ap (λ b. or_zero (if b then some n else lookup uses j)) e

-- One use more of one recovery.
pub uses_of-count :
    (uses : Dict String ℕ) (id j : String)
    → uses_of (insert uses id (uses_of uses id + 1)) j ≡ uses_of uses j + (if id == j then 1 else 0)
uses_of-count uses id j = elim (Bool-cases (id == j)) [
  | inl e ↦
      uses_of-insert_self uses id j (uses_of uses id + 1) e
      ∙ rw e (ap (λ x. uses_of uses x + 1) (eq→≡ id j e))
  | inr e ↦ uses_of-insert_ne uses id j (uses_of uses id + 1) e ∙ rw e (omega arith)
]

-- Starting a recovery once more lowers no count.
uses_of-le :
    (uses : Dict String ℕ) (id j : String)
    → uses_of uses j ≤ uses_of (insert uses id (uses_of uses id + 1)) j
uses_of-le uses id j = elim (Bool-cases (id == j)) [
  | inl e ↦ omega (
    arith,
    uses_of-insert_self uses id j (uses_of uses id + 1) e,
    ap (uses_of uses) (eq→≡ id j e),
  )
  | inr e ↦ omega (arith, uses_of-insert_ne uses id j (uses_of uses id + 1) e)
]

-- It takes nothing from the other recoveries.
pub uses_left-insert :
    (recoveries : List Recovery) (uses : Dict String ℕ) (id : String)
    → uses_left recoveries (insert uses id (uses_of uses id + 1)) ≤ uses_left recoveries uses
unfolding uses_left
uses_left-insert [] uses id = omega arith
uses_left-insert (r ∷ recoveries) uses id =
    omega (arith, uses_left-insert recoveries uses id, uses_of-le uses id r.id)

-- Of a recovery that may still start, a use is spent.
pub uses_left-spent :
    (recoveries : List Recovery) (uses : Dict String ℕ) {r : Recovery}
    → Memᴰ r recoveries
    → uses_of uses r.id < r.max_uses
    → uses_left recoveries (insert uses r.id (uses_of uses r.id + 1)) + 1
      ≤ uses_left recoveries uses
unfolding uses_left
uses_left-spent [] uses m some_left = elim m [ ]
uses_left-spent (q ∷ recoveries) uses {r} (Memᴰ.head e) some_left = omega (
  arith,
  uses_left-insert recoveries uses r.id,
  uses_of-insert_self uses r.id r.id (uses_of uses r.id + 1) (eq_refl r.id),
  ap (λ x. uses_of uses x.id) e,
  ap (λ x. uses_of (insert uses r.id (uses_of uses r.id + 1)) x.id) e,
  ap (λ x. x.max_uses) e,
)
uses_left-spent (q ∷ recoveries) uses {r} (Memᴰ.tail m) some_left =
    omega (arith, uses_left-spent recoveries uses m some_left, uses_of-le uses r.id q.id)
