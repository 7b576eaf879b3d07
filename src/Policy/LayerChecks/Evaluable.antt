-- ===== src/Policy/LayerChecks/Evaluable.antt =====
-- Layers that their constructor admits make policies that decide on every action.
use mathlib.Core.List.{Memᴰ, append-nil, append_assoc}
use Prim.Native.Char.{code}
use replay_forge.Base.{
  List, String, [], any, ap, arith, err, err≢ok, false, map, ok, ok-eq, refl, sym, true,
  value_error, ℕ, ◌++◌, ◌∙◌, ◌∷◌, ◌≡◌,
}
use replay_forge.Text.{every, is_blank, is_lower, is_space, matches}
use replay_forge.Shared.Ids.{EntityId, EntityKind, check_id}
use replay_forge.Policy.Layers.{
  EffectivePolicy, PolicyLayer, intersect, of_layer, restrict, restrict_all,
}
use replay_forge.Policy.Routes.{Library}
use replay_forge.Policy.Decisions.{is_bad_list, repeats}
use replay_forge.Policy.Evaluator.{ActionContext, evaluate}
use replay_forge.Policy.Evaluator.Returns.{decision_of, evaluate_returns}
use replay_forge.Policy.LayerChecks.{check_layer, is_layer_name}

abbrev names : List PolicyLayer → List String
names layers = map (λ (l : PolicyLayer). l.name) layers

restrict_all-names :
    (p : EffectivePolicy) (layers : List PolicyLayer)
    → (restrict_all p layers).layer_names ≡ p.layer_names ++ names layers
unfolding restrict_all restrict
restrict_all-names p [] = sym (append-nil p.layer_names)
restrict_all-names p (l ∷ layers) =
    restrict_all-names (restrict p l) layers
    ∙ append_assoc p.layer_names (l.name ∷ []) (names layers)

lower-not-space : (c : ℕ) → is_lower c ≡ true → is_space c ≡ false
unfolding is_lower is_space
lower-not-space c h = ground (arith, h)

is_layer_name-not-blank : (s : String) → is_layer_name s ≡ true → is_blank s ≡ false
unfolding is_layer_name matches is_blank every
is_layer_name-not-blank String.[] h = cc
is_layer_name-not-blank (String.◌∷◌ c s) h = ground (arith, h, lower-not-space (code c))

intersect-nil : intersect [] ≡ err value_error
unfolding intersect
intersect-nil = refl

intersect-names :
    (k : PolicyLayer) (ks : List PolicyLayer) (p : EffectivePolicy)
    → intersect (k ∷ ks) ≡ ok p
    → p.layer_names ≡ names (k ∷ ks)
unfolding intersect
intersect-names k ks p made =
    ap (λ (q : EffectivePolicy). q.layer_names) (sym (ok-eq made))
    ∙ restrict_all-names (of_layer k) ks

good_names :
    (k : PolicyLayer) (ks : List PolicyLayer) (p : EffectivePolicy)
    → intersect (k ∷ ks) ≡ ok p
    → repeats (names (k ∷ ks)) ≡ false
    → any is_blank (names (k ∷ ks)) ≡ false
    → is_bad_list p.layer_names ≡ false
unfolding is_bad_list
good_names k ks p made distinct present =
    rw (intersect-names k ks p made) (ground (arith, distinct, present))

module _ (lib : Library) where
  check_layer-name : (l : PolicyLayer) → check_layer lib l ≡ ok tt → is_layer_name l.name ≡ true
  unfolding check_layer
  check_layer-name l h = ground (arith, h)

  no_blank_name :
      (layers : List PolicyLayer)
      → ((l : PolicyLayer) → Memᴰ l layers → check_layer lib l ≡ ok tt)
      → any is_blank (names layers) ≡ false
  no_blank_name [] h = refl
  no_blank_name (l ∷ layers) h = ground (
    arith,
    is_layer_name-not-blank l.name (check_layer-name l (h l (Memᴰ.head refl))),
    no_blank_name layers (λ k m. h k (Memᴰ.tail m)),
  )

  -- Of layers that their constructor admits, with names that do not repeat, the intersection decides
  -- on every action: with an identifier of a decision, `evaluate` raises nothing.
  pub evaluate_total :
      (layers : List PolicyLayer) (p : EffectivePolicy) (c : ActionContext) (id : EntityId)
      (now : ℕ)
      → ((l : PolicyLayer) → Memᴰ l layers → check_layer lib l ≡ ok tt)
      → repeats (map (λ (l : PolicyLayer). l.name) layers) ≡ false
      → intersect layers ≡ ok p
      → check_id id EntityKind.decision ≡ ok tt
      → evaluate lib p c id now ≡ ok (decision_of lib p c id now)
  evaluate_total [] p c id now admitted distinct made valid =
      absurd (err≢ok (sym intersect-nil ∙ made))
  evaluate_total (k ∷ ks) p c id now admitted distinct made valid =
      evaluate_returns lib p c id now valid
      ∙ rw (good_names k ks p made distinct (no_blank_name (k ∷ ks) admitted)) refl
