-- ===== src/Policy/Layers.antt =====
-- policy/models.py: policy layers, and the effective policy that their intersection is. A frozenset
-- is a list that is only asked for membership.
use replay_forge.Base.{
  Bool, Eq, List, Result, String, [], arith, err, false, if◌then◌else◌, nat_eq, ok, option_eq,
  pair_eq, refl, string_eq, value_error, ◌&&◌, ◌++◌, ◌==◌, ◌||◌, ◌∷◌, ◌≡◌,
}
use replay_forge.Policy.Types.{DataClassification, Risk, class_eq, min_risk}

module _ {A : Type 0} ⦃e : Eq A⦄ where
  -- `a in values`
  unfoldable pub member : A → List A → Bool
  member a [] = false
  member a (b ∷ values) = a == b || member a values

  -- The elements of the first set that the second has.
  unfoldable pub intersection : List A → List A → List A
  intersection [] ys = []
  intersection (x ∷ xs) ys = let rest = intersection xs ys in if member x ys then x ∷ rest else rest

  pub member-intersection :
      (a : A) (xs ys : List A) → member a (intersection xs ys) ≡ member a xs && member a ys
  unfolding intersection member
  member-intersection a [] ys = refl
  member-intersection a (x ∷ xs) ys = ground (arith, e.beq_iff a x, member-intersection a xs ys)

  pub member-append : (a : A) (xs ys : List A) → member a (xs ++ ys) ≡ member a xs || member a ys
  unfolding member
  member-append a [] ys = refl
  member-append a (x ∷ xs) ys = ground (arith, member-append a xs ys)

pub record PolicyLayer : Type 0 where
  pub name : String
  pub allowed_origins : List String
  pub allowed_route_patterns : List String
  pub allowed_action_types : List String
  pub maximum_risk : Risk
  pub forbidden_field_classes : List DataClassification

pub record EffectivePolicy : Type 0 where
  pub layer_names : List String
  pub allowed_origins : List String
  pub allowed_route_patterns : List String
  pub allowed_action_types : List String
  pub maximum_risk : Risk
  pub forbidden_field_classes : List DataClassification

-- The policy of one layer.
abbrev pub of_layer : PolicyLayer → EffectivePolicy
of_layer l = record {
  layer_names = l.name ∷ [];
  allowed_origins = l.allowed_origins;
  allowed_route_patterns = l.allowed_route_patterns;
  allowed_action_types = l.allowed_action_types;
  maximum_risk = l.maximum_risk;
  forbidden_field_classes = l.forbidden_field_classes;
}

-- One more layer, intersected field by field; the forbidden classes are united.
unfoldable pub restrict : EffectivePolicy → PolicyLayer → EffectivePolicy
restrict p l = record {
  layer_names = p.layer_names ++ l.name ∷ [];
  allowed_origins = intersection p.allowed_origins l.allowed_origins;
  allowed_route_patterns = intersection p.allowed_route_patterns l.allowed_route_patterns;
  allowed_action_types = intersection p.allowed_action_types l.allowed_action_types;
  maximum_risk = min_risk p.maximum_risk l.maximum_risk;
  forbidden_field_classes = p.forbidden_field_classes ++ l.forbidden_field_classes;
}

unfoldable pub restrict_all : EffectivePolicy → List PolicyLayer → EffectivePolicy
restrict_all p [] = p
restrict_all p (l ∷ layers) = restrict_all (restrict p l) layers

-- `EffectivePolicy.intersect(*layers)`
unfoldable pub intersect : List PolicyLayer → Result EffectivePolicy
unfolding restrict_all restrict
intersect [] = err value_error
intersect (l ∷ layers) = ok (restrict_all (of_layer l) layers)
