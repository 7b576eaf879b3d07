-- ===== src/Policy/Evaluator/Restriction.antt =====
-- The intersection of policy layers permits nothing that one of its layers would not.
use mathlib.Core.List.{Memᴰ}
use replay_forge.Base.{
  subst, Bool, List, Option, String, [], any, ap, arith, eq→≡, err≢ok, false, nat_eq, none, ok,
  ok-eq, option_eq, pair_eq, some, string_eq, true, ◌∷◌, ◌≡◌, ◌≢◌, ◌≤◌,
}
use replay_forge.Policy.Types.{DataClassification, class_eq, deny, risk_rank}
use replay_forge.Policy.Layers.{
  EffectivePolicy, PolicyLayer, intersect, intersection, member, member-append, member-intersection,
  of_layer, restrict, restrict_all,
}
use replay_forge.Policy.Routes.{Library, canonical_origin, route_matches}
use replay_forge.Policy.Evaluator.{
  ActionContext, is_allowed_origin, is_forbidden, location_allowed, verdict,
}

-- Whatever the tests of `evaluate` ask, the first policy passes only where the second does.
record IsStricter (p q : EffectivePolicy) : Type 0 where
  origins : (o : String) → member o p.allowed_origins ≡ true → member o q.allowed_origins ≡ true
  routes :
      (f : String → Bool)
      → any f p.allowed_route_patterns ≡ true
      → any f q.allowed_route_patterns ≡ true
  actions :
      (a : String) → member a p.allowed_action_types ≡ true → member a q.allowed_action_types ≡ true
  classes :
      (c : DataClassification)
      → member c p.forbidden_field_classes ≡ false
      → member c q.forbidden_field_classes ≡ false
  ceiling : risk_rank p.maximum_risk ≤ risk_rank q.maximum_risk

any-member :
    (f : String → Bool) (x : String) (ys : List String)
    → member x ys ≡ true
    → f x ≡ true
    → any f ys ≡ true
unfolding member
any-member f x [] m h = m
any-member f x (y ∷ ys) m h =
    ground (arith, eq→≡ x y, any-member f x ys, m, h, λ (e : x ≡ y). ap f e)

any-intersection :
    (f : String → Bool) (xs ys : List String)
    → any f (intersection xs ys) ≡ true
    → (any f xs ≡ true) × (any f ys ≡ true)
unfolding intersection
any-intersection f [] ys h = ground (arith, h)
any-intersection f (x ∷ xs) ys h = ground (arith, h, any-intersection f xs ys, any-member f x ys)

origin_kept :
    (o : Option String) (xs ys : List String)
    → ((a : String) → member a xs ≡ true → member a ys ≡ true)
    → is_allowed_origin o xs ≡ true
    → is_allowed_origin o ys ≡ true
origin_kept none xs ys f h = h
origin_kept (some o) xs ys f h = f o h

class_kept :
    (c : Option DataClassification) (xs ys : List DataClassification)
    → ((a : DataClassification) → member a xs ≡ false → member a ys ≡ false)
    → is_forbidden c xs ≡ false
    → is_forbidden c ys ≡ false
class_kept none xs ys f h = h
class_kept (some c) xs ys f h = f c h

module _ (lib : Library) where
  same_verdict :
      (p q : EffectivePolicy) (c : ActionContext)
      → IsStricter p q
      → (verdict lib p c).0 ≢ deny
      → verdict lib q c ≡ verdict lib p c
  unfolding verdict location_allowed
  same_verdict p q c s h = ground (
    arith,
    origin_kept (canonical_origin lib c.origin) p.allowed_origins q.allowed_origins s.origins,
    class_kept c.field_classification p.forbidden_field_classes q.forbidden_field_classes s.classes,
    s.actions c.action_type,
    s.routes (route_matches c.route),
    s.ceiling,
    h,
  )

refl_IsStricter : (p : EffectivePolicy) → IsStricter p p
refl_IsStricter p = record {
  origins = λ o m. m;
  routes = λ f m. m;
  actions = λ a m. m;
  classes = λ c m. m;
  ceiling = omega arith;
}

trans_IsStricter : {p q r : EffectivePolicy} → IsStricter p q → IsStricter q r → IsStricter p r
trans_IsStricter s t = record {
  origins = λ o m. t.origins o (s.origins o m);
  routes = λ f m. t.routes f (s.routes f m);
  actions = λ a m. t.actions a (s.actions a m);
  classes = λ c m. t.classes c (s.classes c m);
  ceiling = omega (arith, s.ceiling, t.ceiling);
}

restrict-policy : (p : EffectivePolicy) (l : PolicyLayer) → IsStricter (restrict p l) p
unfolding restrict
restrict-policy p l = record {
  origins = λ o m. ground (arith, m, member-intersection o p.allowed_origins l.allowed_origins);
  routes = λ f m. (any-intersection f p.allowed_route_patterns l.allowed_route_patterns m).0;
  actions =
      λ a m. ground (arith, m, member-intersection a p.allowed_action_types l.allowed_action_types);
  classes =
      λ c m. ground (arith, m, member-append c p.forbidden_field_classes l.forbidden_field_classes);
  ceiling = ground arith;
}

restrict-layer : (p : EffectivePolicy) (l : PolicyLayer) → IsStricter (restrict p l) (of_layer l)
unfolding restrict
restrict-layer p l = record {
  origins = λ o m. ground (arith, m, member-intersection o p.allowed_origins l.allowed_origins);
  routes = λ f m. (any-intersection f p.allowed_route_patterns l.allowed_route_patterns m).1;
  actions =
      λ a m. ground (arith, m, member-intersection a p.allowed_action_types l.allowed_action_types);
  classes =
      λ c m. ground (arith, m, member-append c p.forbidden_field_classes l.forbidden_field_classes);
  ceiling = ground arith;
}

restrict_all-policy :
    (p : EffectivePolicy) (layers : List PolicyLayer) → IsStricter (restrict_all p layers) p
unfolding restrict_all
restrict_all-policy p [] = refl_IsStricter p
restrict_all-policy p (l ∷ layers) =
    trans_IsStricter (restrict_all-policy (restrict p l) layers) (restrict-policy p l)

restrict_all-layer :
    (p : EffectivePolicy) (layers : List PolicyLayer) (l : PolicyLayer)
    → Memᴰ l layers
    → IsStricter (restrict_all p layers) (of_layer l)
unfolding restrict_all
restrict_all-layer p [] l m = elim m [ ]
restrict_all-layer p (k ∷ layers) l (Memᴰ.head e) =
    rw e (trans_IsStricter (restrict_all-policy (restrict p k) layers) (restrict-layer p k))
restrict_all-layer p (k ∷ layers) l (Memᴰ.tail m) = restrict_all-layer (restrict p k) layers l m

first_layer :
    (k : PolicyLayer) (ks : List PolicyLayer) (l : PolicyLayer)
    → Memᴰ l (k ∷ ks)
    → IsStricter (restrict_all (of_layer k) ks) (of_layer l)
first_layer k ks l (Memᴰ.head e) = rw e (restrict_all-policy (of_layer k) ks)
first_layer k ks l (Memᴰ.tail m) = restrict_all-layer (of_layer k) ks l m

intersect-layer :
    (layers : List PolicyLayer) (p : EffectivePolicy) (l : PolicyLayer)
    → intersect layers ≡ ok p
    → Memᴰ l layers
    → IsStricter p (of_layer l)
unfolding intersect
intersect-layer [] p l e m = absurd (err≢ok e)
intersect-layer (k ∷ ks) p l e m =
    subst (λ q. IsStricter q (of_layer l)) (ok-eq e) (first_layer k ks l m)

module _ (lib : Library) where
  -- What the intersection of layers does not deny, each of the layers alone would decide in the
  -- same way: with the same decision and for the same reason.
  pub intersect_is_no_wider :
      (layers : List PolicyLayer) (p : EffectivePolicy) (c : ActionContext) (l : PolicyLayer)
      → intersect layers ≡ ok p
      → (verdict lib p c).0 ≢ deny
      → Memᴰ l layers
      → verdict lib (of_layer l) c ≡ verdict lib p c
  intersect_is_no_wider layers p c l e h m =
      same_verdict lib p (of_layer l) c (intersect-layer layers p l e m) h
