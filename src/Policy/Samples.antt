-- ===== src/Policy/Samples.antt =====
-- The evaluator on concrete policies and actions.
use mathlib.Core.List.{Memᴰ}
use replay_forge.Text.{
  append, contains, every, is_identifier, is_lower, is_space, is_truthy, is_word, matches,
}
use replay_forge.Shared.Clock.{datetime_eq}
use replay_forge.Base.{
  [], arith, bool_eq, err, false, if◌then◌else◌, map, nat_eq, none, ok, option_eq, pair_eq, refl,
  some, string_eq, value_error, ◌<◌, ◌↔◌, ◌∷◌, ◌≡◌, ◌≢◌, ◌≤◌,
}
use replay_forge.Shared.Ids.{EntityKind, check_id, parse_id}
use replay_forge.Policy.Types.{
  allow, automation, class_eq, deny, irreversible, read_only, replay, require_human_approval,
  risk_rank, secret, sensitive,
}
use replay_forge.Policy.Layers.{
  EffectivePolicy, PolicyLayer, intersect, intersection, member, of_layer,
}
use replay_forge.Policy.Routes.{Library, canonical_origin, route_matches}
use replay_forge.Policy.Decisions.{is_bad_list, repeats}
use replay_forge.Policy.Evaluator.{
  ActionContext, evaluate, infer_risk, inferred_risk, location_allowed, mentions, verdict,
}
use replay_forge.Policy.Evaluator.Restriction.{intersect_is_no_wider}
use replay_forge.Policy.Evaluator.Risks.{
  IsSensitiveByWords, IsWithin, not_denied_iff, permission_iff, registered_is_floor_unless,
}
use replay_forge.Policy.LayerChecks.{check_layer, is_bad_origin, is_bad_pattern, is_layer_name}
use replay_forge.Policy.LayerChecks.Evaluable.{evaluate_total}
use replay_forge.Policy.Evaluator.Returns.{decision_of, evaluate_returns}

-- A library that splits one origin and leaves texts as they are.
abbrev sample_library : Library
sample_library = record {
  urlsplit = λ s. some (record {
    scheme = "https";
    hostname = some "bank.test";
    username = none;
    password = none;
    path = "";
    query = "";
    fragment = "";
    port = some none;
  });
  lower = λ s. s;
  casefold = λ s. s;
  decimal = λ n. "0";
}

abbrev base_layer : PolicyLayer
base_layer = record {
  name = "base";
  allowed_origins = "https://bank.test" ∷ "https://other.test" ∷ [];
  allowed_route_patterns = "/accounts/*" ∷ "/pay" ∷ [];
  allowed_action_types = "click" ∷ "type" ∷ [];
  maximum_risk = irreversible;
  forbidden_field_classes = secret ∷ [];
}

abbrev tenant_layer : PolicyLayer
tenant_layer = record {
  name = "tenant";
  allowed_origins = "https://bank.test" ∷ [];
  allowed_route_patterns = "/accounts/*" ∷ [];
  allowed_action_types = "click" ∷ [];
  maximum_risk = sensitive;
  forbidden_field_classes = [];
}

abbrev both : EffectivePolicy
both = record {
  layer_names = "base" ∷ "tenant" ∷ [];
  allowed_origins = "https://bank.test" ∷ [];
  allowed_route_patterns = "/accounts/*" ∷ [];
  allowed_action_types = "click" ∷ [];
  maximum_risk = sensitive;
  forbidden_field_classes = secret ∷ [];
}

abbrev click : ActionContext
click = record {
  principal_type = automation;
  principal_id = "agent";
  run_mode = replay;
  application_family = "bank";
  tenant = "demo";
  origin = "https://bank.test";
  route = "/accounts/12";
  action_type = "click";
  target_description = "approve payment";
  declared_risk = read_only;
  control_owner = "automation";
  field_classification = none;
  registered_target_risk = some irreversible;
}

intersects : intersect (base_layer ∷ tenant_layer ∷ []) ≡ ok both
unfolding intersect replay_forge.Policy.Layers.intersection replay_forge.Policy.Layers.member
intersects = refl

decides :
    verdict sample_library both click
    ≡ (require_human_approval, "sensitive_action_requires_approval")
unfolding verdict replay_forge.Policy.Routes.canonical_origin replay_forge.Text.every
    replay_forge.Text.is_space replay_forge.Text.contains replay_forge.Text.is_truthy
    replay_forge.Policy.Layers.member replay_forge.Text.append
    replay_forge.Policy.Evaluator.location_allowed replay_forge.Policy.Routes.route_matches
    infer_risk replay_forge.Policy.Evaluator.inferred_risk replay_forge.Policy.Evaluator.mentions
decides = refl

not_denied : (verdict sample_library both click).0 ≢ deny
not_denied = rw decides (λ h. ground (arith, h))

intersect_is_no_wider_example :
    verdict sample_library (of_layer tenant_layer) click ≡ verdict sample_library both click
intersect_is_no_wider_example =
    intersect_is_no_wider sample_library (base_layer ∷ tenant_layer ∷ []) both click tenant_layer
      intersects not_denied (Memᴰ.tail (Memᴰ.head refl))

not_denied_iff_example : ((verdict sample_library both click).0 ≢ deny) ↔ (
    IsWithin sample_library both click
    × (risk_rank (infer_risk sample_library click) < risk_rank irreversible)
    × (risk_rank (infer_risk sample_library click) ≤ risk_rank both.maximum_risk))
not_denied_iff_example = not_denied_iff sample_library both click

permission_iff_example :
    (((verdict sample_library both click).0 ≡ allow) ↔ (
      IsWithin sample_library both click
      × (risk_rank (infer_risk sample_library click) < risk_rank sensitive)
      × (risk_rank (infer_risk sample_library click) ≤ risk_rank both.maximum_risk)))
    × (((verdict sample_library both click).0 ≡ require_human_approval) ↔ (
        IsWithin sample_library both click
        × (infer_risk sample_library click ≡ sensitive)
        × (risk_rank sensitive ≤ risk_rank both.maximum_risk)))
permission_iff_example = permission_iff sample_library both click

registered_is_floor_unless_example :
    (risk_rank (infer_risk sample_library click) < risk_rank irreversible) ↔ (
      IsSensitiveByWords sample_library click
      × (irreversible ≡ irreversible)
      × (click.declared_risk ≢ irreversible))
registered_is_floor_unless_example =
    registered_is_floor_unless sample_library click irreversible refl

decision_id : check_id "dec_0123456789abcdef0123456789abcdef" EntityKind.decision ≡ ok tt
unfolding parse_id
decision_id = refl

evaluate_returns_example :
    evaluate sample_library both click "dec_0123456789abcdef0123456789abcdef" 7 ≡ (
      if is_bad_list both.layer_names
      then err value_error
      else ok (decision_of sample_library both click "dec_0123456789abcdef0123456789abcdef" 7))
evaluate_returns_example =
    evaluate_returns sample_library both click "dec_0123456789abcdef0123456789abcdef" 7 decision_id

base_admitted : check_layer sample_library base_layer ≡ ok tt
unfolding check_layer replay_forge.Policy.LayerChecks.is_layer_name replay_forge.Text.matches
    replay_forge.Text.is_lower replay_forge.Text.is_word
    replay_forge.Policy.LayerChecks.is_bad_origin is_truthy contains is_space
    replay_forge.Policy.LayerChecks.is_bad_pattern replay_forge.Text.is_identifier
base_admitted = refl

tenant_admitted : check_layer sample_library tenant_layer ≡ ok tt
unfolding check_layer replay_forge.Policy.LayerChecks.is_layer_name replay_forge.Text.matches
    replay_forge.Text.is_lower replay_forge.Text.is_word
    replay_forge.Policy.LayerChecks.is_bad_origin is_truthy contains is_space
    replay_forge.Policy.LayerChecks.is_bad_pattern replay_forge.Text.is_identifier
tenant_admitted = refl

all_admitted :
    (l : PolicyLayer)
    → Memᴰ l (base_layer ∷ tenant_layer ∷ [])
    → check_layer sample_library l ≡ ok tt
all_admitted l (Memᴰ.head e) = rw e base_admitted
all_admitted l (Memᴰ.tail (Memᴰ.head e)) = rw e tenant_admitted
all_admitted l (Memᴰ.tail (Memᴰ.tail m)) = elim m [ ]

names_differ : repeats (map (λ (l : PolicyLayer). l.name) (base_layer ∷ tenant_layer ∷ [])) ≡ false
unfolding repeats member
names_differ = refl

evaluate_total_example :
    evaluate sample_library both click "dec_0123456789abcdef0123456789abcdef" 7
    ≡ ok (decision_of sample_library both click "dec_0123456789abcdef0123456789abcdef" 7)
evaluate_total_example =
    evaluate_total sample_library (base_layer ∷ tenant_layer ∷ []) both click
      "dec_0123456789abcdef0123456789abcdef" 7 all_admitted names_differ intersects decision_id
