-- ===== src/Capabilities/Samples.antt =====
-- Contracts and conditions on concrete values.
use replay_forge.Policy.Layers.{member}
use replay_forge.Text.{split}
use replay_forge.Capabilities.Values.Bindings.{IsAllowedPath, classification_is_allowed}
use replay_forge.Capabilities.Binding.{beside}
use replay_forge.Capabilities.Targets.{
  LocatorBundle, exact, input_text, ocr_relative, rendered_text, right_of,
}
use replay_forge.Capabilities.Conditions.Distinct.{
  IsCompositional, PartOf, distinct_surface_is_shown,
}
use replay_forge.Capabilities.Conditions.{
  Condition, Conditions, all_of, any_of, element_condition, identity_matches, more, no_more, not_,
  output_equals, output_valid, proves_distinct_surface, rendered_text_condition, route_condition,
  surface_conditions, text_condition, visual_text_condition,
}
use replay_forge.Base.{
  Bool, [], bool_eq, contract_error, eq_refl, err, false, is_nil, nat_eq, none, ok, option_eq,
  pair_eq, refl, some, string_eq, true, ◌&&◌, ◌==◌, ◌||◌, ◌↔◌, ◌∷◌, ◌≡◌, ◌≢◌,
}
use replay_forge.Policy.Types.{class_eq, public_, secret}
use replay_forge.Capabilities.Json.{
  Fields, Json, ObjectContract, ValueSchema, end, field, get_field, get_property, none_left,
  property, schema, string_type,
}
use replay_forge.Capabilities.Values.{
  Formats, binding_classification, check_keys, enter, has_unknown, validate_fields, validate_object,
}
use replay_forge.Capabilities.Values.Conformance.{AllConform, KeysFit, validate_object_iff}

abbrev any_format : Formats
any_format = record {
  full_match = λ p s. true;
  decimal_of = λ s. some true;
  is_date = λ s. true;
  datetime_of = λ s. some true;
}

abbrev short_text : ValueSchema
short_text =
    schema
      (record {
        type = string_type;
        data_classification = public_;
        required = [];
        pattern = none;
        format = none;
        enum = [];
        const = none;
        min_length = some 1;
        max_length = some 4;
      })
      none_left

abbrev one_name : ObjectContract
one_name = record { required = "name" ∷ []; properties = property "name" short_text none_left }

abbrev ann : Fields
ann = field "name" (Json.text "Ann") end

validate_object_iff_example : (validate_object any_format one_name ann ≡ ok ann) ↔ (
    (ann ≡ ann)
    × KeysFit ("name" ∷ []) (property "name" short_text none_left) ann
    × AllConform any_format (property "name" short_text none_left) ann)
validate_object_iff_example = validate_object_iff any_format one_name ann ann

accepts_ann : validate_object any_format one_name ann ≡ ok ann
unfolding validate_object replay_forge.Capabilities.Values.check_keys
    replay_forge.Capabilities.Json.get_field replay_forge.Capabilities.Values.has_unknown
    replay_forge.Capabilities.Json.get_property replay_forge.Capabilities.Values.validate_fields
accepts_ann = refl

refuses_empty : validate_object any_format one_name end ≡ err (contract_error "missing_required")
unfolding validate_object replay_forge.Capabilities.Values.check_keys
    replay_forge.Capabilities.Json.get_field
refuses_empty = refl

unfoldable mutual
  -- A screen on which only the text "Ready" is shown.
  shows : Condition → Bool
  shows (text_condition value mode) = value == "Ready"
  shows (all_of cs) = shows_all cs
  shows (any_of cs) = shows_any cs
  shows _ = false

  shows_all : Conditions → Bool
  shows_all no_more = true
  shows_all (more c cs) = shows c && shows_all cs

  shows_any : Conditions → Bool
  shows_any no_more = false
  shows_any (more c cs) = shows c || shows_any cs

shows-IsCompositional : IsCompositional shows
unfolding shows
shows-IsCompositional = record {
  every_part = shows_all;
  some_part = shows_any;
  all_holds = λ cs. refl;
  any_holds = λ cs. refl;
  every_none = refl;
  every_more = λ c cs. refl;
  some_none = refl;
  some_more = λ c cs. refl;
}

abbrev ready : Condition
ready = text_condition "Ready" exact

abbrev waiting : Condition
waiting = text_condition "Please wait" exact

ready_is_shown : shows (all_of (more ready no_more)) ≡ true
unfolding shows
ready_is_shown = refl

same_text : Condition → Condition → Bool
same_text (text_condition a m) (text_condition b n) = a == b
same_text _ _ = true

same_text_itself : (c : Condition) → same_text c c ≡ true
unfolding same_text
same_text_itself (text_condition value mode) = eq_refl value
same_text_itself (route_condition p) = refl
same_text_itself (rendered_text_condition v m) = refl
same_text_itself (visual_text_condition v m r f) = refl
same_text_itself (element_condition t s) = refl
same_text_itself (output_valid o) = refl
same_text_itself (output_equals o v) = refl
same_text_itself (identity_matches o p) = refl
same_text_itself (all_of cs) = refl
same_text_itself (any_of cs) = refl
same_text_itself (not_ c) = refl

ready_proves : proves_distinct_surface same_text (all_of (more ready no_more)) waiting ≡ true
unfolding proves_distinct_surface same_text surface_conditions
ready_proves = refl

distinct_surface_is_shown_example :
    (d : Condition) × PartOf d (all_of (more ready no_more))
    × (shows d ≡ true)
    × (is_nil (surface_conditions d) ≡ false)
    × (d ≢ waiting)
distinct_surface_is_shown_example =
    distinct_surface_is_shown same_text same_text_itself shows shows-IsCompositional
      (all_of (more ready no_more)) waiting ready_is_shown ready_proves

no_secrets : binding_classification one_name "name" (secret ∷ []) ≡ some public_
unfolding binding_classification split replay_forge.Capabilities.Values.enter get_property
    replay_forge.Policy.Layers.member
no_secrets = refl

classification_is_allowed_example :
    IsAllowedPath (secret ∷ []) ("name" ∷ []) (property "name" short_text none_left)
unfolding replay_forge.Policy.Layers.member split
classification_is_allowed_example =
    classification_is_allowed (secret ∷ []) one_name "name" public_ no_secrets refl

-- A bundle that shows a name, or a button to its right.
abbrev by_name : LocatorBundle
by_name = record {
  description = "Customer";
  registered_risk = none;
  scope = record { window = "primary"; frame_path = [] };
  visual_candidates =
      input_text "name" none none ∷ input_text "name" (some "Open") (some right_of) ∷ [];
  candidates = [];
  state = record { visible = true; enabled = none };
  tenant_overrides_allowed = false;
}

abbrev by_ann : LocatorBundle
by_ann = record by_name {
  visual_candidates = rendered_text "Ann" exact ∷ ocr_relative (beside "Ann" "Open" right_of) ∷ [];
}
