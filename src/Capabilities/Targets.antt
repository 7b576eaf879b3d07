-- ===== src/Capabilities/Targets.antt =====
-- capabilities/models.py: locators. The bounds of single fields, which the model classes declare, and
-- `NormalizedRegion.validate_bounds`, whose sums of floats are rounded, are left out.
use replay_forge.Base.{
  Bool, Float, List, Option, Result, String, bool_eq, false, float_ltb, is_nil, ltb, nat_eq, none,
  not, ok, option_eq, pair_eq, pos, raise_if, some, string_eq, true, value_error, ℕ, ◌&&◌, ◌+◌,
  ◌==◌, ◌>>◌, ◌||◌,
}
use replay_forge.Text.{is_truthy}
use replay_forge.Policy.Types.{Risk, class_eq}

pub data MatchMode : Type 0 where
  exact contains_match regex : MatchMode

pub data Strategy : Type 0 where
  role_name label text relative_text placeholder title css accessibility_path : Strategy
  image_anchor coordinates : Strategy

pub data Portability : Type 0 where
  high medium low : Portability

pub record LocatorCandidate : Type 0 where
  pub strategy : Strategy
  pub expected_count : ℕ
  pub match_mode : MatchMode
  pub portability : Portability
  pub value : Option String
  pub role : Option String
  pub name : Option String
  pub anchor : Option String
  pub relation : Option String
  pub element : Option String
  pub text : Option String
  pub capture_group_label : Option String
  pub x : Option ℕ
  pub y : Option ℕ
  pub width : Option ℕ
  pub height : Option ℕ
  pub viewport_width : Option ℕ
  pub viewport_height : Option ℕ

pub data Relation : Type 0 where
  right_of below same_row : Relation

pub record NormalizedRegion : Type 0 where
  pub x : Float
  pub y : Float
  pub width : Float
  pub height : Float

-- In multiples of the height of the anchor.
pub record RelativeRegion : Type 0 where
  pub x : Float
  pub y : Float
  pub width : Float
  pub height : Float

-- The default of `minimum_confidence`, the float next to 0.85.
abbrev pub default_confidence : Float
default_confidence = record { numerator = pos 7656119366529843; exponent = 53 }

pub record OcrAnchor : Type 0 where
  pub value : String
  pub match_mode : MatchMode
  pub search_region : Option NormalizedRegion
  pub minimum_confidence : Float

pub record OcrTextCandidate : Type 0 where
  pub value : String
  pub match_mode : MatchMode
  pub search_region : Option NormalizedRegion
  pub minimum_confidence : Float
  pub portability : Portability

pub record OcrRelativeCandidate : Type 0 where
  pub anchor : String
  pub anchor_match : MatchMode
  pub target_text : Option String
  pub relation : Relation
  pub relative_region : Option RelativeRegion
  pub search_region : Option NormalizedRegion
  pub minimum_confidence : Float
  pub portability : Portability

pub record ImageAnchorCandidate : Type 0 where
  pub asset_key : String
  pub content_hash : String
  pub search_region : Option NormalizedRegion
  pub context_anchor : Option OcrAnchor
  pub relative_search_region : Option RelativeRegion
  pub minimum_score : Float
  pub uniqueness_margin : Float
  pub minimum_scale : Float
  pub maximum_scale : Float
  pub scale_step : Float
  pub portability : Portability

-- `VisualLocatorCandidate`; `expected_count` is the literal 1 in all of them.
pub data Candidate : Type 0 where
  input_text :
      (path : String) (target_text : Option String) (relation : Option Relation) → Candidate
  ocr_text : OcrTextCandidate → Candidate
  ocr_relative : OcrRelativeCandidate → Candidate
  image_anchor_of : ImageAnchorCandidate → Candidate
  rendered_text : (value : String) (mode : MatchMode) → Candidate
  rendered_labeled_control : (label : String) (mode : MatchMode) → Candidate
  rendered_field_value :
      (label : String) (mode : MatchMode) (relation : Option Relation) → Candidate
  rendered_group_image :
      (group_label : String) (mode : MatchMode) (asset_key content_hash : String) → Candidate

pub record LocatorScope : Type 0 where
  pub window : String
  pub frame_path : List LocatorCandidate

pub record TargetState : Type 0 where
  pub visible : Bool
  pub enabled : Option Bool

pub record LocatorBundle : Type 0 where
  pub description : String
  pub registered_risk : Option Risk
  pub scope : LocatorScope
  pub visual_candidates : List Candidate
  pub candidates : List LocatorCandidate
  pub state : TargetState
  pub tenant_overrides_allowed : Bool

-- `value is not None`
abbrev pub is_given : {A : Type 0} → Option A → Bool
is_given none = false
is_given (some a) = true

abbrev is_low : Portability → Bool
is_low low = true
is_low _ = false

-- `region + size > viewport`, of numbers that are there.
abbrev exceeds : Option ℕ → Option ℕ → Option ℕ → Bool
exceeds (some start) (some size) (some limit) = ltb limit (start + size)
exceeds _ _ _ = false

-- The fields that the strategy requires.
unfoldable pub check_required : LocatorCandidate → Result (Unit {0})
check_required c = by_strategy c.strategy
  where
    valued : Result (Unit {0})
    valued = raise_if (not (is_truthy c.value)) value_error

    by_strategy : Strategy → Result (Unit {0})
    by_strategy role_name = raise_if (not (is_truthy c.role && is_truthy c.name)) value_error
    by_strategy relative_text =
        raise_if (not (is_truthy c.anchor && is_truthy c.relation && is_truthy c.element))
          value_error
    by_strategy coordinates = do
      raise_if
          (not (
            is_given c.x
            && is_given c.y
            && is_given c.width
            && is_given c.height
            && is_given c.viewport_width
            && is_given c.viewport_height))
          value_error
      raise_if (exceeds c.x c.width c.viewport_width || exceeds c.y c.height c.viewport_height)
          value_error
      raise_if (not (is_low c.portability)) value_error
    by_strategy _ = valued

abbrev is_role_name : Strategy → Bool
is_role_name role_name = true
is_role_name _ = false

abbrev is_relative : Strategy → Bool
is_relative relative_text = true
is_relative _ = false

abbrev pub is_coordinates : Strategy → Bool
is_coordinates coordinates = true
is_coordinates _ = false

-- `populated - allowed`
unfoldable pub has_unrelated : LocatorCandidate → Bool
has_unrelated c =
    let named = is_role_name c.strategy in
    let relative = is_relative c.strategy in
    let region = is_coordinates c.strategy in
    (is_given c.value && (named || relative || region))
    || ((is_given c.role || is_given c.name) && not named)
    || ((is_given c.anchor || is_given c.relation || is_given c.element || is_given c.text)
        && not relative)
    || ((is_given c.x
          || is_given c.y
          || is_given c.width
          || is_given c.height
          || is_given c.viewport_width
          || is_given c.viewport_height)
        && not region)
    || (is_given c.capture_group_label && not region)

-- `LocatorCandidate.validate_strategy_fields`
unfoldable pub check_locator : LocatorCandidate → Result (Unit {0})
unfolding check_required has_unrelated
check_locator c = do check_required c; raise_if (has_unrelated c) value_error

-- `ImageAnchorCandidate.validate_scale_range`
unfoldable pub check_image_anchor : ImageAnchorCandidate → Result (Unit {0})
check_image_anchor c = do
  raise_if (float_ltb c.maximum_scale c.minimum_scale) value_error
  raise_if (not (is_given c.context_anchor == is_given c.relative_search_region)) value_error
  raise_if (is_given c.context_anchor && is_given c.search_region) value_error

-- `OcrRelativeCandidate.validate_target`, `InputTextCandidate.require_complete_relation` and
-- `ImageAnchorCandidate.validate_scale_range`.
unfoldable pub check_candidate : Candidate → Result (Unit {0})
unfolding check_image_anchor
check_candidate (ocr_relative c) =
    raise_if (is_given c.target_text == is_given c.relative_region) value_error
check_candidate (input_text path target relation) =
    raise_if (not (is_given target == is_given relation)) value_error
check_candidate (image_anchor_of c) = check_image_anchor c
check_candidate _ = ok tt

-- `LocatorBundle.validate_candidates`
abbrev pub check_bundle : LocatorBundle → Result (Unit {0})
check_bundle b = raise_if (is_nil b.visual_candidates && is_nil b.candidates) value_error
