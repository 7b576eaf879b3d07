-- ===== src/Capabilities/Conditions.antt =====
-- capabilities/models.py and capabilities/conditions.py: conditions and their inspection. Equality
-- of two conditions is the one of their model class, an argument.
pub mod Distinct
use replay_forge.Base.{
  Bool, Float, List, Option, String, [], all, any, false, is_nil, not, true, ◌&&◌, ◌++◌, ◌||◌, ◌∷◌,
}
use replay_forge.Capabilities.Targets.{
  LocatorBundle, MatchMode, NormalizedRegion, rendered_text, text,
}

pub data ElementState : Type 0 where
  exists_ absent visible hidden enabled disabled : ElementState

mutual
  pub data Condition : Type 0 where
    route_condition : (pattern : String) → Condition
    text_condition : (value : String) (mode : MatchMode) → Condition
    rendered_text_condition : (value : String) (mode : MatchMode) → Condition
    visual_text_condition :
        (value : String) (mode : MatchMode) (search_region : Option NormalizedRegion)
        (minimum_confidence : Float)
        → Condition
    element_condition : (target : LocatorBundle) (state : ElementState) → Condition
    output_valid : (output : String) → Condition
    output_equals : (output value : String) → Condition
    identity_matches : (extracted_output input_path : String) → Condition
    all_of : Conditions → Condition
    any_of : Conditions → Condition
    not_ : Condition → Condition

  pub data Conditions : Type 0 where
    no_more : Conditions
    more : Condition → Conditions → Conditions

-- `kind`
pub condition_kind : Condition → String
condition_kind (route_condition p) = "route"
condition_kind (text_condition v m) = "text"
condition_kind (rendered_text_condition v m) = "rendered_text"
condition_kind (visual_text_condition v m r f) = "visual_text"
condition_kind (element_condition t s) = "element"
condition_kind (output_valid o) = "output_valid"
condition_kind (output_equals o v) = "output_equals"
condition_kind (identity_matches o p) = "identity_matches"
condition_kind (all_of cs) = "all"
condition_kind (any_of cs) = "any"
condition_kind (not_ c) = "not"

unfoldable mutual
  -- `condition_outputs`, a set as a list.
  pub condition_outputs : Condition → List String
  condition_outputs (all_of cs) = conditions_outputs cs
  condition_outputs (any_of cs) = conditions_outputs cs
  condition_outputs (not_ c) = condition_outputs c
  condition_outputs (identity_matches output path) = output ∷ []
  condition_outputs (output_valid output) = output ∷ []
  condition_outputs (output_equals output value) = output ∷ []
  condition_outputs _ = []

  pub conditions_outputs : Conditions → List String
  conditions_outputs no_more = []
  conditions_outputs (more c cs) = condition_outputs c ++ conditions_outputs cs

unfoldable mutual
  -- `contains_identity`
  pub contains_identity : Condition → Bool
  contains_identity (identity_matches output path) = true
  contains_identity (all_of cs) = any_identity cs
  contains_identity (any_of cs) = any_identity cs
  contains_identity (not_ c) = contains_identity c
  contains_identity _ = false

  pub any_identity : Conditions → Bool
  any_identity no_more = false
  any_identity (more c cs) = contains_identity c || any_identity cs

abbrev if_any : Condition → List Condition → List Condition
if_any c [] = []
if_any c (d ∷ ds) = c ∷ []

unfoldable mutual
  -- `surface_conditions`
  pub surface_conditions : Condition → List Condition
  surface_conditions (route_condition p) = route_condition p ∷ []
  surface_conditions (text_condition v m) = text_condition v m ∷ []
  surface_conditions (rendered_text_condition v m) = rendered_text_condition v m ∷ []
  surface_conditions (visual_text_condition v m r f) = visual_text_condition v m r f ∷ []
  surface_conditions (element_condition t s) = element_condition t s ∷ []
  surface_conditions (all_of cs) = surfaces_of cs
  surface_conditions (any_of cs) = surfaces_of cs
  surface_conditions (not_ c) = if_any (not_ c) (surface_conditions c)
  surface_conditions _ = []

  pub surfaces_of : Conditions → List Condition
  surfaces_of no_more = []
  surfaces_of (more c cs) = surface_conditions c ++ surfaces_of cs

module _ (equals : Condition → Condition → Bool) where
  -- The last line of `proves_distinct_surface`.
  abbrev pub is_other_surface : Condition → Condition → Bool
  is_other_surface c blocked = not (is_nil (surface_conditions c)) && not (equals c blocked)

  unfoldable mutual
    -- `proves_distinct_surface`
    pub proves_distinct_surface : Condition → Condition → Bool
    proves_distinct_surface (all_of cs) blocked = any_proves cs blocked
    proves_distinct_surface (any_of cs) blocked = all_prove cs blocked
    proves_distinct_surface c blocked = is_other_surface c blocked

    pub any_proves : Conditions → Condition → Bool
    any_proves no_more blocked = false
    any_proves (more c cs) blocked = proves_distinct_surface c blocked || any_proves cs blocked

    pub all_prove : Conditions → Condition → Bool
    all_prove no_more blocked = true
    all_prove (more c cs) blocked = proves_distinct_surface c blocked && all_prove cs blocked
