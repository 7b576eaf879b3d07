-- ===== src/Policy/Decisions.antt =====
-- policy/models.py: a policy decision, as its constructor admits it. The explanation, a constant of
-- each branch, is left out; the reason code tells the branches apart.
use replay_forge.Base.{
  Bool, List, Result, String, [], any, false, nat_eq, not, option_eq, pair_eq, raise_if, string_eq,
  true, value_error, ◌>>◌, ◌||◌, ◌∷◌,
}
use replay_forge.Text.{is_blank, is_identifier}
use replay_forge.Shared.Ids.{EntityId, EntityKind, check_id}
use replay_forge.Shared.Clock.{Datetime, datetime_eq, lacks_offset}
use replay_forge.Policy.Types.{Decision, Risk, class_eq}
use replay_forge.Policy.Layers.{member}

pub record PolicyDecision : Type 0 where
  pub id : EntityId
  pub decision : Decision
  pub reason_code : String
  pub matched_layers : List String
  pub effective_risk : Risk
  pub required_evidence : List String
  pub redaction_directives : List String
  pub evaluated_at : Datetime

-- `len(values) != len(set(values))`
unfoldable pub repeats : List String → Bool
repeats [] = false
repeats (x ∷ xs) = member x xs || repeats xs

-- `not values or len(values) != len(set(values)) or any(not value.strip() for value in values)`
unfoldable pub is_bad_list : List String → Bool
unfolding repeats
is_bad_list [] = true
is_bad_list (x ∷ xs) = repeats (x ∷ xs) || any is_blank (x ∷ xs)

-- `PolicyDecision.__post_init__`
unfoldable pub check_decision : PolicyDecision → Result (Unit {0})
check_decision d = do
  check_id d.id EntityKind.decision
  raise_if (not (is_identifier d.reason_code)) value_error
  raise_if
      (is_bad_list d.matched_layers
        || is_bad_list d.required_evidence
        || is_bad_list d.redaction_directives)
      value_error
  raise_if (lacks_offset d.evaluated_at) value_error
