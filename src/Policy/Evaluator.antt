-- ===== src/Policy/Evaluator.antt =====
-- policy/evaluator.py: risk inference and the evaluation of one action. The decision's identifier
-- is what `new_id` gives, an argument; `now` is the clock's reading.
pub mod Restriction
pub mod Returns
pub mod Risks
use replay_forge.Base.{
  Bool, List, Option, Result, String, [], any, false, if◌then◌else◌, ltb, nat_eq, nat_eqb, none,
  not, ok, option_eq, pair_eq, some, string_eq, ℕ, ◌&&◌, ◌==◌, ◌>>◌, ◌||◌, ◌∷◌,
}
use replay_forge.Text.{append, contains}
use replay_forge.Shared.Ids.{EntityId}
use replay_forge.Shared.Clock.{datetime_eq, utc}
use replay_forge.Policy.Types.{
  DataClassification, Decision, PrincipalType, Risk, RunMode, allow, automation, class_eq, deny,
  irreversible, is_human, is_human_control, max_risk, read_only, require_human_approval, reversible,
  risk_rank, sensitive,
}
use replay_forge.Policy.Layers.{EffectivePolicy, member}
use replay_forge.Policy.Routes.{Library, canonical_origin, route_matches}
use replay_forge.Policy.Decisions.{PolicyDecision, check_decision}

pub record ActionContext : Type 0 where
  pub principal_type : PrincipalType
  pub principal_id : String
  pub run_mode : RunMode
  pub application_family : String
  pub tenant : String
  pub origin : String
  pub route : String
  pub action_type : String
  pub target_description : String
  pub declared_risk : Risk
  pub control_owner : String
  pub field_classification : Option DataClassification
  pub registered_target_risk : Option Risk

-- `_SENSITIVE_TARGET_WORDS`
abbrev pub sensitive_words : List String
sensitive_words = "transfer" ∷ "wire" ∷ "close account" ∷ "approve" ∷ "reveal" ∷ "full account" ∷ []

-- `_IRREVERSIBLE_TARGET_WORDS`
abbrev pub irreversible_words : List String
irreversible_words = "submit transfer" ∷ "send wire" ∷ "close account" ∷ "delete account" ∷ []

-- `any(word in description for word in words)`
unfoldable pub mentions : String → List String → Bool
mentions description words = any (contains description) words

abbrev pub risk_or : Option Risk → Risk → Risk
risk_or none default = default
risk_or (some r) default = r

-- `classification in policy.forbidden_field_classes`, which holds no `None`.
abbrev pub is_forbidden : Option DataClassification → List DataClassification → Bool
is_forbidden none classes = false
is_forbidden (some c) classes = member c classes

-- `origin in policy.allowed_origins`, likewise.
abbrev pub is_allowed_origin : Option String → List String → Bool
is_allowed_origin none origins = false
is_allowed_origin (some o) origins = member o origins

module _ (lib : Library) where
  -- What the context's own description and registration suggest.
  unfoldable pub inferred_risk : ActionContext → Risk
  inferred_risk c =
      let description = lib.casefold c.target_description in
      if c.action_type == "scroll"
      then risk_or c.registered_target_risk read_only
      else if mentions description irreversible_words
      then irreversible
      else if mentions description sensitive_words
      then sensitive
      else risk_or c.registered_target_risk
          (if c.action_type == "type" || c.action_type == "select" then reversible else read_only)

  -- `_infer_risk`
  unfoldable pub infer_risk : ActionContext → Risk
  infer_risk c = max_risk c.declared_risk (inferred_risk c)

  -- `location_allowed`
  unfoldable pub location_allowed : EffectivePolicy → String → String → Bool
  location_allowed policy origin route =
      is_allowed_origin (canonical_origin lib origin) policy.allowed_origins
      && any (route_matches route) policy.allowed_route_patterns

  expected_owner : ActionContext → String
  expected_owner c =
      if is_human c.principal_type then append "human:" c.principal_id else "automation"

  -- The decision and its reason code, branch by branch of `evaluate`.
  unfoldable pub verdict : EffectivePolicy → ActionContext → Decision × String
  unfolding expected_owner
  verdict policy c =
      let risk = infer_risk c in
      if not (c.control_owner == expected_owner c)
      then (deny, "control_owner_mismatch")
      else if is_human c.principal_type && not (is_human_control c.run_mode)
      then (deny, "principal_mode_mismatch")
      else if not (is_allowed_origin (canonical_origin lib c.origin) policy.allowed_origins)
      then (deny, "origin_not_allowed")
      else if not (location_allowed policy c.origin c.route)
      then (deny, "route_not_allowed")
      else if not (member c.action_type policy.allowed_action_types)
      then (deny, "action_not_allowed")
      else if is_forbidden c.field_classification policy.forbidden_field_classes
      then (deny, "field_classification_forbidden")
      else if nat_eqb (risk_rank risk) (risk_rank irreversible)
      then (deny, "irreversible_action_blocked")
      else if ltb (risk_rank policy.maximum_risk) (risk_rank risk)
      then (deny, "risk_exceeds_policy")
      else if nat_eqb (risk_rank risk) (risk_rank sensitive)
      then (require_human_approval, "sensitive_action_requires_approval")
      else (allow, "policy_allowed")

  abbrev pub evidence_of : Decision → List String
  evidence_of deny = "policy_context" ∷ []
  evidence_of require_human_approval = "policy_context" ∷ "pre_action_screenshot" ∷ []
  evidence_of allow = "action_intent" ∷ "action_result" ∷ []

  -- `evaluate`
  unfoldable pub evaluate : EffectivePolicy → ActionContext → EntityId → ℕ → Result PolicyDecision
  evaluate policy c id now =
      let (decision, reason) = verdict policy c in
      let d : PolicyDecision = record {
        id = id;
        decision = decision;
        reason_code = reason;
        matched_layers = policy.layer_names;
        effective_risk = infer_risk c;
        required_evidence = evidence_of decision;
        redaction_directives = "mask_customer_identifiers" ∷ [];
        evaluated_at = utc now;
      } in
      do check_decision d; ok d
