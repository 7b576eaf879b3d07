-- ===== src/Policy/Evaluator/Returns.antt =====
-- When `evaluate` returns a decision, and when building it raises.
use replay_forge.Shared.Ids.{EntityId, EntityKind, check_id}
use replay_forge.Base.{
  [], arith, err, false, if◌then◌else◌, nat_eq, ok, option_eq, pair_eq, refl, string_eq, true,
  value_error, ℕ, ◌∷◌, ◌≡◌,
}
use replay_forge.Text.{every, is_blank, is_identifier}
use replay_forge.Shared.Clock.{datetime_eq, utc}
use replay_forge.Policy.Types.{Decision, allow, class_eq, deny, require_human_approval}
use replay_forge.Policy.Layers.{EffectivePolicy, member}
use replay_forge.Policy.Routes.{Library}
use replay_forge.Policy.Decisions.{PolicyDecision, check_decision, is_bad_list}
use replay_forge.Policy.Evaluator.{ActionContext, evaluate, evidence_of, infer_risk, verdict}

-- The reason codes are identifiers.
reason_0 : is_identifier "control_owner_mismatch" ≡ true
unfolding is_identifier
reason_0 = refl

reason_1 : is_identifier "principal_mode_mismatch" ≡ true
unfolding is_identifier
reason_1 = refl

reason_2 : is_identifier "origin_not_allowed" ≡ true
unfolding is_identifier
reason_2 = refl

reason_3 : is_identifier "route_not_allowed" ≡ true
unfolding is_identifier
reason_3 = refl

reason_4 : is_identifier "action_not_allowed" ≡ true
unfolding is_identifier
reason_4 = refl

reason_5 : is_identifier "field_classification_forbidden" ≡ true
unfolding is_identifier
reason_5 = refl

reason_6 : is_identifier "irreversible_action_blocked" ≡ true
unfolding is_identifier
reason_6 = refl

reason_7 : is_identifier "risk_exceeds_policy" ≡ true
unfolding is_identifier
reason_7 = refl

reason_8 : is_identifier "sensitive_action_requires_approval" ≡ true
unfolding is_identifier
reason_8 = refl

reason_9 : is_identifier "policy_allowed" ≡ true
unfolding is_identifier
reason_9 = refl

module _ (lib : Library) where
  reason-is_identifier :
      (p : EffectivePolicy) (c : ActionContext) → is_identifier (verdict lib p c).1 ≡ true
  unfolding verdict
  reason-is_identifier p c = ground (
    arith, reason_0, reason_1, reason_2, reason_3, reason_4, reason_5, reason_6, reason_7, reason_8,
    reason_9,
  )

  directives-good : is_bad_list ("mask_customer_identifiers" ∷ []) ≡ false
  unfolding is_bad_list is_blank member every
  directives-good = refl

  evidence-good : (d : Decision) → is_bad_list (evidence_of lib d) ≡ false
  unfolding is_bad_list is_blank member every
  evidence-good deny = refl
  evidence-good allow = refl
  evidence-good require_human_approval = refl

  abbrev pub decision_of : EffectivePolicy → ActionContext → EntityId → ℕ → PolicyDecision
  decision_of p c id now = record {
    id = id;
    decision = (verdict lib p c).0;
    reason_code = (verdict lib p c).1;
    matched_layers = p.layer_names;
    effective_risk = infer_risk lib c;
    required_evidence = evidence_of lib (verdict lib p c).0;
    redaction_directives = "mask_customer_identifiers" ∷ [];
    evaluated_at = utc now;
  }

  -- With an identifier of a decision, `evaluate` returns exactly when the policy's layers have
  -- names that are neither missing, blank nor repeated, and raises ValueError otherwise, whatever
  -- the action is; what it returns carries the decision, the reason and the risk of the evaluator.
  pub evaluate_returns :
      (p : EffectivePolicy) (c : ActionContext) (id : EntityId) (now : ℕ)
      → check_id id EntityKind.decision ≡ ok tt
      → evaluate lib p c id now
        ≡ (if is_bad_list p.layer_names then err value_error else ok (decision_of p c id now))
  unfolding evaluate check_decision
  evaluate_returns p c id now valid =
      ground
        (arith, valid, reason-is_identifier p c, evidence-good (verdict lib p c).0, directives-good)
