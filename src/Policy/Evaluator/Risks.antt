-- ===== src/Policy/Evaluator/Risks.antt =====
-- What the evaluator's risks and decisions are, in terms of the context and of the policy.
use replay_forge.Base.{
  any, arith, bool_eq, eq→≡, false, inl, inr, nat_eq, not, option_eq, pair_eq, refl, some,
  string_eq, true, ≡→eq, ◌&&◌, ◌<◌, ◌==◌, ◌↔◌, ◌≡◌, ◌≢◌, ◌≤◌, ◌⊎◌,
}
use replay_forge.Text.{append}
use replay_forge.Shared.Clock.{datetime_eq}
use replay_forge.Policy.Types.{
  PrincipalType, Risk, RunMode, allow, automation, class_eq, deny, human, human_control,
  irreversible, is_human, is_human_control, require_human_approval, risk_rank, sensitive,
}
use replay_forge.Policy.Layers.{EffectivePolicy, member}
use replay_forge.Policy.Routes.{Library, canonical_origin, route_matches}
use replay_forge.Policy.Evaluator.{
  ActionContext, expected_owner, infer_risk, inferred_risk, irreversible_words, is_allowed_origin,
  is_forbidden, location_allowed, mentions, sensitive_words, verdict,
}

-- Who must own control for a context's principal to act, as a relation.
pub data Owns (c : ActionContext) : Type 0 where
  by_automation : c.principal_type ≡ automation → c.control_owner ≡ "automation" → Owns c
  by_human :
      c.principal_type ≡ human
      → c.run_mode ≡ human_control
      → c.control_owner ≡ append "human:" c.principal_id
      → Owns c

-- Everything that a policy asks of an action before it looks at the risk.
pub record IsWithin (lib : Library) (p : EffectivePolicy) (c : ActionContext) : Type 0 where
  pub owns : Owns c
  pub origin : is_allowed_origin (canonical_origin lib c.origin) p.allowed_origins ≡ true
  pub route : any (route_matches c.route) p.allowed_route_patterns ≡ true
  pub action : member c.action_type p.allowed_action_types ≡ true
  pub class : is_forbidden c.field_classification p.forbidden_field_classes ≡ false

kind_cases : (k : PrincipalType) → (k ≡ human) ⊎ (k ≡ automation)
kind_cases human = inl refl
kind_cases automation = inr refl

mode_if : (m : RunMode) → is_human_control m ≡ true → m ≡ human_control
mode_if m h = ground (arith, h)

module _ (lib : Library) where
  tests-Owns :
      (c : ActionContext)
      → (c.control_owner == expected_owner lib c) ≡ true
      → is_human c.principal_type && not (is_human_control c.run_mode) ≡ false
      → Owns c
  unfolding expected_owner
  tests-Owns c o m = elim (kind_cases c.principal_type) [
    | inl h ↦
        by_human h (mode_if c.run_mode (ground (arith, m, h)))
          (ground (arith, o, h, eq→≡ c.control_owner (append "human:" c.principal_id)))
    | inr a ↦ by_automation a (ground (arith, o, a, eq→≡ c.control_owner "automation"))
  ]

  Owns-tests :
      (c : ActionContext)
      → Owns c
      → ((c.control_owner == expected_owner lib c) ≡ true)
        × (is_human c.principal_type && not (is_human_control c.run_mode) ≡ false)
  unfolding expected_owner
  Owns-tests c (by_automation a o) = ground (arith, a, o, ≡→eq c.control_owner "automation")
  Owns-tests c (by_human h m o) =
      ground (arith, h, m, o, ≡→eq c.control_owner (append "human:" c.principal_id))

  -- An action is not denied exactly when it is inside the policy, and its risk is below irreversible
  -- and not above the policy's ceiling.
  pub not_denied_iff :
      (p : EffectivePolicy) (c : ActionContext)
      → ((verdict lib p c).0 ≢ deny) ↔ (
          IsWithin lib p c
          × (risk_rank (infer_risk lib c) < risk_rank irreversible)
          × (risk_rank (infer_risk lib c) ≤ risk_rank p.maximum_risk))
  unfolding verdict location_allowed
  not_denied_iff p c = (
    λ h. (
      record {
        owns = tests-Owns c (ground (arith, h)) (ground (arith, h));
        origin = ground (arith, h);
        route = ground (arith, h);
        action = ground (arith, h);
        class = ground (arith, h);
      },
      ground (arith, h),
      ground (arith, h),
    ),
    λ h. ground (arith, h.0.origin, h.0.route, h.0.action, h.0.class, h.1, Owns-tests c h.0.owns),
  )

  -- An action is allowed outright exactly when it is inside the policy, and its risk is below
  -- sensitive and not above the policy's ceiling; a person has to approve it exactly when it is
  -- inside the policy, its risk is sensitive, and the policy's ceiling is sensitive or higher.
  pub permission_iff :
      (p : EffectivePolicy) (c : ActionContext)
      → (((verdict lib p c).0 ≡ allow) ↔ (
          IsWithin lib p c
          × (risk_rank (infer_risk lib c) < risk_rank sensitive)
          × (risk_rank (infer_risk lib c) ≤ risk_rank p.maximum_risk)))
        × (((verdict lib p c).0 ≡ require_human_approval) ↔ (
            IsWithin lib p c
            × (infer_risk lib c ≡ sensitive)
            × (risk_rank sensitive ≤ risk_rank p.maximum_risk)))
  unfolding verdict location_allowed
  permission_iff p c = (
    (
      λ h. (((not_denied_iff p c).0 (λ e. cc)).0, ground (arith, h), ground (arith, h)),
      λ h. ground (arith, h.0.origin, h.0.route, h.0.action, h.0.class, h.1, Owns-tests c h.0.owns),
    ),
    (
      λ h. (((not_denied_iff p c).0 (λ e. cc)).0, ground (arith, h), ground (arith, h)),
      λ h. ground (arith, h.0.origin, h.0.route, h.0.action, h.0.class, h.1, Owns-tests c h.0.owns),
    ),
  )

  -- The description holds a word that makes it sensitive and none that makes it irreversible, and
  -- the words are asked, since the action is no scroll.
  pub IsSensitiveByWords : ActionContext → Type 0
  IsSensitiveByWords c =
      (c.action_type == "scroll" ≡ false)
      × (mentions (lib.casefold c.target_description) irreversible_words ≡ false)
      × (mentions (lib.casefold c.target_description) sensitive_words ≡ true)

  -- The risk that a target is registered with is a floor of the inferred risk, except for a target
  -- that is registered as irreversible, is sensitive by its words, and whose step declares less
  -- than an irreversible risk: then, and only then, the inferred risk is below the registered one.
  pub registered_is_floor_unless :
      (c : ActionContext) (r : Risk)
      → c.registered_target_risk ≡ some r
      → (risk_rank (infer_risk lib c) < risk_rank r)
        ↔ (IsSensitiveByWords c × (r ≡ irreversible) × (c.declared_risk ≢ irreversible))
  unfolding infer_risk inferred_risk IsSensitiveByWords
  registered_is_floor_unless c r e = (λ h. ground (arith, e, h), λ h. ground (arith, e, h))
