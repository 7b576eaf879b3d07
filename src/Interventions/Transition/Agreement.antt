-- ===== src/Interventions/Transition/Agreement.antt =====
-- What the checks of a transition say of an intervention and its lease.
use replay_forge.Base.{
  arith, eq→≡, nat_eq, ok, option_beq_iff, option_eq, pair_eq, some, string_eq, true, ◌≡◌,
}
use replay_forge.Interventions.Lease.{ControlLease}
use replay_forge.Interventions.Intervention.{Intervention, claimed, is_active}
use replay_forge.Interventions.Transition.{check_transition, expected_kind}

module _ (i : Intervention) (l : ControlLease) {u : Unit {0}}
    (agrees : check_transition i l ≡ ok u) where
  pub same_session : i.session_id ≡ l.session_id
  unfolding check_transition
  same_session = ground (arith, eq→≡ i.session_id l.session_id)

  pub owner_kind : l.owner.kind ≡ expected_kind i.status
  unfolding check_transition
  owner_kind = ground arith

  -- An active intervention owns the binding of its lease.
  pub bound_to : is_active i.status ≡ true → l.intervention_id ≡ some i.id
  unfolding check_transition
  bound_to active = ground (arith, option_beq_iff l.intervention_id (some i.id))

  -- The operator of a claimed intervention is the human who owns the lease.
  pub principal : i.status ≡ claimed → l.owner.principal_id ≡ i.operator_id
  unfolding check_transition
  principal status = ground (arith, option_beq_iff l.owner.principal_id i.operator_id)
