-- ===== src/Interventions/Transition.antt =====
-- interventions/transactions.py: an intervention beside the lease of its session.
pub mod Agreement
use replay_forge.Base.{
  Result, nat_eq, not, ok, option_eq, pair_eq, raise_if, some, string_eq, value_error, ◌&&◌, ◌==◌,
  ◌>>◌,
}
use replay_forge.Interventions.Owner.{
  OwnerKind, automation, automation_paused, human, kind_beq, no_one, owner_eq,
}
use replay_forge.Interventions.Lease.{ControlLease, is_bound}
use replay_forge.Interventions.Intervention.{
  Intervention, Status, claimed, is_active, open_, resolved, resuming, status_beq, terminated,
}

pub record Transition : Type 0 where
  pub intervention : Intervention
  pub lease : ControlLease

-- The table of the owner kind that each status expects.
abbrev pub expected_kind : Status → OwnerKind
expected_kind open_ = automation_paused
expected_kind claimed = human
expected_kind resuming = automation_paused
expected_kind resolved = automation
expected_kind terminated = no_one

-- `InterventionTransition.__post_init__`
unfoldable pub check_transition : Intervention → ControlLease → Result (Unit {0})
check_transition i l = do
  raise_if (not (i.session_id == l.session_id)) value_error
  raise_if (not (kind_beq l.owner.kind (expected_kind i.status))) value_error
  raise_if (is_active i.status && not (l.intervention_id == some i.id)) value_error
  raise_if (not (is_active i.status) && is_bound l.intervention_id) value_error
  raise_if (status_beq i.status claimed && not (l.owner.principal_id == i.operator_id)) value_error

-- `InterventionTransition(intervention, lease)`
pub transition : Intervention → ControlLease → Result Transition
transition i l = do check_transition i l; ok (record { intervention = i; lease = l })
