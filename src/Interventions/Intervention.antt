-- ===== src/Interventions/Intervention.antt =====
-- interventions/models.py: an intervention and the transitions of its lifecycle.
pub mod Lifecycle
use replay_forge.Base.{
  Bool, Option, Result, String, false, intervention_transition, leb, ltb, none, not, ok, raise_if,
  rank_beq, some, true, value_error, ℕ, ◌&&◌, ◌>>◌, ◌||◌,
}
use replay_forge.Text.{is_blank, is_empty, is_identifier, len}
use replay_forge.Shared.Clock.{Datetime, lacks_offset}
use replay_forge.Shared.Ids.{EntityId, EntityKind, check_id}
use replay_forge.Interventions.Owner.{is_some}
use replay_forge.Interventions.Lease.{bool_ne}
use replay_forge.Interventions.Context.{InterventionContext, present_and}

pub data Status : Type 0 where
  open_ claimed resuming resolved terminated : Status

abbrev status_rank : Status → ℕ
status_rank open_ = 0
status_rank claimed = 1
status_rank resuming = 2
status_rank resolved = 3
status_rank terminated = 4

abbrev pub status_beq : Status → Status → Bool
status_beq = rank_beq status_rank

-- The statuses of an intervention that is still handled.
abbrev pub is_active : Status → Bool
is_active open_ = true
is_active claimed = true
is_active resuming = true
is_active _ = false

abbrev requires_operator : Status → Bool
requires_operator claimed = true
requires_operator resuming = true
requires_operator resolved = true
requires_operator _ = false

abbrev requires_resolution : Status → Bool
requires_resolution resolved = true
requires_resolution terminated = true
requires_resolution _ = false

pub record Intervention : Type 0 where
  pub id : EntityId
  pub run_id : EntityId
  pub session_id : EntityId
  pub trigger_code : String
  pub explanation : String
  pub status : Status
  pub created_at : Datetime
  pub context : InterventionContext
  pub operator_id : Option String
  pub resolution : Option String

-- `[a-z][a-z0-9_]{0,63}`
unfoldable pub is_trigger_code : String → Bool
is_trigger_code s = is_identifier s && leb (len s) 64

-- What does not change in a lifecycle: the identities, the code and the creation time.
unfoldable pub check_identity : Intervention → Result (Unit {0})
check_identity i = do
  check_id i.id EntityKind.intervention
  check_id i.run_id EntityKind.run
  check_id i.session_id EntityKind.session
  raise_if (not (is_trigger_code i.trigger_code)) value_error

-- The status against the operator and the resolution.
unfoldable pub check_ownership : Intervention → Result (Unit {0})
check_ownership i = do
  raise_if (requires_operator i.status && not (is_some i.operator_id)) value_error
  raise_if (status_beq i.status open_ && is_some i.operator_id) value_error
  raise_if (bool_ne (requires_resolution i.status) (is_some i.resolution)) value_error
  raise_if (present_and is_blank i.operator_id) value_error
  raise_if (present_and is_blank i.resolution) value_error

-- `Intervention.__post_init__`
unfoldable pub check_intervention : Intervention → Result (Unit {0})
check_intervention i = do
  check_identity i
  raise_if (is_blank i.explanation || ltb 1000 (len i.explanation)) value_error
  raise_if (lacks_offset i.created_at) value_error
  check_ownership i

-- `Intervention(...)`, and `replace` of one, which runs the same checks.
unfoldable pub intervention : Intervention → Result Intervention
intervention i = do check_intervention i; ok i

unfoldable pub claim : Intervention → String → Result Intervention
claim i operator = do
  raise_if (not (status_beq i.status open_)) intervention_transition
  raise_if (is_empty operator) value_error
  intervention (record i { status = claimed; operator_id = some operator })

unfoldable pub release : Intervention → Result Intervention
release i = do
  raise_if (not (status_beq i.status claimed)) intervention_transition
  intervention (record i { status = open_; operator_id = none })

pub reassign : Intervention → String → Result Intervention
reassign i operator = do
  raise_if (not (status_beq i.status claimed)) intervention_transition
  raise_if (is_empty operator) value_error
  intervention (record i { operator_id = some operator })

unfoldable pub begin_resume : Intervention → Result Intervention
begin_resume i = do
  raise_if (not (status_beq i.status claimed)) intervention_transition
  intervention (record i { status = resuming })

unfoldable pub reopen : Intervention → String → Result Intervention
reopen i explanation = do
  raise_if (not (status_beq i.status resuming)) intervention_transition
  raise_if (is_blank explanation) value_error
  intervention (record i { status = open_; operator_id = none; explanation = explanation })

pub resolve : Intervention → String → Result Intervention
resolve i resolution = do
  raise_if (not (status_beq i.status resuming)) intervention_transition
  raise_if (is_blank resolution) value_error
  intervention (record i { status = resolved; resolution = some resolution })

unfoldable pub terminate : Intervention → String → Result Intervention
terminate i resolution = do
  raise_if (not (status_beq i.status open_ || status_beq i.status claimed)) intervention_transition
  raise_if (is_blank resolution) value_error
  intervention (record i { status = terminated; resolution = some resolution })
