-- ===== src/Interventions/Lease.antt =====
-- interventions/models.py: the control lease, as its constructor admits it.
pub mod Valid
use replay_forge.Base.{
  Bool, Option, Result, false, leb, ltb, none, not, ok, raise_if, some, true, value_error, ℕ, ◌&&◌,
  ◌>>◌, ◌||◌,
}
use replay_forge.Shared.Clock.{Datetime, lacks_offset}
use replay_forge.Shared.Ids.{EntityId, EntityKind, check_id, check_optional_id}
use replay_forge.Interventions.Owner.{ControlOwner, OwnerKind, automation_paused, human}

pub record ControlLease : Type 0 where
  pub session_id : EntityId
  pub owner : ControlOwner
  pub version : ℕ
  pub issued_at : Datetime
  pub last_heartbeat : Datetime
  pub expires_at : Datetime
  pub intervention_id : Option EntityId

-- The kinds that are bound to an intervention.
abbrev pub requires_intervention : OwnerKind → Bool
requires_intervention automation_paused = true
requires_intervention human = true
requires_intervention _ = false

abbrev pub is_bound : Option EntityId → Bool
is_bound none = false
is_bound (some _) = true

abbrev pub bool_ne : Bool → Bool → Bool
bool_ne true b = not b
bool_ne false b = b

-- `ControlLease.__post_init__`
unfoldable pub check_lease : ControlLease → Result (Unit {0})
check_lease l = do
  check_id l.session_id EntityKind.session
  check_optional_id l.intervention_id EntityKind.intervention
  raise_if (ltb l.version 1) value_error
  raise_if (lacks_offset l.issued_at || lacks_offset l.last_heartbeat || lacks_offset l.expires_at)
      value_error
  raise_if
      (not (
        leb l.issued_at.instant l.last_heartbeat.instant
        && ltb l.last_heartbeat.instant l.expires_at.instant))
      value_error
  raise_if (bool_ne (requires_intervention l.owner.kind) (is_bound l.intervention_id)) value_error

-- `ControlLease(...)`, and `replace` of a lease, which runs the same checks.
unfoldable pub control_lease : ControlLease → Result ControlLease
control_lease l = do check_lease l; ok l
