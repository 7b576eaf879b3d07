-- ===== src/Surfaces/Observation.antt =====
-- surfaces/models.py: the normalized observation, as far as the other components read it. The
-- visual facts that only a surface adapter fills (controls, fields, tokens, dialog) are left out.
use replay_forge.Base.{
  Bool, List, Option, Result, String, any, false, none, not, raise_if, some, value_error, ◌>>◌,
  ◌||◌,
}
use replay_forge.Text.{contains, is_blank, starts_with}
use replay_forge.Shared.Clock.{Datetime, lacks_offset}
use replay_forge.Shared.Ids.{EntityId, EntityKind, check_id}

pub record Observation : Type 0 where
  pub id : EntityId
  pub session_id : EntityId
  pub captured_at : Datetime
  pub route : String
  pub fingerprint : String
  pub landmarks : List String
  pub frame_titles : List String
  pub screenshot_evidence_key : Option String

abbrev drops_evidence_scheme : Option String → Bool
drops_evidence_scheme none = false
drops_evidence_scheme (some key) = not (starts_with key "evidence://")

-- `NormalizedObservation.__post_init__`
pub check_observation : Observation → Result (Unit {0})
check_observation o = do
  check_id o.id EntityKind.event
  check_id o.session_id EntityKind.session
  raise_if (lacks_offset o.captured_at) value_error
  raise_if (not (starts_with o.route "/") || contains o.route "?" || contains o.route "#")
      value_error
  raise_if (is_blank o.fingerprint) value_error
  raise_if (any is_blank o.landmarks || any is_blank o.frame_titles) value_error
  raise_if (drops_evidence_scheme o.screenshot_evidence_key) value_error
