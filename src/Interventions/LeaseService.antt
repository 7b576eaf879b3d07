-- ===== src/Interventions/LeaseService.antt =====
-- interventions/leases.py: the in-memory lease repository and the lease service over it. A lock is
-- held through each repository method, so one is one step. The arguments `asserted`, `checked` and
-- `now` are the clock's readings, in the order in which the method takes them.
pub mod Steps
pub mod Success
pub mod Stale
pub mod Held
use replay_forge.Base.{
  Bool, Option, String, err, false, if◌then◌else◌, lease_conflict, ltb, nat_eq, nat_eqb, none, not,
  ok, option_eq, pair_eq, raise_if, some, string_eq, true, value_error, ℕ, ◌+◌, ◌==◌, ◌||◌,
}
use replay_forge.Text.{is_empty}
use replay_forge.Dict.{insert, lookup, lookup-insert_eq}
use replay_forge.Action.{Action, lift, reads, ◌>>=◌, ◌>>◌}
use replay_forge.Shared.Clock.{datetime_eq, utc}
use replay_forge.Shared.Ids.{EntityId, EntityKind, parse_id}
use replay_forge.Interventions.Owner.{
  ControlOwner, automation_owner, control_owner, human, is_human, no_owner, owner_eq, paused_owner,
}
use replay_forge.Interventions.Lease.{ControlLease, control_lease}
use replay_forge.Interventions.LeaseRules.{
  Leases, assert_can_act, check_swap, get, prepare_heartbeat, prepare_transfer,
}

is_present : Option ControlLease → Bool
is_present none = false
is_present (some l) = true

-- `InMemoryControlLeaseRepository.create`
unfoldable pub create : ControlLease → Action Leases ControlLease
unfolding is_present
create lease leases =
    if is_present (lookup leases lease.session_id)
    then (err lease_conflict, leases)
    else (ok lease, insert leases lease.session_id lease)

-- `InMemoryControlLeaseRepository.compare_and_swap`
unfoldable pub compare_and_swap :
    EntityId → ℕ → ControlOwner → ControlLease → Action Leases ControlLease
compare_and_swap session version owner replacement = do
  current ← reads (get session)
  lift (check_swap current version owner replacement)
  λ leases. (ok replacement, insert leases session replacement)

-- `current.version != expected_version or current.intervention_id != parsed_intervention_id`
abbrev is_unbound : ControlLease → ℕ → EntityId → Bool
is_unbound current version id =
    not (nat_eqb current.version version) || not (current.intervention_id == some id)

module _ (ttl : ℕ) where
  -- `_transfer`
  unfoldable pub transfer :
      EntityId
      → ℕ
      → ControlOwner
      → ControlOwner
      → Option EntityId
      → Bool
      → ℕ
      → ℕ
      → Action Leases ControlLease
  transfer session version owner next_owner intervention require_unexpired checked now = do
    current ← reads (get session)
    replacement ← lift (
        prepare_transfer ttl current version owner next_owner intervention require_unexpired checked
          now)
    compare_and_swap session version owner replacement

  unfoldable pub create_for_automation : String → ℕ → Action Leases ControlLease
  create_for_automation session now = do
    id ← lift (parse_id session (some EntityKind.session))
    lease ← lift (
        control_lease (record {
          session_id = id;
          owner = automation_owner;
          version = 1;
          issued_at = utc now;
          last_heartbeat = utc now;
          expires_at = utc (now + ttl);
          intervention_id = none;
        }))
    create lease

  unfoldable pub pause : EntityId → ℕ → String → ℕ → ℕ → Action Leases ControlLease
  pause session version intervention checked now = do
    id ← lift (parse_id intervention (some EntityKind.intervention))
    transfer session version automation_owner paused_owner (some id) true checked now

  unfoldable pub claim : EntityId → ℕ → String → String → ℕ → Action Leases ControlLease
  claim session version intervention operator now = do
    lift (raise_if (is_empty operator) value_error)
    id ← lift (parse_id intervention (some EntityKind.intervention))
    current ← reads (get session)
    lift (raise_if (not (current.intervention_id == some id)) lease_conflict)
    owner ← lift (control_owner human (some operator))
    transfer session version paused_owner owner (some id) false now now

  pub reclaim_expired : EntityId → ℕ → String → String → ℕ → ℕ → Action Leases ControlLease
  reclaim_expired session version intervention operator checked now = do
    current ← reads (get session)
    id ← lift (parse_id intervention (some EntityKind.intervention))
    lift (raise_if (is_unbound current version id) lease_conflict)
    lift (raise_if (not (is_human current.owner.kind)) lease_conflict)
    lift (raise_if (ltb checked current.expires_at.instant) lease_conflict)
    owner ← lift (control_owner human (some operator))
    transfer session version current.owner owner (some id) false now now

  -- `release`, and `begin_resume`, which calls it.
  unfoldable pub release : EntityId → ℕ → String → ℕ → ℕ → Action Leases ControlLease
  release session version operator checked now = do
    current ← reads (get session)
    owner ← lift (control_owner human (some operator))
    transfer session version owner paused_owner current.intervention_id true checked now

  unfoldable pub complete_resume : EntityId → ℕ → ℕ → ℕ → Action Leases ControlLease
  complete_resume session version checked now =
      transfer session version paused_owner automation_owner none true checked now

  unfoldable pub terminate : EntityId → ℕ → ControlOwner → ℕ → ℕ → Action Leases ControlLease
  terminate session version owner checked now =
      transfer session version owner no_owner none (not (owner == paused_owner)) checked now

  unfoldable pub heartbeat : EntityId → ℕ → ControlOwner → ℕ → ℕ → ℕ → Action Leases ControlLease
  heartbeat session version owner asserted checked now = do
    current ← reads (assert_can_act session version owner asserted)
    replacement ← lift (prepare_heartbeat ttl current version owner checked now)
    compare_and_swap session version owner replacement
