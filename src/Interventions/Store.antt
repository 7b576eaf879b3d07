-- ===== src/Interventions/Store.antt =====
-- interventions/transactions.py: the repository that changes an intervention and its lease as one
-- state unit, over the dictionaries of the router and of the lease repository. Both locks are held
-- through each method, so one is one step.
pub mod Coherence
pub mod Pausing
use replay_forge.Base.{
  Bool, Option, Result, err, false, intervention_conflict, intervention_not_found, lease_conflict,
  lease_not_found, nat_eq, nat_eqb, none, not, ok, option_eq, pair_eq, raise_if, some, string_eq,
  true, value_error, ℕ, ◌&&◌, ◌+◌, ◌==◌, ◌>>=◌, ◌>>◌, ◌||◌,
}
use replay_forge.Action.{Action}
use replay_forge.Dict.{Dict, insert, lookup, lookup-insert_eq}
use replay_forge.Surfaces.Observation.{Observation}
use replay_forge.Shared.Clock.{datetime_eq}
use replay_forge.Shared.Ids.{EntityId}
use replay_forge.Interventions.Owner.{ControlOwner, owner_eq}
use replay_forge.Interventions.Lease.{ControlLease}
use replay_forge.Interventions.LeaseRules.{Leases, is_stale}
use replay_forge.Interventions.Context.{context_beq}
use replay_forge.Interventions.Intervention.{Intervention, Status, status_beq}
use replay_forge.Interventions.Transition.{check_transition}

-- `_interventions` and `_observations` of the router, `_leases` of the lease repository.
pub record Store : Type 0 where
  pub interventions : Dict EntityId Intervention
  pub observations : Dict EntityId Observation
  pub leases : Leases

found_intervention : Option Intervention → Result Intervention
found_intervention none = err intervention_not_found
found_intervention (some i) = ok i

found_lease : Option ControlLease → Result ControlLease
found_lease none = err lease_not_found
found_lease (some l) = ok l

-- `_intervention`
find_intervention : EntityId → Store → Result Intervention
unfolding found_intervention
find_intervention id s = found_intervention (lookup s.interventions id)

-- `_lease`
unfoldable pub find_lease : EntityId → Store → Result ControlLease
unfolding found_lease
find_lease session s = found_lease (lookup s.leases session)

-- `get`
unfoldable pub get : EntityId → Store → Result (Intervention × ControlLease)
unfolding find_intervention find_lease
get id s = do
  i ← find_intervention id s
  l ← find_lease i.session_id s
  check_transition i l
  ok (i, l)

-- `_validate_intervention_replacement`
check_intervention_replacement : Intervention → Intervention → Result (Unit {0})
check_intervention_replacement current replacement =
    raise_if
      (not (replacement.id == current.id)
        || not (replacement.run_id == current.run_id)
        || not (replacement.session_id == current.session_id)
        || not (replacement.created_at == current.created_at)
        || not (replacement.trigger_code == current.trigger_code)
        || not (context_beq replacement.context current.context))
      value_error

lease_beq : ControlLease → ControlLease → Bool
lease_beq a b =
    a.session_id == b.session_id
    && a.owner == b.owner
    && nat_eqb a.version b.version
    && a.issued_at == b.issued_at
    && a.last_heartbeat == b.last_heartbeat
    && a.expires_at == b.expires_at
    && a.intervention_id == b.intervention_id

-- `_validate_lease_replacement`
unfoldable pub check_lease_replacement : ControlLease → ControlLease → Result (Unit {0})
unfolding lease_beq
check_lease_replacement current replacement = do
  raise_if (not (replacement.session_id == current.session_id)) value_error
  raise_if
      (not (lease_beq replacement current)
        && not (nat_eqb replacement.version (current.version + 1)))
      value_error

-- What `compare_and_swap` reads and checks before it writes; it returns the current lease.
cas_checks :
    EntityId
    → Status
    → ℕ
    → ControlOwner
    → Intervention
    → ControlLease
    → Store
    → Result (Intervention × ControlLease)
cas_checks id status version owner replacement lease s = do
  current ← find_intervention id s
  current_lease ← find_lease current.session_id s
  raise_if (not (status_beq current.status status)) intervention_conflict
  raise_if (is_stale current_lease version owner) lease_conflict
  check_intervention_replacement current replacement
  check_lease_replacement current_lease lease
  check_transition replacement lease
  ok (current, current_lease)

swapped :
    EntityId
    → Intervention
    → ControlLease
    → Store
    → Result (Intervention × ControlLease)
    → Result (Intervention × ControlLease) × Store
swapped id replacement lease s (ok (current, current_lease)) = (
  ok (replacement, lease),
  record s {
    interventions = insert s.interventions id replacement;
    leases = insert s.leases current_lease.session_id lease;
  },
)
swapped id replacement lease s (err e) = (err e, s)

-- `InMemoryInterventionTransitionRepository.compare_and_swap`
pub compare_and_swap :
    EntityId
    → Status
    → ℕ
    → ControlOwner
    → Intervention
    → ControlLease
    → Action Store (Intervention × ControlLease)
compare_and_swap id status version owner replacement lease s =
    swapped id replacement lease s (cas_checks id status version owner replacement lease s)

is_routed : Option Intervention → Bool
is_routed none = false
is_routed (some i) = true

unfoldable pub pause_checks :
    Intervention → Observation → ℕ → ControlOwner → ControlLease → Store → Result (Unit {0})
unfolding is_routed
pause_checks i observation version owner lease s = do
  raise_if (is_routed (lookup s.interventions i.id)) intervention_conflict
  current_lease ← find_lease i.session_id s
  raise_if (is_stale current_lease version owner) lease_conflict
  raise_if (not (observation.session_id == i.session_id)) value_error
  check_lease_replacement current_lease lease
  check_transition i lease

unfoldable pub paused :
    Intervention
    → Observation
    → ControlLease
    → Store
    → Result (Unit {0})
    → Result (Intervention × ControlLease) × Store
paused i observation lease s (ok _) = (
  ok (i, lease),
  record {
    interventions = insert s.interventions i.id i;
    observations = insert s.observations i.id observation;
    leases = insert s.leases i.session_id lease;
  },
)
paused i observation lease s (err e) = (err e, s)

-- `create_paused`
unfoldable pub create_paused :
    Intervention
    → Observation
    → ℕ
    → ControlOwner
    → ControlLease
    → Action Store (Intervention × ControlLease)
create_paused i observation version owner lease s =
    paused i observation lease s (pause_checks i observation version owner lease s)
