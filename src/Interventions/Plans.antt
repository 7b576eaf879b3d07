-- ===== src/Interventions/Plans.antt =====
-- interventions/service.py: what each lifecycle method of the coordinator prepares from the pair
-- that it read: the replacement of the intervention and that of the lease.
pub mod Facts
use replay_forge.Base.{
  Bool, Option, Result, String, err, false, if◌then◌else◌, intervention_transition, lease_conflict,
  ltb, nat_eq, none, not, ok, option_eq, pair_eq, raise_if, runtime_error, some, string_eq, true,
  unauthorized, ℕ, ◌&&◌, ◌==◌, ◌>>=◌, ◌>>◌, ◌||◌,
}
use replay_forge.Shared.Clock.{datetime_eq}
use replay_forge.Interventions.Owner.{
  ControlOwner, automation_owner, control_owner, human, is_human, no_owner, owner_eq, paused_owner,
}
use replay_forge.Interventions.Lease.{ControlLease}
use replay_forge.Interventions.LeaseRules.{prepare_heartbeat, prepare_transfer}
use replay_forge.Interventions.Intervention
use replay_forge.Interventions.Intervention.{
  Intervention, Status, claimed, open_, reassign, resolve, status_beq,
}

abbrev pub Pair : Type 0
Pair = Intervention × ControlLease

-- `current.operator_id != operator_id`
abbrev is_other : Intervention → Option String → Bool
is_other current operator = not (current.operator_id == operator)

abbrev is_unbound : Intervention → ControlLease → Bool
is_unbound current lease = not (lease.intervention_id == some current.id)

module _ (ttl : ℕ) where
  claim_open : ℕ → String → ℕ → Intervention → ControlLease → Result Pair
  claim_open version operator now current lease = do
    replacement ← Intervention.claim current operator
    raise_if (is_unbound current lease) lease_conflict
    owner ← control_owner human (some operator)
    l ← prepare_transfer ttl lease version paused_owner owner (some current.id) false now now
    ok (replacement, l)

  claim_expired : ℕ → String → ℕ → ℕ → Intervention → ControlLease → Result Pair
  claim_expired version operator tested now current lease = do
    replacement ← Intervention.reassign current operator
    raise_if (is_unbound current lease || not (is_human lease.owner.kind)) lease_conflict
    raise_if (ltb tested lease.expires_at.instant) lease_conflict
    owner ← control_owner human (some operator)
    l ← prepare_transfer ttl lease version lease.owner owner (some current.id) false now now
    ok (replacement, l)

  -- The branches of `claim` on the status; `tested` is read only by the second.
  claim_at : Status → ℕ → String → ℕ → ℕ → Intervention → ControlLease → Result Pair
  unfolding claim_open claim_expired
  claim_at open_ version operator tested now current lease =
      claim_open version operator now current lease
  claim_at claimed version operator tested now current lease =
      claim_expired version operator tested now current lease
  claim_at _ version operator tested now current lease = err intervention_transition

  unfoldable pub claim : ℕ → String → ℕ → ℕ → Intervention → ControlLease → Result Pair
  unfolding claim_at
  claim version operator tested now current lease =
      claim_at current.status version operator tested now current lease

  unfoldable pub release : ℕ → String → ℕ → ℕ → Intervention → ControlLease → Result Pair
  release version operator checked now current lease = do
    raise_if (is_other current (some operator)) unauthorized
    replacement ← Intervention.release current
    owner ← control_owner human (some operator)
    l ← prepare_transfer ttl lease version owner paused_owner (some current.id) true checked now
    ok (replacement, l)

  unfoldable pub begin_resume : ℕ → String → ℕ → ℕ → Intervention → ControlLease → Result Pair
  begin_resume version operator checked now current lease = do
    raise_if (is_other current (some operator)) unauthorized
    replacement ← Intervention.begin_resume current
    owner ← control_owner human (some operator)
    l ← prepare_transfer ttl lease version owner paused_owner (some current.id) true checked now
    ok (replacement, l)

  unfoldable pub reopen : String → Intervention → ControlLease → Result Pair
  reopen explanation current lease = do
    replacement ← Intervention.reopen current explanation
    raise_if (not (lease.owner == paused_owner)) runtime_error
    ok (replacement, lease)

  unfoldable pub complete_resume : ℕ → String → ℕ → ℕ → Intervention → ControlLease → Result Pair
  complete_resume version resolution checked now current lease = do
    replacement ← Intervention.resolve current resolution
    l ← prepare_transfer ttl lease version paused_owner automation_owner none true checked now
    ok (replacement, l)

  unfoldable pub heartbeat : ℕ → String → ℕ → ℕ → Intervention → ControlLease → Result Pair
  heartbeat version operator checked now current lease = do
    raise_if (not (status_beq current.status claimed) || is_other current (some operator))
        unauthorized
    owner ← control_owner human (some operator)
    l ← prepare_heartbeat ttl lease version owner checked now
    ok (current, l)

  -- The owner that `terminate` expects.
  terminating_owner : Intervention → Option String → Result ControlOwner
  terminating_owner current operator =
      if status_beq current.status open_
      then ok paused_owner
      else if status_beq current.status claimed && not (is_other current operator)
      then control_owner human operator
      else err unauthorized

  unfoldable pub terminate :
      ℕ → Option String → String → ℕ → ℕ → Intervention → ControlLease → Result Pair
  unfolding terminating_owner
  terminate version operator resolution checked now current lease = do
    owner ← terminating_owner current operator
    replacement ← Intervention.terminate current resolution
    l ←
        prepare_transfer ttl lease version owner no_owner none (not (owner == paused_owner)) checked
          now
    ok (replacement, l)
