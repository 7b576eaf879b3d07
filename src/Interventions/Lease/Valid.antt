-- ===== src/Interventions/Lease/Valid.antt =====
-- What a lease that passed its constructor's checks is like.
use replay_forge.Base.{arith, ok, true, ◌<◌, ◌≡◌, ◌≤◌}
use replay_forge.Interventions.Lease.{ControlLease, check_lease, is_bound, requires_intervention}

pub record IsValid (l : ControlLease) : Type 0 where
  pub positive : 1 ≤ l.version
  pub issued_before : l.issued_at.instant ≤ l.last_heartbeat.instant
  pub live_span : l.last_heartbeat.instant < l.expires_at.instant
  pub issued_aware : l.issued_at.aware ≡ true
  pub heartbeat_aware : l.last_heartbeat.aware ≡ true
  pub expiry_aware : l.expires_at.aware ≡ true
  pub binding : requires_intervention l.owner.kind ≡ is_bound l.intervention_id

pub check_lease-IsValid : (l : ControlLease) → check_lease l ≡ ok tt → IsValid l
unfolding check_lease
check_lease-IsValid l h = ground arith
