-- ===== src/Interventions/LeaseService/Steps.antt =====
-- What one call of the lease service may do to the leases: nothing, a new lease of automation, or
-- one checked replacement whose owners are related as the call relates them.
use replay_forge.Base.{
  Bool, Option, Option-cases, String, arith, bool_eq, eq→≡, false, inl, inr, lease_conflict, ltb,
  nat_eq, none, not, ok, option_eq, pair_eq, raise_if, refl, some, string_eq, subst, true,
  value_error, ℕ, ◌+◌, ◌==◌, ◌≡◌,
}
use replay_forge.Text.{is_empty}
use replay_forge.Dict.{insert, lookup}
use replay_forge.Action.{lift-bind_rule, reads-bind_rule}
use replay_forge.Shared.Clock.{datetime_eq, utc}
use replay_forge.Shared.Ids.{EntityId, EntityKind, parse_id}
use replay_forge.Interventions.Owner.{
  ControlOwner, OwnerKind, automation_owner, control_owner, human, human_owner, is_human, no_owner,
  owner_beq_iff, owner_eq, paused_owner,
}
use replay_forge.Interventions.Lease.{ControlLease, check_lease, control_lease}
use replay_forge.Interventions.LeaseRules.{
  Leases, assert_can_act, assert_current, check_swap, get, prepare_heartbeat, prepare_transfer,
}
use replay_forge.Interventions.LeaseService.{
  claim, compare_and_swap, complete_resume, create, create_for_automation, heartbeat, is_unbound,
  pause, reclaim_expired, release, terminate, transfer,
}

-- `moves` relates the owners before and after.
pub data Change (moves : ControlOwner → ControlOwner → Type 0) (s : Leases) : Leases → Type 0 where
  unchanged : Change moves s s
  created :
      (l : ControlLease)
      → lookup s l.session_id ≡ none
      → check_lease l ≡ ok tt
      → l.owner ≡ automation_owner
      → Change moves s (insert s l.session_id l)
  moved :
      (k : EntityId) (current l : ControlLease)
      → lookup s k ≡ some current
      → check_lease l ≡ ok tt
      → l.session_id ≡ current.session_id
      → l.version ≡ current.version + 1
      → moves current.owner l.owner
      → Change moves s (insert s k l)

pub get-eq-ok :
    (k : EntityId) (s : Leases) {l : ControlLease} → get k s ≡ ok l → lookup s k ≡ some l
unfolding get
get-eq-ok k s h = ground arith

pub check_swap_facts :
    (current : ControlLease) (v : ℕ) (o : ControlOwner) (l : ControlLease) {u : Unit {0}}
    → check_swap current v o l ≡ ok u
    → (current.version ≡ v)
      × (current.owner ≡ o)
      × (l.session_id ≡ current.session_id)
      × (l.version ≡ current.version + 1)
unfolding check_swap
check_swap_facts current v o l h =
    ground (arith, owner_beq_iff current.owner o, eq→≡ l.session_id current.session_id)

compare_and_swap-Change :
    (moves : ControlOwner → ControlOwner → Type 0) (k : EntityId) (v : ℕ) (o : ControlOwner)
    (l : ControlLease) (s : Leases)
    → check_lease l ≡ ok tt
    → moves o l.owner
    → Change moves s (compare_and_swap k v o l s).1
unfolding compare_and_swap
compare_and_swap-Change moves k v o l s valid edge =
    reads-bind_rule (Change moves s) (get k) _ s unchanged λ current found.
      lift-bind_rule (Change moves s) (check_swap current v o l) _ s unchanged λ _ passed.
        let (same_version, same_owner, same_session, grown) =
          check_swap_facts current v o l passed in
        moved k current l (get-eq-ok k s found) valid same_session grown (rw same_owner edge)

-- What a prepared lease is like.
record Prepared (o : ControlOwner) (l : ControlLease) : Type 0 where
  valid : check_lease l ≡ ok tt
  owned : l.owner ≡ o

prepare_heartbeat-Prepared :
    (ttl : ℕ) (current : ControlLease) (v : ℕ) (o : ControlOwner) (t u : ℕ) {l : ControlLease}
    → prepare_heartbeat ttl current v o t u ≡ ok l
    → Prepared o l
unfolding prepare_heartbeat control_lease assert_current
prepare_heartbeat-Prepared ttl current v o t u h = ground (arith, owner_beq_iff current.owner o)

prepare_transfer-Prepared :
    (ttl : ℕ) (current : ControlLease) (v : ℕ) (o n : ControlOwner) (i : Option EntityId) (r : Bool)
    (t u : ℕ) {l : ControlLease}
    → prepare_transfer ttl current v o n i r t u ≡ ok l
    → Prepared n l
unfolding prepare_transfer control_lease
prepare_transfer-Prepared ttl current v o n i r t u h = ground arith

is_human-eq :
    (k : OwnerKind) {u : Unit {0}} → raise_if (not (is_human k)) lease_conflict ≡ ok u → k ≡ human
is_human-eq k h = ground arith

-- The lease that automation starts with.
abbrev pub first_lease : ℕ → EntityId → ℕ → ControlLease
first_lease ttl id t = record {
  session_id = id;
  owner = automation_owner;
  version = 1;
  issued_at = utc t;
  last_heartbeat = utc t;
  expires_at = utc (t + ttl);
  intervention_id = none;
}

module _ (ttl : ℕ) (moves : ControlOwner → ControlOwner → Type 0) where
  transfer-Change :
      (k : EntityId) (v : ℕ) (o n : ControlOwner) (i : Option EntityId) (r : Bool) (t u : ℕ)
      (s : Leases)
      → moves o n
      → Change moves s (transfer ttl k v o n i r t u s).1
  unfolding transfer
  transfer-Change k v o n i r t u s edge =
      reads-bind_rule (Change moves s) (get k) _ s unchanged λ current _.
        lift-bind_rule (Change moves s) (prepare_transfer ttl current v o n i r t u) _ s unchanged
          λ l prepared.
            let p = prepare_transfer-Prepared ttl current v o n i r t u prepared in
            compare_and_swap-Change moves k v o l s p.valid (rw p.owned edge)

  create-Change :
      (l : ControlLease) (s : Leases)
      → check_lease l ≡ ok tt
      → l.owner ≡ automation_owner
      → Change moves s (create l s).1
  unfolding create
  create-Change l s valid owner = elim (Option-cases (lookup s l.session_id)) [
    | inl absent ↦ rw (absent) (created l absent valid owner)
    | inr (old, present) ↦ rw (present) unchanged
  ]

  control_lease_lem :
      (r : ControlLease) {l : ControlLease}
      → control_lease r ≡ ok l
      → (check_lease l ≡ ok tt) × (r ≡ l)
  unfolding control_lease
  control_lease_lem r h = ground arith

  control_owner-human :
      (operator : String) {o : ControlOwner}
      → control_owner human (some operator) ≡ ok o
      → human_owner operator ≡ o
  unfolding control_owner
  control_owner-human operator h = ground (arith, h)

  pub create_for_automation-Change :
      (k : String) (t : ℕ) (s : Leases) → Change moves s (create_for_automation ttl k t s).1
  unfolding create_for_automation
  create_for_automation-Change k t s =
      lift-bind_rule (Change moves s) (parse_id k (some EntityKind.session)) _ s unchanged λ id _.
        lift-bind_rule (Change moves s) (control_lease (first_lease ttl id t)) _ s unchanged
          λ l built.
            let (valid, same) = control_lease_lem (first_lease ttl id t) built in
            create-Change l s valid (rw (← same) refl)

  pub pause-Change :
      (k : EntityId) (v : ℕ) (i : String) (t u : ℕ) (s : Leases)
      → moves automation_owner paused_owner
      → Change moves s (pause ttl k v i t u s).1
  unfolding pause
  pause-Change k v i t u s edge =
      lift-bind_rule (Change moves s) (parse_id i (some EntityKind.intervention)) _ s unchanged
        λ id _. transfer-Change k v automation_owner paused_owner (some id) true t u s edge

  pub claim-Change :
      (k : EntityId) (v : ℕ) (i operator : String) (t : ℕ) (s : Leases)
      → moves paused_owner (human_owner operator)
      → Change moves s (claim ttl k v i operator t s).1
  unfolding claim
  claim-Change k v i operator t s edge =
      lift-bind_rule (Change moves s) (raise_if (is_empty operator) value_error) _ s unchanged
        λ _ _.
          lift-bind_rule (Change moves s) (parse_id i (some EntityKind.intervention)) _ s unchanged
            λ id _. reads-bind_rule (Change moves s) (get k) _ s unchanged λ current _.
              lift-bind_rule (Change moves s)
                (raise_if (not (current.intervention_id == some id)) lease_conflict) _ s unchanged
                λ _ _.
                  lift-bind_rule (Change moves s) (control_owner human (some operator)) _ s
                    unchanged
                    λ owner built.
                      transfer-Change k v paused_owner owner (some id) false t t s (
                        subst (λ x. moves paused_owner x) (control_owner-human operator built) edge)

  pub reclaim_expired-Change :
      (k : EntityId) (v : ℕ) (i operator : String) (t u : ℕ) (s : Leases)
      → ((old : ControlOwner) → old.kind ≡ human → moves old (human_owner operator))
      → Change moves s (reclaim_expired ttl k v i operator t u s).1
  unfolding reclaim_expired
  reclaim_expired-Change k v i operator t u s edge =
      reads-bind_rule (Change moves s) (get k) _ s unchanged λ current _.
        lift-bind_rule (Change moves s) (parse_id i (some EntityKind.intervention)) _ s unchanged
          λ id _.
            lift-bind_rule (Change moves s) (raise_if (is_unbound current v id) lease_conflict) _ s
              unchanged
              λ _ _.
                lift-bind_rule (Change moves s)
                  (raise_if (not (is_human current.owner.kind)) lease_conflict) _ s unchanged
                  λ _ kind.
                    lift-bind_rule (Change moves s)
                      (raise_if (ltb t current.expires_at.instant) lease_conflict) _ s unchanged
                      λ _ _.
                        lift-bind_rule (Change moves s) (control_owner human (some operator)) _ s
                          unchanged
                          λ owner built.
                            transfer-Change k v current.owner owner (some id) false u u s (
                              subst (λ x. moves current.owner x)
                                (control_owner-human operator built)
                                (edge current.owner (is_human-eq current.owner.kind kind)))

  pub release-Change :
      (k : EntityId) (v : ℕ) (operator : String) (t u : ℕ) (s : Leases)
      → moves (human_owner operator) paused_owner
      → Change moves s (release ttl k v operator t u s).1
  unfolding release
  release-Change k v operator t u s edge =
      reads-bind_rule (Change moves s) (get k) _ s unchanged λ current _.
        lift-bind_rule (Change moves s) (control_owner human (some operator)) _ s unchanged
          λ owner built.
            transfer-Change k v owner paused_owner current.intervention_id true t u s
              (subst (λ x. moves x paused_owner) (control_owner-human operator built) edge)

  pub complete_resume-Change :
      (k : EntityId) (v t u : ℕ) (s : Leases)
      → moves paused_owner automation_owner
      → Change moves s (complete_resume ttl k v t u s).1
  unfolding complete_resume
  complete_resume-Change k v t u s edge =
      transfer-Change k v paused_owner automation_owner none true t u s edge

  pub terminate-Change :
      (k : EntityId) (v : ℕ) (o : ControlOwner) (t u : ℕ) (s : Leases)
      → moves o no_owner
      → Change moves s (terminate ttl k v o t u s).1
  unfolding terminate
  terminate-Change k v o t u s edge =
      transfer-Change k v o no_owner none (not (o == paused_owner)) t u s edge

  pub heartbeat-Change :
      (k : EntityId) (v : ℕ) (o : ControlOwner) (t u w : ℕ) (s : Leases)
      → moves o o
      → Change moves s (heartbeat ttl k v o t u w s).1
  unfolding heartbeat
  heartbeat-Change k v o t u w s edge =
      reads-bind_rule (Change moves s) (assert_can_act k v o t) _ s unchanged λ current _.
        lift-bind_rule (Change moves s) (prepare_heartbeat ttl current v o u w) _ s unchanged
          λ l prepared.
            let p = prepare_heartbeat-Prepared ttl current v o u w prepared in
            compare_and_swap-Change moves k v o l s p.valid (rw p.owned edge)
