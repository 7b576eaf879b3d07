-- ===== src/Interventions/LeaseService/Stale.antt =====
-- A call of the lease service that presents another version than the stored one changes nothing.
use replay_forge.Base.{
  subst, Bool, Option, String, arith, err, err≢ok, false, lease_conflict, ltb, nat_eq, none, not,
  ok, option_eq, pair_eq, raise_if, refl, some, string_eq, sym, true, value_error, ℕ, ◌==◌, ◌∙◌,
  ◌≡◌, ◌≢◌,
}
use replay_forge.Text.{is_empty}
use replay_forge.Dict.{lookup}
use replay_forge.Action.{lift-bind_rule, reads-bind_rule}
use replay_forge.Shared.Ids.{EntityId, EntityKind, parse_id}
use replay_forge.Interventions.Owner.{
  ControlOwner, automation_owner, control_owner, human, is_human, no_owner, owner_eq, paused_owner,
}
use replay_forge.Interventions.Lease.{ControlLease}
use replay_forge.Interventions.LeaseRules.{Leases, assert_can_act, get, prepare_transfer}
use replay_forge.Interventions.LeaseService.{
  claim, complete_resume, heartbeat, is_unbound, pause, reclaim_expired, release, terminate,
  transfer,
}

module _ (ttl : ℕ) (k : EntityId) (v : ℕ) (s : Leases) (stored : ControlLease)
    (found : lookup s k ≡ some stored) (stale : stored.version ≢ v) where
  abbrev Unchanged : Leases → Type 0
  Unchanged s' = s' ≡ s

  get_stored : {l : ControlLease} → get k s ≡ ok l → stored ≡ l
  unfolding get
  get_stored h = ground arith

  prepare_transfer_refused :
      (o n : ControlOwner) (i : Option EntityId) (r : Bool) (t u : ℕ)
      → prepare_transfer ttl stored v o n i r t u ≡ err lease_conflict
  unfolding prepare_transfer
  prepare_transfer_refused o n i r t u = ground arith

  transfer_stale :
      (o n : ControlOwner) (i : Option EntityId) (r : Bool) (t u : ℕ)
      → (transfer ttl k v o n i r t u s).1 ≡ s
  unfolding transfer
  transfer_stale o n i r t u = reads-bind_rule Unchanged (get k) _ s refl λ current got.
      lift-bind_rule Unchanged (prepare_transfer ttl current v o n i r t u) _ s refl
        λ l prepared. absurd (refuted current l (get_stored got) prepared)
    where
      refuted :
          (current l : ControlLease)
          → stored ≡ current
          → prepare_transfer ttl current v o n i r t u ≡ ok l
          → ⊥
      refuted current l same h = cc (
        subst (λ x. prepare_transfer ttl x v o n i r t u ≡ ok l) (sym same) h,
        prepare_transfer_refused o n i r t u,
      )

  can_act_refused : (o : ControlOwner) (t : ℕ) → assert_can_act k v o t s ≡ err lease_conflict
  unfolding assert_can_act get
  can_act_refused o t = ground arith

  pub pause_stale : (i : String) (t u : ℕ) → (pause ttl k v i t u s).1 ≡ s
  unfolding pause
  pause_stale i t u =
      lift-bind_rule Unchanged (parse_id i (some EntityKind.intervention)) _ s refl
        λ id _. transfer_stale automation_owner paused_owner (some id) true t u

  pub claim_stale : (i operator : String) (t : ℕ) → (claim ttl k v i operator t s).1 ≡ s
  unfolding claim
  claim_stale i operator t =
      lift-bind_rule Unchanged (raise_if (is_empty operator) value_error) _ s refl λ _ _.
        lift-bind_rule Unchanged (parse_id i (some EntityKind.intervention)) _ s refl λ id _.
          reads-bind_rule Unchanged (get k) _ s refl λ current _.
            lift-bind_rule Unchanged
              (raise_if (not (current.intervention_id == some id)) lease_conflict) _ s refl
              λ _ _.
                lift-bind_rule Unchanged (control_owner human (some operator)) _ s refl
                  λ owner _. transfer_stale paused_owner owner (some id) false t t

  pub reclaim_expired_stale :
      (i operator : String) (t u : ℕ) → (reclaim_expired ttl k v i operator t u s).1 ≡ s
  unfolding reclaim_expired
  reclaim_expired_stale i operator t u = reads-bind_rule Unchanged (get k) _ s refl λ current _.
      lift-bind_rule Unchanged (parse_id i (some EntityKind.intervention)) _ s refl λ id _.
        lift-bind_rule Unchanged (raise_if (is_unbound current v id) lease_conflict) _ s refl λ _ _.
          lift-bind_rule Unchanged (raise_if (not (is_human current.owner.kind)) lease_conflict) _ s
            refl
            λ _ _.
              lift-bind_rule Unchanged (raise_if (ltb t current.expires_at.instant) lease_conflict)
                _ s refl
                λ _ _.
                  lift-bind_rule Unchanged (control_owner human (some operator)) _ s refl
                    λ owner _. transfer_stale current.owner owner (some id) false u u

  pub release_stale : (operator : String) (t u : ℕ) → (release ttl k v operator t u s).1 ≡ s
  unfolding release
  release_stale operator t u = reads-bind_rule Unchanged (get k) _ s refl λ current _.
      lift-bind_rule Unchanged (control_owner human (some operator)) _ s refl
        λ owner _. transfer_stale owner paused_owner current.intervention_id true t u

  pub complete_resume_stale : (t u : ℕ) → (complete_resume ttl k v t u s).1 ≡ s
  unfolding complete_resume
  complete_resume_stale t u = transfer_stale paused_owner automation_owner none true t u

  pub terminate_stale : (o : ControlOwner) (t u : ℕ) → (terminate ttl k v o t u s).1 ≡ s
  unfolding terminate
  terminate_stale o t u = transfer_stale o no_owner none (not (o == paused_owner)) t u

  pub heartbeat_stale : (o : ControlOwner) (t u w : ℕ) → (heartbeat ttl k v o t u w s).1 ≡ s
  unfolding heartbeat
  heartbeat_stale o t u w =
      reads-bind_rule Unchanged (assert_can_act k v o t) _ s refl
        λ l can. elim (err≢ok (sym (can_act_refused o t) ∙ can)) [ ]
