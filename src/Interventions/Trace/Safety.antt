-- ===== src/Interventions/Trace/Safety.antt =====
-- Safety of the intervention subsystem over every interleaving of its steps.
use replay_forge.Shared.Ids.{EntityId}
use replay_forge.Interventions.Transition.Agreement.{bound_to}
use replay_forge.Interventions.LeaseService.Held.{
  Fresh, Swap, create_for_automation-Fresh, fresh, heartbeat-Swap, same, stay, swap,
}
use replay_forge.Interventions.Coordinator.Invariant.{commit-IsCoherent}
use replay_forge.Base.{
  ap, err, lease_conflict, nat_eq, ok, option_eq, pair_eq, refl, some, string_eq, sym, true, ℕ, ◌∙◌,
  ◌≡◌,
}
use replay_forge.Action.{lift-bind_rule, next-lift}
use replay_forge.Dict.{lookup, lookup-nil, none≢some, some-eq}
use replay_forge.Interventions.Owner.{automation_owner, owner_eq}
use replay_forge.Interventions.Lease.{ControlLease}
use replay_forge.Interventions.LeaseRules.{Leases, assert_can_act, other_owner_refused}
use replay_forge.Interventions.Intervention.{Intervention, is_active}
use replay_forge.Interventions.Store.{Store, create_paused}
use replay_forge.Interventions.Store.Coherence.{IsCoherent}
use replay_forge.Interventions.Store.Pausing.{
  create_paused-IsCoherent, not_automation, replace_free-IsCoherent,
}
use replay_forge.Interventions.Plans.{Pair}
use replay_forge.Interventions.Plans.Facts.{
  begin_resume-NeedsActive, claim-NeedsActive, complete_resume-NeedsActive, heartbeat-NeedsActive,
  release-NeedsActive, reopen-NeedsActive, terminate-NeedsActive,
}
use replay_forge.Interventions.Router.{Opening, open_intervention, prepare_opening}
use replay_forge.Interventions.Trace.{
  Planned, Reach, Step, beating, claiming, committing, completing, empty, handing_back, next_step,
  opening, releasing, renewing, reopening, start, starting, terminating,
}

empty-IsCoherent : IsCoherent empty
empty-IsCoherent = record {
  keyed = λ k i at. absurd (none≢some (sym (lookup-nil k) ∙ at));
  bound = λ k i at _. absurd (none≢some (sym (lookup-nil k) ∙ at));
  lease_keyed = λ k l at. absurd (none≢some (sym (lookup-nil k) ∙ at));
}

module _ (ttl : ℕ) where
  Planned-active :
      (i : Intervention) (l : ControlLease) (p : Pair)
      → Planned ttl i l p
      → is_active i.status ≡ true
  Planned-active i l p (claiming v o t u h) = (claim-NeedsActive ttl v o t u).active i l p h
  Planned-active i l p (releasing v o t u h) = (release-NeedsActive ttl v o t u).active i l p h
  Planned-active i l p (handing_back v o t u h) =
      (begin_resume-NeedsActive ttl v o t u).active i l p h
  Planned-active i l p (reopening text h) = (reopen-NeedsActive ttl text).active i l p h
  Planned-active i l p (completing v text t u h) =
      (complete_resume-NeedsActive ttl v text t u).active i l p h
  Planned-active i l p (beating v o t u h) = (heartbeat-NeedsActive ttl v o t u).active i l p h
  Planned-active i l p (terminating v o text t u h) =
      (terminate-NeedsActive ttl v o text t u).active i l p h

  open-IsCoherent :
      (o : Opening) (created t u : ℕ) (s : Store)
      → IsCoherent s
      → IsCoherent (open_intervention ttl o created t u s).1
  unfolding open_intervention
  open-IsCoherent o created t u s coherent =
      lift-bind_rule IsCoherent (prepare_opening ttl o created t u s) _ s coherent λ p _.
        rw
          (next-lift
            (create_paused p.0 o.observation o.expected_lease_version automation_owner p.1 s)
            (λ _. ok o.intervention_id))
          (create_paused-IsCoherent p.0 o.observation o.expected_lease_version p.1 s coherent)

  start-IsCoherent :
      (s : Store) {leases : Leases}
      → IsCoherent s
      → Fresh s.leases leases
      → IsCoherent (record s { leases = leases })
  start-IsCoherent s coherent same = coherent
  start-IsCoherent s coherent (fresh l absent) =
      replace_free-IsCoherent s l.session_id l coherent
        (λ old at. absurd (none≢some (sym absent ∙ at))) refl

  renew-IsCoherent :
      (s : Store) (k : EntityId) {leases : Leases}
      → IsCoherent s
      → Swap k automation_owner s.leases leases
      → IsCoherent (record s { leases = leases })
  renew-IsCoherent s k coherent stay = coherent
  renew-IsCoherent s k coherent (swap current l found owner session) =
      replace_free-IsCoherent s k l coherent
        (λ old at. ap (λ (x : ControlLease). x.owner) (some-eq at found) ∙ owner)
        (session ∙ coherent.lease_keyed k current found)

  Step-IsCoherent : {s s' : Store} → Step ttl s s' → IsCoherent s → IsCoherent s'
  Step-IsCoherent {s = s} (committing i l p planned) coherent =
      commit-IsCoherent i l p s (Planned-active i l p planned) coherent
  Step-IsCoherent {s = s} (opening o created t u) coherent =
      open-IsCoherent o created t u s coherent
  Step-IsCoherent {s = s} (starting k t) coherent =
      start-IsCoherent s coherent (create_for_automation-Fresh ttl k t s.leases)
  Step-IsCoherent {s = s} (renewing k v t u w) coherent =
      renew-IsCoherent s k coherent (heartbeat-Swap ttl k v automation_owner t u w s.leases)

  -- In every state that the subsystem reaches, with reads and commits of concurrent coordinator
  -- methods in any order, each entry stands under its own identity, and every active intervention
  -- passes the transition checks against the lease that its session has.
  pub Reach-IsCoherent : {s : Store} → Reach ttl s → IsCoherent s
  Reach-IsCoherent start = empty-IsCoherent
  Reach-IsCoherent (next_step before step) = Step-IsCoherent step (Reach-IsCoherent before)

  -- In every state that the subsystem reaches, two active interventions of one session are one.
  pub one_active :
      {s : Store}
      → Reach ttl s
      → (j k : EntityId) (a b : Intervention) → lookup s.interventions j ≡ some a
      → lookup s.interventions k ≡ some b
      → is_active a.status ≡ true
      → is_active b.status ≡ true
      → a.session_id ≡ b.session_id
      → j ≡ k
  one_active {s} reach j k a b at_j at_k live_a live_b together =
      let c = Reach-IsCoherent reach in
      let x = c.bound j a at_j live_a in
      let y = c.bound k b at_k live_b in
      let one_lease : x.lease ≡ y.lease =
        some-eq (ap (lookup s.leases) (sym together) ∙ x.found) y.found in
      sym (c.keyed j a at_j)
      ∙ some-eq (bound_to a x.lease x.agrees live_a) (
          ap (λ (l : ControlLease). l.intervention_id) one_lease
          ∙ bound_to b y.lease y.agrees live_b)
      ∙ c.keyed k b at_k

  -- While an intervention is active in a state that the subsystem reaches, automation may not act
  -- on its session, with any lease version and at any time.
  pub active_stops_automation :
      {s : Store}
      → Reach ttl s
      → (k : EntityId) (i : Intervention) → lookup s.interventions k ≡ some i
      → is_active i.status ≡ true
      → (v t : ℕ) → assert_can_act i.session_id v automation_owner t s.leases ≡ err lease_conflict
  active_stops_automation reach k i at live v t =
      let b = (Reach-IsCoherent reach).bound k i at live in
      other_owner_refused i.session_id v automation_owner t _ b.found
        (not_automation i b.lease b.agrees live)
