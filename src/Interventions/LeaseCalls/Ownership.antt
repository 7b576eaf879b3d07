-- ===== src/Interventions/LeaseCalls/Ownership.antt =====
-- Stale calls and the end of control, over every run of the lease service.
use replay_forge.Base.{
  List, [], ap, arith, bool_eq, err, inl, inr, lease_conflict, nat_eq, ok, option_eq, pair_eq, refl,
  some, string_eq, ℕ, ◌∷◌, ◌≡◌, ◌≢◌,
}
use replay_forge.Dict.{lookup}
use replay_forge.Shared.Ids.{EntityId}
use replay_forge.Interventions.Owner.{ControlOwner, no_one, owner_beq_iff, owner_eq}
use replay_forge.Interventions.Lease.{ControlLease}
use replay_forge.Interventions.LeaseRules.{Leases, assert_can_act, get}
use replay_forge.Interventions.LeaseService.Success.{terminate-Stored}
use replay_forge.Interventions.LeaseService.Stale.{
  claim_stale, complete_resume_stale, heartbeat_stale, pause_stale, reclaim_expired_stale,
  release_stale, terminate_stale,
}
use replay_forge.Interventions.LeaseCalls.{
  Call, claim, complete_resume, create_for_automation, heartbeat, pause, perform, reclaim_expired,
  release, run, terminate,
}
use replay_forge.Interventions.LeaseCalls.Successors.{
  Change-lookup, Follows, Moves, beating, claiming, pausing, perform-Change, reclaiming, releasing,
  resuming, stopping,
}
use replay_forge.Interventions.LeaseCalls.Fencing.{replaced-IsAbove}

-- The version that a call presents for a session.
unfoldable pub Presents : Call → EntityId → ℕ → Type 0
Presents (create_for_automation k t) j w = ⊥
Presents (pause k v i t u) j w = (k ≡ j) × (v ≡ w)
Presents (claim k v i o t) j w = (k ≡ j) × (v ≡ w)
Presents (reclaim_expired k v i o t u) j w = (k ≡ j) × (v ≡ w)
Presents (release k v o t u) j w = (k ≡ j) × (v ≡ w)
Presents (complete_resume k v t u) j w = (k ≡ j) × (v ≡ w)
Presents (terminate k v o t u) j w = (k ≡ j) × (v ≡ w)
Presents (heartbeat k v o t u w) j x = (k ≡ j) × (v ≡ x)

-- The kind of owner that a session has been left with.
IsOver : EntityId → Leases → Type 0
IsOver k s = (l : ControlLease) × (lookup s k ≡ some l) × (l.owner.kind ≡ no_one)

Moves-over : {c : Call} {a b : ControlOwner} → Moves c a b → a.kind ≡ no_one → b.kind ≡ no_one
Moves-over pausing h = cc
Moves-over claiming h = cc
Moves-over (reclaiming kind) h = cc
Moves-over releasing h = cc
Moves-over resuming h = cc
Moves-over stopping h = refl
Moves-over beating h = h

Follows-over :
    (c : Call) (old new : ControlLease)
    → Follows c old new
    → old.owner.kind ≡ no_one
    → new.owner.kind ≡ no_one
Follows-over c old new (inl same) h = cc
Follows-over c old new (inr step) h = Moves-over step.edge h

over_refused :
    (k : EntityId) (v : ℕ) (o : ControlOwner) (t : ℕ) (s : Leases)
    → IsOver k s
    → o.kind ≢ no_one
    → assert_can_act k v o t s ≡ err lease_conflict
unfolding assert_can_act get IsOver
over_refused k v o t s h other = ground (arith, h, owner_beq_iff h.0.owner o)

module _ (ttl : ℕ) where
  -- A call that presents another version than the stored one leaves every lease as it is.
  stale_changes_nothing :
      (c : Call) (k : EntityId) (v : ℕ) (s : Leases) (l : ControlLease)
      → Presents c k v
      → lookup s k ≡ some l
      → l.version ≢ v
      → (perform ttl c s).1 ≡ s
  unfolding Presents perform
  stale_changes_nothing (create_for_automation j t) k v s l p found stale = absurd p
  stale_changes_nothing (pause j w i t u) k v s l p found stale =
      rw (p.0, p.1) (pause_stale ttl k v s l found stale i t u)
  stale_changes_nothing (claim j w i o t) k v s l p found stale =
      rw (p.0, p.1) (claim_stale ttl k v s l found stale i o t)
  stale_changes_nothing (reclaim_expired j w i o t u) k v s l p found stale =
      rw (p.0, p.1) (reclaim_expired_stale ttl k v s l found stale i o t u)
  stale_changes_nothing (release j w o t u) k v s l p found stale =
      rw (p.0, p.1) (release_stale ttl k v s l found stale o t u)
  stale_changes_nothing (complete_resume j w t u) k v s l p found stale =
      rw (p.0, p.1) (complete_resume_stale ttl k v s l found stale t u)
  stale_changes_nothing (terminate j w o t u) k v s l p found stale =
      rw (p.0, p.1) (terminate_stale ttl k v s l found stale o t u)
  stale_changes_nothing (heartbeat j w o t u x) k v s l p found stale =
      rw (p.0, p.1) (heartbeat_stale ttl k v s l found stale o t u x)

  -- Of the calls that present one version for a session, at most one has an effect: once a call has
  -- replaced the lease that had the version, every later call that presents it, after any calls in
  -- between, leaves every lease as it is.
  pub one_winner :
      (k : EntityId) (s : Leases) (old : ControlLease) (first : Call)
      → get k s ≡ ok old
      → get k (perform ttl first s).1 ≢ ok old
      → (calls : List Call) (second : Call) → Presents second k old.version
      → (perform ttl second (run ttl (first ∷ calls) s)).1 ≡ run ttl (first ∷ calls) s
  one_winner k s old first at_old replaced calls second presented =
      let above = replaced-IsAbove ttl k s old first at_old replaced calls in
      stale_changes_nothing second k old.version _ above.lease presented above.found
        (omega (arith, above.above))

  perform-IsOver :
      (k : EntityId) (c : Call) (s : Leases) → IsOver k s → IsOver k (perform ttl c s).1
  unfolding IsOver
  perform-IsOver k c s h =
      let (new, found, follows) = Change-lookup c k h.0 (perform-Change ttl c s) h.1 in
      (new, found, Follows-over c h.0 new follows h.2)

  run-IsOver :
      (k : EntityId) (calls : List Call) (s : Leases) → IsOver k s → IsOver k (run ttl calls s)
  unfolding run
  run-IsOver k [] s h = h
  run-IsOver k (c ∷ calls) s h = run-IsOver k calls (perform ttl c s).1 (perform-IsOver k c s h)

  -- After a termination that returned, neither automation nor a human may act on the session, with
  -- any version, at any time and after any further calls.
  pub terminated_for_ever :
      (k : EntityId) (v : ℕ) (o : ControlOwner) (t u : ℕ) (s : Leases) {l : ControlLease}
      → (perform ttl (terminate k v o t u) s).0 ≡ ok l
      → (calls : List Call) (v' : ℕ) (o' : ControlOwner) (t' : ℕ) → o'.kind ≢ no_one
      → assert_can_act k v' o' t' (run ttl (terminate k v o t u ∷ calls) s) ≡ err lease_conflict
  unfolding run perform IsOver
  terminated_for_ever k v o t u s {l} returned calls v' o' t' other =
      let (found, owner) = terminate-Stored ttl k v o t u s returned in
      over_refused k v' o' t' _
        (run-IsOver k calls (perform ttl (terminate k v o t u) s).1
          (l, found, ap (λ x. x.kind) owner))
        other
