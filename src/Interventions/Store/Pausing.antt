-- ===== src/Interventions/Store/Pausing.antt =====
-- A lease that automation owns binds no active intervention, so it may be replaced.
use replay_forge.Base.{
  subst, Bool-cases, Result, ap, arith, eq→≡, err, inl, inr, nat_eq, ok, option_eq, pair_eq, refl,
  some, string_eq, sym, true, ℕ, ≡→eq, ◌==◌, ◌∙◌, ◌≡◌, ◌≢◌,
}
use replay_forge.Dict.{insert, lookup, lookup-insert_eq, lookup-insert_ne, some-eq}
use replay_forge.Surfaces.Observation.{Observation}
use replay_forge.Shared.Ids.{EntityId}
use replay_forge.Interventions.Owner.{
  ControlOwner, automation, automation_owner, owner_beq_iff, owner_eq,
}
use replay_forge.Interventions.Lease.{ControlLease}
use replay_forge.Interventions.LeaseRules.{Leases}
use replay_forge.Interventions.Intervention.{Intervention, Status, is_active}
use replay_forge.Interventions.Transition.{check_transition, expected_kind}
use replay_forge.Interventions.Transition.Agreement.{owner_kind, same_session}
use replay_forge.Interventions.Store.{Store, create_paused, find_lease, pause_checks, paused}
use replay_forge.Interventions.Store.Coherence.{IsBound, IsCoherent}

active_kind : (x : Status) → is_active x ≡ true → expected_kind x ≢ automation
active_kind x h e = ground arith

-- The bound lease of an active intervention is not automation's.
pub not_automation :
    (i : Intervention) (l : ControlLease)
    → check_transition i l ≡ ok tt
    → is_active i.status ≡ true
    → l.owner ≢ automation_owner
not_automation i l agrees active e =
    active_kind i.status active (sym (owner_kind i l agrees) ∙ ap (λ (o : ControlOwner). o.kind) e)

module _ (s : Store) (k : EntityId) (l : ControlLease) (coherent : IsCoherent s)
    (free : (old : ControlLease) → lookup s.leases k ≡ some old → old.owner ≡ automation_owner)
    (session : l.session_id ≡ k) where
  abbrev new_leases : Leases
  new_leases = insert s.leases k l

  new_lease_keyed :
      (j : EntityId) (m : ControlLease) → lookup new_leases j ≡ some m → m.session_id ≡ j
  new_lease_keyed j m at = elim (Bool-cases (k == j)) [
    | inl here ↦
        sym (
          ap (λ (x : ControlLease). x.session_id)
            (some-eq (lookup-insert_eq s.leases k j l here) at))
        ∙ session
        ∙ eq→≡ k j here
    | inr other ↦ coherent.lease_keyed j m (sym (lookup-insert_ne s.leases k j l other) ∙ at)
  ]

  still-IsBound :
      (i : Intervention) → IsBound i s.leases → is_active i.status ≡ true → IsBound i new_leases
  still-IsBound i b active = elim (Bool-cases (k == i.session_id)) [
    | inl here ↦ absurd (
        not_automation i b.lease b.agrees active
          (free b.lease (ap (lookup s.leases) (eq→≡ k i.session_id here) ∙ b.found)))
    | inr other ↦ record {
      lease = b.lease;
      found = lookup-insert_ne s.leases k i.session_id l other ∙ b.found;
      agrees = b.agrees;
    }
  ]

  pub replace_free-IsCoherent : IsCoherent (record s { leases = insert s.leases k l })
  replace_free-IsCoherent = record {
    keyed = coherent.keyed;
    bound = λ j i at active. still-IsBound i (coherent.bound j i at active) active;
    lease_keyed = new_lease_keyed;
  }

  module _ (i : Intervention) (o : Observation) (agrees : check_transition i l ≡ ok tt) where
    abbrev routed : Store
    routed = record {
      interventions = insert s.interventions i.id i;
      observations = insert s.observations i.id o;
      leases = new_leases;
    }

    routed_keyed :
        (j : EntityId) (m : Intervention) → lookup routed.interventions j ≡ some m → m.id ≡ j
    routed_keyed j m at = elim (Bool-cases (i.id == j)) [
      | inl here ↦
          sym (
            ap (λ (x : Intervention). x.id)
              (some-eq (lookup-insert_eq s.interventions i.id j i here) at))
          ∙ eq→≡ i.id j here
      | inr other ↦ coherent.keyed j m (sym (lookup-insert_ne s.interventions i.id j i other) ∙ at)
    ]

    routed-IsBound :
        (j : EntityId) (m : Intervention)
        → lookup routed.interventions j ≡ some m
        → is_active m.status ≡ true
        → IsBound m new_leases
    routed-IsBound j m at active = elim (Bool-cases (i.id == j)) [
      | inl here ↦
          subst (λ x. IsBound x new_leases)
            (some-eq (lookup-insert_eq s.interventions i.id j i here) at)
            (record {
              lease = l;
              found =
                  lookup-insert_eq s.leases k i.session_id l
                    (≡→eq k i.session_id (sym session ∙ sym (same_session i l agrees)));
              agrees = agrees;
            })
      | inr other ↦
          let old = sym (lookup-insert_ne s.interventions i.id j i other) ∙ at in
          still-IsBound m (coherent.bound j m old active) active
    ]

    pub route-IsCoherent : IsCoherent routed
    route-IsCoherent = record {
      keyed = routed_keyed;
      bound = routed-IsBound;
      lease_keyed = new_lease_keyed;
    }

pause_facts :
    (i : Intervention) (o : Observation) (v : ℕ) (owner : ControlOwner) (l : ControlLease)
    (s : Store) {u : Unit {0}}
    → pause_checks i o v owner l s ≡ ok u
    → ((old : ControlLease) → lookup s.leases i.session_id ≡ some old → old.owner ≡ owner)
      × (check_transition i l ≡ ok tt)
unfolding pause_checks find_lease
pause_facts i o v owner l s h =
    (λ old at. ground (arith, owner_beq_iff old.owner owner), ground arith)

-- Routing a new intervention that pauses automation keeps the invariant, also where it raises.
pub create_paused-IsCoherent :
    (i : Intervention) (o : Observation) (v : ℕ) (l : ControlLease) (s : Store)
    → IsCoherent s
    → IsCoherent (create_paused i o v automation_owner l s).1
unfolding create_paused paused
create_paused-IsCoherent i o v l s coherent = go (pause_checks i o v automation_owner l s) refl
  where
    go :
        (r : Result (Unit {0}))
        → pause_checks i o v automation_owner l s ≡ r
        → IsCoherent (paused i o l s r).1
    go (ok u) e =
        let (free, agrees) = pause_facts i o v automation_owner l s e in
        route-IsCoherent s i.session_id l coherent free (sym (same_session i l agrees)) i o agrees
    go (err x) e = coherent
