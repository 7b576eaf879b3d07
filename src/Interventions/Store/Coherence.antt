-- ===== src/Interventions/Store/Coherence.antt =====
-- The store invariant: every active intervention agrees with the lease of its session.
use replay_forge.Base.{
  subst, Bool-cases, Result, ap, arith, eq→≡, err, false, inl, inr, nat_eq, ok, option_eq, pair_eq,
  refl, some, string_eq, sym, true, ℕ, ≡→eq, ◌==◌, ◌∙◌, ◌≡◌, ◌≢◌,
}
use replay_forge.Dict.{insert, lookup, lookup-insert_eq, lookup-insert_ne, some-eq}
use replay_forge.Shared.Clock.{datetime_eq}
use replay_forge.Shared.Ids.{EntityId}
use replay_forge.Interventions.Owner.{ControlOwner, owner_beq_iff, owner_eq}
use replay_forge.Interventions.Lease.{ControlLease}
use replay_forge.Interventions.LeaseRules.{Leases}
use replay_forge.Interventions.Intervention.{Intervention, Status, is_active, status_beq}
use replay_forge.Interventions.Transition.{check_transition}
use replay_forge.Interventions.Transition.Agreement.{bound_to}
use replay_forge.Interventions.Store.{
  Store, cas_checks, check_intervention_replacement, check_lease_replacement, compare_and_swap,
  find_intervention, find_lease, swapped,
}

-- The lease of the session exists, and the pair passes the checks of `InterventionTransition`.
pub record IsBound (i : Intervention) (leases : Leases) : Type 0 where
  pub lease : ControlLease
  pub found : lookup leases i.session_id ≡ some lease
  pub agrees : check_transition i lease ≡ ok tt

pub record IsCoherent (s : Store) : Type 0 where
  pub keyed : (k : EntityId) (i : Intervention) → lookup s.interventions k ≡ some i → i.id ≡ k
  pub bound :
      (k : EntityId) (i : Intervention)
      → lookup s.interventions k ≡ some i
      → is_active i.status ≡ true
      → IsBound i s.leases
  pub lease_keyed :
      (k : EntityId) (l : ControlLease) → lookup s.leases k ≡ some l → l.session_id ≡ k

record CasFacts (id : EntityId) (status : Status) (version : ℕ) (owner : ControlOwner)
    (i : Intervention) (l : ControlLease) (s : Store) (current : Intervention)
    (current_lease : ControlLease) : Type 0 where
  found : lookup s.interventions id ≡ some current
  found_lease : lookup s.leases current.session_id ≡ some current_lease
  same_status : current.status ≡ status
  same_version : current_lease.version ≡ version
  same_owner : current_lease.owner ≡ owner
  same_id : i.id ≡ current.id
  same_session : i.session_id ≡ current.session_id
  same_lease_session : l.session_id ≡ current_lease.session_id
  agrees : check_transition i l ≡ ok tt

status_beq→≡ : (a b : Status) → status_beq a b ≡ true → a ≡ b
status_beq→≡ a b h = ground arith

replacement_facts :
    (current i : Intervention) {u : Unit {0}}
    → check_intervention_replacement current i ≡ ok u
    → (i.id ≡ current.id) × (i.session_id ≡ current.session_id)
unfolding check_intervention_replacement
replacement_facts current i h =
    ground (arith, eq→≡ i.id current.id, eq→≡ i.session_id current.session_id)

lease_replacement_facts :
    (current l : ControlLease) {u : Unit {0}}
    → check_lease_replacement current l ≡ ok u
    → l.session_id ≡ current.session_id
unfolding check_lease_replacement
lease_replacement_facts current l h = ground (arith, eq→≡ l.session_id current.session_id)

cas_facts :
    (id : EntityId) (status : Status) (version : ℕ) (owner : ControlOwner) (i : Intervention)
    (l : ControlLease) (s : Store) {current : Intervention} {current_lease : ControlLease}
    → cas_checks id status version owner i l s ≡ ok (current, current_lease)
    → CasFacts id status version owner i l s current current_lease
unfolding cas_checks find_intervention find_lease
cas_facts id status version owner i l s {current} {current_lease} h = ground (
  arith,
  replacement_facts current i,
  lease_replacement_facts current_lease l,
  owner_beq_iff current_lease.owner owner,
)

true≢false : true ≢ false
true≢false h = cc

-- A pair that agrees, in place of the one that was read.
module _ (s : Store) (id : EntityId) (current i : Intervention) (old l : ControlLease)
    (coherent : IsCoherent s) (found : lookup s.interventions id ≡ some current)
    (active : is_active current.status ≡ true)
    (found_lease : lookup s.leases current.session_id ≡ some old) (same_id : i.id ≡ current.id)
    (same_session : i.session_id ≡ current.session_id)
    (same_lease_session : l.session_id ≡ old.session_id)
    (agrees : check_transition i l ≡ ok tt) where
  abbrev after : Store
  after = record s {
    interventions = insert s.interventions id i;
    leases = insert s.leases old.session_id l;
  }

  old_key : old.session_id ≡ current.session_id
  old_key = coherent.lease_keyed current.session_id old found_lease

  -- Another active intervention stands on another session.
  other_session :
      (k : EntityId) (j : Intervention)
      → (id == k) ≡ false
      → lookup s.interventions k ≡ some j
      → is_active j.status ≡ true
      → (old.session_id == j.session_id) ≡ false
  other_session k j other at_k live = elim (Bool-cases (old.session_id == j.session_id)) [
    | inr apart ↦ apart
    | inl same ↦
        let b = coherent.bound k j at_k live in
        let c = coherent.bound id current found active in
        let one_key : current.session_id ≡ j.session_id =
          sym old_key ∙ eq→≡ old.session_id j.session_id same in
        let one_lease : c.lease ≡ b.lease =
          some-eq (ap (lookup s.leases) (sym one_key) ∙ c.found) b.found in
        let one_id : current.id ≡ j.id = some-eq (bound_to current c.lease c.agrees active) (
          ap (λ (x : ControlLease). x.intervention_id) one_lease
          ∙ bound_to j b.lease b.agrees live) in
        let one_entry : id ≡ k =
          sym (coherent.keyed id current found) ∙ one_id ∙ coherent.keyed k j at_k in
        absurd (true≢false (sym (≡→eq id k one_entry) ∙ other))
  ]

  after_keyed : (k : EntityId) (j : Intervention) → lookup after.interventions k ≡ some j → j.id ≡ k
  after_keyed k j at_k = elim (Bool-cases (id == k)) [
    | inl here ↦
        let placed : i ≡ j = some-eq (lookup-insert_eq s.interventions id k i here) at_k in
        sym (ap (λ (x : Intervention). x.id) placed)
        ∙ same_id
        ∙ coherent.keyed id current found
        ∙ eq→≡ id k here
    | inr other ↦ coherent.keyed k j (sym (lookup-insert_ne s.interventions id k i other) ∙ at_k)
  ]

  i_key : (old.session_id == i.session_id) ≡ true
  i_key = ≡→eq old.session_id i.session_id (old_key ∙ sym same_session)

  after-IsBound :
      (k : EntityId) (j : Intervention)
      → lookup after.interventions k ≡ some j
      → is_active j.status ≡ true
      → IsBound j after.leases
  after-IsBound k j at_k live = elim (Bool-cases (id == k)) [
    | inl here ↦
        subst (λ x. IsBound x after.leases)
          (some-eq (lookup-insert_eq s.interventions id k i here) at_k)
          (record {
            lease = l;
            found = lookup-insert_eq s.leases old.session_id i.session_id l i_key;
            agrees = agrees;
          })
    | inr other ↦
        let at_old = sym (lookup-insert_ne s.interventions id k i other) ∙ at_k in
        let b = coherent.bound k j at_old live in
        record {
          lease = b.lease;
          found =
              lookup-insert_ne s.leases old.session_id j.session_id l
                (other_session k j other at_old live)
              ∙ b.found;
          agrees = b.agrees;
        }
  ]

  after_lease_keyed :
      (k : EntityId) (m : ControlLease) → lookup after.leases k ≡ some m → m.session_id ≡ k
  after_lease_keyed k m at_k = elim (Bool-cases (old.session_id == k)) [
    | inl here ↦
        sym (
          ap (λ (x : ControlLease). x.session_id)
            (some-eq (lookup-insert_eq s.leases old.session_id k l here) at_k))
        ∙ same_lease_session
        ∙ eq→≡ old.session_id k here
    | inr other ↦
        coherent.lease_keyed k m (sym (lookup-insert_ne s.leases old.session_id k l other) ∙ at_k)
  ]

  after-IsCoherent : IsCoherent after
  after-IsCoherent = record {
    keyed = after_keyed;
    bound = after-IsBound;
    lease_keyed = after_lease_keyed;
  }

-- A swap that starts from an active status keeps the invariant, whether it returns or raises.
pub compare_and_swap-IsCoherent :
    (id : EntityId) (status : Status) (version : ℕ) (owner : ControlOwner) (i : Intervention)
    (l : ControlLease) (s : Store)
    → is_active status ≡ true
    → IsCoherent s
    → IsCoherent (compare_and_swap id status version owner i l s).1
unfolding compare_and_swap swapped
compare_and_swap-IsCoherent id status version owner i l s active coherent =
    go (cas_checks id status version owner i l s) refl
  where
    go :
        (r : Result (Intervention × ControlLease))
        → cas_checks id status version owner i l s ≡ r
        → IsCoherent (swapped id i l s r).1
    go (ok (current, old)) e =
        let f = cas_facts id status version owner i l s e in
        after-IsCoherent s id current i old l coherent f.found (rw f.same_status active)
          f.found_lease f.same_id f.same_session f.same_lease_session f.agrees
    go (err x) e = coherent
