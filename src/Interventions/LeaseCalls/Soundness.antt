-- ===== src/Interventions/LeaseCalls/Soundness.antt =====
-- The leases that any run of the lease service leaves are valid and stand under their session.
use replay_forge.Base.{
  Bool-cases, List, [], bool_eq, eq→≡, inl, inr, nat_eq, option_eq, pair_eq, refl, some, string_eq,
  subst, sym, ℕ, ◌==◌, ◌∙◌, ◌∷◌, ◌≡◌, ◌⊎◌,
}
use replay_forge.Dict.{insert, lookup, lookup-insert_eq, lookup-insert_ne, lookup-nil, some-eq}
use replay_forge.Shared.Ids.{EntityId}
use replay_forge.Interventions.Owner.{ControlOwner, owner_eq}
use replay_forge.Interventions.Lease.{ControlLease}
use replay_forge.Interventions.Lease.Valid.{IsValid, check_lease-IsValid}
use replay_forge.Interventions.LeaseRules.{Leases}
use replay_forge.Interventions.LeaseService.Steps.{Change, created, moved, unchanged}
use replay_forge.Interventions.LeaseCalls.{Call, perform, run}
use replay_forge.Interventions.LeaseCalls.Successors.{Change-lookup, Follows, Moves, perform-Change}

-- A lease as it may stand under its key.
pub record IsSoundAt (k : EntityId) (l : ControlLease) : Type 0 where
  pub session : l.session_id ≡ k
  pub valid : IsValid l

abbrev pub IsSound : Leases → Type 0
IsSound s = (k : EntityId) (l : ControlLease) → lookup s k ≡ some l → IsSoundAt k l

insert-IsSound :
    (s : Leases) (j : EntityId) (l : ControlLease)
    → IsSound s
    → IsSoundAt j l
    → IsSound (insert s j l)
insert-IsSound s j l sound at k m found = elim (Bool-cases (j == k)) [
  | inl same ↦
      subst (λ x. IsSoundAt k x) (some-eq (lookup-insert_eq s j k l same) found)
        (subst (λ x. IsSoundAt x l) (eq→≡ j k same) at)
  | inr other ↦ sound k m (sym (lookup-insert_ne s j k l other) ∙ found)
]

Change-IsSound :
    (moves : ControlOwner → ControlOwner → Type 0) {s s' : Leases}
    → Change moves s s'
    → IsSound s
    → IsSound s'
Change-IsSound moves unchanged sound = sound
Change-IsSound moves {s = s} (created l absent valid owner) sound =
    insert-IsSound s l.session_id l sound
      (record { session = refl; valid = check_lease-IsValid l valid })
Change-IsSound moves {s = s} (moved j current l present valid session grown edge) sound =
    insert-IsSound s j l sound (record {
      session = session ∙ (sound j current present).session;
      valid = check_lease-IsValid l valid;
    })

module _ (ttl : ℕ) where
  run_from-IsSound : (calls : List Call) (s : Leases) → IsSound s → IsSound (run ttl calls s)
  unfolding run
  run_from-IsSound [] s sound = sound
  run_from-IsSound (c ∷ calls) s sound =
      run_from-IsSound calls (perform ttl c s).1
        (Change-IsSound (Moves c) (perform-Change ttl c s) sound)

  -- From an empty repository, every lease that a run of calls leaves stands under its own session,
  -- has a positive version, aware timestamps with issuance before the last heartbeat before the
  -- expiry, and is bound to an intervention exactly while paused or with a human.
  pub run-IsSound : (calls : List Call) → IsSound (run ttl calls [])
  run-IsSound calls = run_from-IsSound calls [] (λ k l found. absurd (nothing k found))
    where
      nothing : (k : EntityId) {l : ControlLease} → lookup {V = ControlLease} [] k ≡ some l → ⊥
      nothing k h = cc (lookup-nil {V = ControlLease} k, h)

  -- One call leaves a lease as it is, or replaces it as this call moves ownership: a pause from
  -- automation to the pause, a claim from the pause to the operator it names, a reclaim from some
  -- operator to the one it names, a release from the operator it names to the pause, the completion
  -- of a resume from the pause to automation, a termination from the owner it names to no owner, and
  -- a heartbeat from the owner it names to the same.
  pub perform-Moves :
      (c : Call) (k : EntityId) (s : Leases) {old new : ControlLease}
      → lookup s k ≡ some old
      → lookup (perform ttl c s).1 k ≡ some new
      → (new ≡ old) ⊎ Moves c old.owner new.owner
  perform-Moves c k s {old} {new} before after =
      let (l, found, follows) = Change-lookup c k old (perform-Change ttl c s) before in
      subst (λ x. (x ≡ old) ⊎ Moves c old.owner x.owner) (some-eq found after) (edge_of l follows)
    where
      edge_of : (l : ControlLease) → Follows c old l → (l ≡ old) ⊎ Moves c old.owner l.owner
      edge_of l (inl same) = inl same
      edge_of l (inr step) = inr step.edge
