-- ===== src/Interventions/LeaseCalls/Fencing.antt =====
-- A holder whose lease was replaced can never act again, over every run of the lease service.
use replay_forge.Base.{
  List, [], ap, arith, bool_eq, err, inl, inr, lease_conflict, nat_eq, ok, option_eq, pair_eq, some,
  string_eq, subst, ℕ, ◌<◌, ◌∙◌, ◌∷◌, ◌≡◌, ◌≢◌, ◌≤◌,
}
use replay_forge.Dict.{lookup}
use replay_forge.Shared.Ids.{EntityId}
use replay_forge.Interventions.Owner.{ControlOwner, owner_eq}
use replay_forge.Interventions.Lease.{ControlLease}
use replay_forge.Interventions.LeaseRules.{Leases, assert_can_act, get}
use replay_forge.Interventions.LeaseCalls.{Call, perform, run}
use replay_forge.Interventions.LeaseCalls.Successors.{Change-lookup, Follows, perform-Change}

-- The lease of `k` is there, with a version above `v`.
pub record IsAbove (k : EntityId) (v : ℕ) (s : Leases) : Type 0 where
  pub lease : ControlLease
  pub found : lookup s k ≡ some lease
  pub above : v < lease.version

Follows-version :
    (c : Call) (old new : ControlLease) → Follows c old new → old.version ≤ new.version
Follows-version c old new (inl same) = rw same (omega arith)
Follows-version c old new (inr step) = omega (arith, step.grown)

get-some : (k : EntityId) (s : Leases) {l : ControlLease} → lookup s k ≡ some l → get k s ≡ ok l
unfolding get
get-some k s h = ground arith

get-ok : (k : EntityId) (s : Leases) {l : ControlLease} → get k s ≡ ok l → lookup s k ≡ some l
unfolding get
get-ok k s h = ground arith

act_refused :
    (k : EntityId) (v : ℕ) (o : ControlOwner) (t : ℕ) (s : Leases)
    → IsAbove k v s
    → assert_can_act k v o t s ≡ err lease_conflict
unfolding assert_can_act
act_refused k v o t s h = rw (get-some k s h.found) (ground (arith, h.above))

module _ (ttl : ℕ) where
  perform-IsAbove :
      (k : EntityId) (v : ℕ) (c : Call) (s : Leases)
      → IsAbove k v s
      → IsAbove k v (perform ttl c s).1
  perform-IsAbove k v c s h =
      let (new, found, follows) = Change-lookup c k h.lease (perform-Change ttl c s) h.found in
      record {
        lease = new;
        found = found;
        above = omega (arith, h.above, Follows-version c h.lease new follows);
      }

  run-IsAbove :
      (k : EntityId) (v : ℕ) (calls : List Call) (s : Leases)
      → IsAbove k v s
      → IsAbove k v (run ttl calls s)
  unfolding run
  run-IsAbove k v [] s h = h
  run-IsAbove k v (c ∷ calls) s h =
      run-IsAbove k v calls (perform ttl c s).1 (perform-IsAbove k v c s h)

  accepted :
      (k : EntityId) (v : ℕ) (o : ControlOwner) (t : ℕ) (s : Leases) {l : ControlLease}
      → assert_can_act k v o t s ≡ ok l
      → (get k s ≡ ok l) × (l.version ≡ v)
  unfolding assert_can_act
  accepted k v o t s h = ground arith

  pub replaced-IsAbove :
      (k : EntityId) (s : Leases) (old : ControlLease) (c : Call)
      → get k s ≡ ok old
      → get k (perform ttl c s).1 ≢ ok old
      → (calls : List Call) → IsAbove k old.version (run ttl (c ∷ calls) s)
  unfolding run
  replaced-IsAbove k s old c at_old replaced calls =
      let (new, found, follows) =
        Change-lookup c k old (perform-Change ttl c s) (get-ok k s at_old) in
      run-IsAbove k old.version calls (perform ttl c s).1
        (record { lease = new; found = found; above = newer new found follows })
    where
      newer :
          (new : ControlLease)
          → lookup (perform ttl c s).1 k ≡ some new
          → Follows c old new
          → old.version < new.version
      newer new found (inl kept) = absurd (replaced (get-some k _ (found ∙ ap some kept)))
      newer new found (inr step) = omega (arith, step.grown)

  -- Once a call has replaced the lease under which a holder may act, the version that the holder
  -- has is refused as a conflict after every further sequence of calls, at every time, whatever
  -- owner it is presented with.
  pub fencing :
      (k : EntityId) (v : ℕ) (o : ControlOwner) (t : ℕ) (s : Leases) {l : ControlLease}
      → assert_can_act k v o t s ≡ ok l
      → (c : Call) → get k (perform ttl c s).1 ≢ ok l
      → (calls : List Call) (o' : ControlOwner) (t' : ℕ)
      → assert_can_act k v o' t' (run ttl (c ∷ calls) s) ≡ err lease_conflict
  fencing k v o t s {l} may c replaced calls o' t' =
      let (at_l, same) = accepted k v o t s may in
      act_refused k v o' t' _ (
        subst (λ w. IsAbove k w (run ttl (c ∷ calls) s)) same
          (replaced-IsAbove k s l c at_l replaced calls))
