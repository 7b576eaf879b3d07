-- ===== src/Interventions/LeaseService/Success.antt =====
-- What a call of the lease service that returns has stored.
use replay_forge.Base.{
  Bool, Option, arith, nat_eq, none, not, ok, option_eq, pair_eq, some, string_eq, ℕ, ◌==◌, ◌∙◌,
  ◌≡◌,
}
use replay_forge.Dict.{lookup, lookup-insert_self}
use replay_forge.Action.{Ensures, lift-bind-Ensures, reads-bind-Ensures}
use replay_forge.Shared.Ids.{EntityId}
use replay_forge.Interventions.Owner.{ControlOwner, no_owner, owner_eq, paused_owner}
use replay_forge.Interventions.Lease.{ControlLease, control_lease}
use replay_forge.Interventions.LeaseRules.{Leases, check_swap, get, prepare_transfer}
use replay_forge.Interventions.LeaseService.{compare_and_swap, terminate, transfer}

-- The lease that was returned is the one that is stored.
Stored : EntityId → ControlOwner → ControlLease → Leases → Type 0
Stored k o l s = (lookup s k ≡ some l) × (l.owner ≡ o)

prepare_transfer-owner :
    (ttl : ℕ) (current : ControlLease) (v : ℕ) (o n : ControlOwner) (i : Option EntityId) (r : Bool)
    (t u : ℕ) {l : ControlLease}
    → prepare_transfer ttl current v o n i r t u ≡ ok l
    → l.owner ≡ n
unfolding prepare_transfer control_lease
prepare_transfer-owner ttl current v o n i r t u h = ground arith

compare_and_swap-Stored :
    (k : EntityId) (v : ℕ) (o n : ControlOwner) (l : ControlLease) (s : Leases)
    → l.owner ≡ n
    → Ensures (Stored k n) (compare_and_swap k v o l s)
unfolding compare_and_swap Stored
compare_and_swap-Stored k v o n l s owner = reads-bind-Ensures (Stored k n) (get k) _ s λ current _.
    lift-bind-Ensures (Stored k n) (check_swap current v o l) _ s
      λ _ _ b same. (lookup-insert_self s k l ∙ ok-some same, cc (ok-some same))
  where
    ok-some : {b : ControlLease} → ok l ≡ ok b → some l ≡ some b
    ok-some h = ground arith

module _ (ttl : ℕ) where
  transfer-Stored :
      (k : EntityId) (v : ℕ) (o n : ControlOwner) (i : Option EntityId) (r : Bool) (t u : ℕ)
      (s : Leases)
      → Ensures (Stored k n) (transfer ttl k v o n i r t u s)
  unfolding transfer
  transfer-Stored k v o n i r t u s = reads-bind-Ensures (Stored k n) (get k) _ s λ current _.
      lift-bind-Ensures (Stored k n) (prepare_transfer ttl current v o n i r t u) _ s λ l prepared.
        compare_and_swap-Stored k v o n l s
          (prepare_transfer-owner ttl current v o n i r t u prepared)

  -- A termination that returns leaves a lease without owner.
  pub terminate-Stored :
      (k : EntityId) (v : ℕ) (o : ControlOwner) (t u : ℕ) (s : Leases) {l : ControlLease}
      → (terminate ttl k v o t u s).0 ≡ ok l
      → (lookup (terminate ttl k v o t u s).1 k ≡ some l) × (l.owner ≡ no_owner)
  unfolding terminate Stored
  terminate-Stored k v o t u s {l} h =
      transfer-Stored k v o no_owner none (not (o == paused_owner)) t u s l h
