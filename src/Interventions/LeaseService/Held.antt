-- ===== src/Interventions/LeaseService/Held.antt =====
-- The heartbeat of a holder replaces only a lease that the holder has.
use replay_forge.Base.{
  Option-cases, String, bool_eq, inl, inr, nat_eq, none, option_eq, pair_eq, some, string_eq, ℕ,
  ◌≡◌,
}
use replay_forge.Dict.{insert, lookup}
use replay_forge.Action.{lift-bind_rule, reads-bind_rule}
use replay_forge.Shared.Ids.{EntityId, EntityKind, parse_id}
use replay_forge.Interventions.Owner.{ControlOwner, owner_eq}
use replay_forge.Interventions.Lease.{ControlLease, control_lease}
use replay_forge.Interventions.LeaseRules.{
  Leases, assert_can_act, check_swap, get, prepare_heartbeat,
}
use replay_forge.Interventions.LeaseService.{
  compare_and_swap, create, create_for_automation, heartbeat,
}
use replay_forge.Interventions.LeaseService.Steps.{check_swap_facts, first_lease, get-eq-ok}

pub data Swap (k : EntityId) (o : ControlOwner) (s : Leases) : Leases → Type 0 where
  stay : Swap k o s s
  swap :
      (current l : ControlLease)
      → lookup s k ≡ some current
      → current.owner ≡ o
      → l.session_id ≡ current.session_id
      → Swap k o s (insert s k l)

compare_and_swap-Swap :
    (k : EntityId) (v : ℕ) (o : ControlOwner) (l : ControlLease) (s : Leases)
    → Swap k o s (compare_and_swap k v o l s).1
unfolding compare_and_swap
compare_and_swap-Swap k v o l s = reads-bind_rule (Swap k o s) (get k) _ s stay λ current found.
    lift-bind_rule (Swap k o s) (check_swap current v o l) _ s stay λ _ passed.
      let (same_version, same_owner, same_session, grown) = check_swap_facts current v o l passed in
      swap current l (get-eq-ok k s found) same_owner same_session

pub heartbeat-Swap :
    (ttl : ℕ) (k : EntityId) (v : ℕ) (o : ControlOwner) (t u w : ℕ) (s : Leases)
    → Swap k o s (heartbeat ttl k v o t u w s).1
unfolding heartbeat
heartbeat-Swap ttl k v o t u w s =
    reads-bind_rule (Swap k o s) (assert_can_act k v o t) _ s stay λ current _.
      lift-bind_rule (Swap k o s) (prepare_heartbeat ttl current v o u w) _ s stay
        λ l _. compare_and_swap-Swap k v o l s

pub data Fresh (s : Leases) : Leases → Type 0 where
  same : Fresh s s
  fresh : (l : ControlLease) → lookup s l.session_id ≡ none → Fresh s (insert s l.session_id l)

create-Fresh : (l : ControlLease) (s : Leases) → Fresh s (create l s).1
unfolding create
create-Fresh l s = elim (Option-cases (lookup s l.session_id)) [
  | inl absent ↦ rw absent (fresh l absent)
  | inr (old, present) ↦ rw present same
]

pub create_for_automation-Fresh :
    (ttl : ℕ) (k : String) (t : ℕ) (s : Leases) → Fresh s (create_for_automation ttl k t s).1
unfolding create_for_automation
create_for_automation-Fresh ttl k t s =
    lift-bind_rule (Fresh s) (parse_id k (some EntityKind.session)) _ s same λ id _.
      lift-bind_rule (Fresh s) (control_lease (first_lease ttl id t)) _ s same
        λ l _. create-Fresh l s
