-- ===== src/Interventions/Coordinator/Invariant.antt =====
-- The coordinator keeps the store coherent, also where another method commits between its read
-- and its commit.
use replay_forge.Action.{lift-bind_rule, next-lift, reads-bind_rule}
use replay_forge.Base.{Result, ok, true, ◌≡◌}
use replay_forge.Interventions.Lease.{ControlLease}
use replay_forge.Interventions.Intervention.{Intervention, is_active}
use replay_forge.Interventions.Transition.{transition}
use replay_forge.Shared.Ids.{EntityId}
use replay_forge.Interventions.Store.{Store, compare_and_swap, get}
use replay_forge.Interventions.Store.Coherence.{IsCoherent, compare_and_swap-IsCoherent}
use replay_forge.Interventions.Plans.Facts.{NeedsActive}
use replay_forge.Interventions.Plans.{Pair}
use replay_forge.Interventions.Coordinator.{commit, transact}

-- A commit of a pair that was prepared from an active intervention, read in any earlier state.
pub commit-IsCoherent :
    (current : Intervention) (lease : ControlLease) (pair : Pair) (s : Store)
    → is_active current.status ≡ true
    → IsCoherent s
    → IsCoherent (commit current lease pair s).1
unfolding commit
commit-IsCoherent current lease pair s active coherent =
    rw
      (next-lift
        (compare_and_swap current.id current.status lease.version lease.owner pair.0 pair.1 s)
        (λ p. transition p.0 p.1))
      (compare_and_swap-IsCoherent current.id current.status lease.version lease.owner pair.0 pair.1
        s active coherent)

-- A method that is prepared in one state and committed in another, coherent one.
commit_later-IsCoherent :
    {plan : Intervention → ControlLease → Result Pair} {pair : Pair}
    → NeedsActive plan
    → (current : Intervention) (lease : ControlLease) → plan current lease ≡ ok pair
    → (s : Store) → IsCoherent s
    → IsCoherent (commit current lease pair s).1
commit_later-IsCoherent {pair = pair} needs current lease planned s coherent =
    commit-IsCoherent current lease pair s (needs.active current lease pair planned) coherent

transact-IsCoherent :
    (id : EntityId) (plan : Intervention → ControlLease → Result Pair) (s : Store)
    → NeedsActive plan
    → IsCoherent s
    → IsCoherent (transact id plan s).1
unfolding transact
transact-IsCoherent id plan s needs coherent =
    reads-bind_rule IsCoherent (get id) _ s coherent λ current _.
      lift-bind_rule IsCoherent (plan current.0 current.1) _ s coherent
        λ pair planned. commit_later-IsCoherent needs current.0 current.1 planned s coherent
