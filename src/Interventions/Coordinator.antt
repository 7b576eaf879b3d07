-- ===== src/Interventions/Coordinator.antt =====
-- interventions/service.py: the coordinator's methods. Each reads the pair, prepares both
-- replacements (Plans) and commits them with the status, version and owner that it read. The
-- arguments `tested`, `checked` and `now` are the clock's readings, in the order of the method.
pub mod Invariant
use replay_forge.Base.{Option, Result, String, ℕ}
use replay_forge.Action.{Action, lift, reads, ◌>>=◌, ◌>>◌}
use replay_forge.Shared.Ids.{EntityId}
use replay_forge.Interventions.Lease.{ControlLease}
use replay_forge.Interventions.Intervention.{Intervention}
use replay_forge.Interventions.Transition.{Transition, transition}
use replay_forge.Interventions.Store.{Store, compare_and_swap, get}
use replay_forge.Interventions.Plans
use replay_forge.Interventions.Plans.{Pair}

-- `_commit`
pub commit : Intervention → ControlLease → Pair → Action Store Transition
commit current lease replacements = do
  stored ←
      compare_and_swap current.id current.status lease.version lease.owner replacements.0
        replacements.1
  lift (transition stored.0 stored.1)

-- What the methods share: the read, the preparation and the commit.
pub transact : EntityId → (Intervention → ControlLease → Result Pair) → Action Store Transition
transact id plan = do
  current ← reads (get id)
  replacements ← lift (plan current.0 current.1)
  commit current.0 current.1 replacements

module _ (ttl : ℕ) where
  pub claim : EntityId → ℕ → String → ℕ → ℕ → Action Store Transition
  claim id version operator tested now = transact id (Plans.claim ttl version operator tested now)

  pub release : EntityId → ℕ → String → ℕ → ℕ → Action Store Transition
  release id version operator checked now =
      transact id (Plans.release ttl version operator checked now)

  pub begin_resume : EntityId → ℕ → String → ℕ → ℕ → Action Store Transition
  begin_resume id version operator checked now =
      transact id (Plans.begin_resume ttl version operator checked now)

  pub reopen : EntityId → String → Action Store Transition
  reopen id explanation = transact id (Plans.reopen ttl explanation)

  pub complete_resume : EntityId → ℕ → String → ℕ → ℕ → Action Store Transition
  complete_resume id version resolution checked now =
      transact id (Plans.complete_resume ttl version resolution checked now)

  pub heartbeat : EntityId → ℕ → String → ℕ → ℕ → Action Store Transition
  heartbeat id version operator checked now =
      transact id (Plans.heartbeat ttl version operator checked now)

  pub terminate : EntityId → ℕ → Option String → String → ℕ → ℕ → Action Store Transition
  terminate id version operator resolution checked now =
      transact id (Plans.terminate ttl version operator resolution checked now)
