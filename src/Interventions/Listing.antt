-- ===== src/Interventions/Listing.antt =====
-- interventions/transactions.py, interventions/router.py and interventions/service.py: the reads of
-- the subsystem that list interventions. Every stored time is aware, so times compare by instant.
use replay_forge.Base.{
  Bool, List, Option, Result, [], err, if◌then◌else◌, intervention_not_found, leb, nat_eq, none, ok,
  option_eq, pair_eq, some, string_eq, true, ◌&&◌, ◌>>=◌, ◌>>◌, ◌∷◌,
}
use replay_forge.Dict.{Dict, lookup}
use replay_forge.Shared.Ids.{EntityId}
use replay_forge.Surfaces.Observation.{Observation}
use replay_forge.Interventions.Lease.{ControlLease}
use replay_forge.Interventions.Context.{RunMode, mode_beq}
use replay_forge.Interventions.Intervention.{Intervention, is_active, open_, status_beq}
use replay_forge.Interventions.Transition.{Transition, check_transition, transition}
use replay_forge.Interventions.Store.{Store, find_lease, get}

-- `run_mode is None or item.context.run_mode is run_mode`
abbrev is_of_mode : Option RunMode → Intervention → Bool
is_of_mode none i = true
is_of_mode (some mode) i = mode_beq i.context.run_mode mode

chosen : (Intervention → Bool) → Dict EntityId Intervention → List Intervention
chosen test [] = []
chosen test ((k, i) ∷ rest) = let others = chosen test rest in if test i then i ∷ others else others

-- `sorted(..., key=created_at)`, which keeps the order of equal times.
insert_by_time : Intervention → List Intervention → List Intervention
insert_by_time i [] = i ∷ []
insert_by_time i (j ∷ rest) =
    let others = insert_by_time i rest in
    if leb i.created_at.instant j.created_at.instant then i ∷ j ∷ rest else j ∷ others

sorted : List Intervention → List Intervention
unfolding insert_by_time
sorted [] = []
sorted (i ∷ rest) = insert_by_time i (sorted rest)

-- `InMemoryInterventionRouter.list_active`
listed : Option RunMode → Dict EntityId Intervention → List Intervention
unfolding sorted chosen
listed mode interventions =
    sorted (chosen (λ i. is_active i.status && is_of_mode mode i) interventions)

-- `InMemoryInterventionRouter.list_open`
list_open : Dict EntityId Intervention → List Intervention
unfolding chosen
list_open interventions = chosen (λ i. status_beq i.status open_) interventions

found_observation : Option Observation → Result Observation
found_observation none = err intervention_not_found
found_observation (some o) = ok o

-- `InMemoryInterventionRouter.observation`
find_observation : EntityId → Store → Result Observation
unfolding found_observation
find_observation id s = found_observation (lookup s.observations id)

paired : Store → List Intervention → Result (List (Intervention × ControlLease))
paired s [] = ok []
paired s (i ∷ rest) = do
  lease ← find_lease i.session_id s
  others ← paired s rest
  ok ((i, lease) ∷ others)

all_agree : List (Intervention × ControlLease) → Result (Unit {0})
all_agree [] = ok tt
all_agree ((i, l) ∷ rest) = do check_transition i l; all_agree rest

-- `InMemoryInterventionTransitionRepository.list_active`
list_active : Option RunMode → Store → Result (List (Intervention × ControlLease))
unfolding paired all_agree
list_active mode s = do pairs ← paired s (listed mode s.interventions); all_agree pairs; ok pairs

-- `InterventionCoordinator.get`
read_transition : EntityId → Store → Result Transition
read_transition id s = do current ← get id s; transition current.0 current.1
