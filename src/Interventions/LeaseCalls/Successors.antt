-- ===== src/Interventions/LeaseCalls/Successors.antt =====
-- What a call of the lease service may replace the lease of a session by.
use replay_forge.Base.{
  Bool-cases, String, ap, bool_eq, eq→≡, inl, inr, nat_eq, ok, option_eq, pair_eq, refl, some,
  string_eq, subst, sym, ℕ, ◌+◌, ◌==◌, ◌∙◌, ◌≡◌, ◌⊎◌,
}
use replay_forge.Dict.{lookup, lookup-insert_eq, lookup-insert_ne, none≢some, some-eq}
use replay_forge.Shared.Ids.{EntityId}
use replay_forge.Interventions.Owner.{
  ControlOwner, automation_owner, human, human_owner, no_owner, owner_eq, paused_owner,
}
use replay_forge.Interventions.Lease.{ControlLease, check_lease}
use replay_forge.Interventions.LeaseRules.{Leases}
use replay_forge.Interventions.LeaseService.Steps.{
  Change, claim-Change, complete_resume-Change, create_for_automation-Change, created,
  heartbeat-Change, moved, pause-Change, reclaim_expired-Change, release-Change, terminate-Change,
  unchanged,
}
use replay_forge.Interventions.LeaseCalls.{
  Call, claim, complete_resume, create_for_automation, heartbeat, pause, perform, reclaim_expired,
  release, terminate,
}

-- The owners before and after the replacement that a call makes.
pub data Moves : Call → ControlOwner → ControlOwner → Type 0 where
  pausing :
      {k : EntityId} {v : ℕ} {i : String} {t u : ℕ}
      → Moves (pause k v i t u) automation_owner paused_owner
  claiming :
      {k : EntityId} {v : ℕ} {i operator : String} {t : ℕ}
      → Moves (claim k v i operator t) paused_owner (human_owner operator)
  reclaiming :
      {k : EntityId} {v : ℕ} {i operator : String} {t u : ℕ} {old : ControlOwner}
      → old.kind ≡ human
      → Moves (reclaim_expired k v i operator t u) old (human_owner operator)
  releasing :
      {k : EntityId} {v : ℕ} {operator : String} {t u : ℕ}
      → Moves (release k v operator t u) (human_owner operator) paused_owner
  resuming :
      {k : EntityId} {v t u : ℕ} → Moves (complete_resume k v t u) paused_owner automation_owner
  stopping :
      {k : EntityId} {v : ℕ} {o : ControlOwner} {t u : ℕ} → Moves (terminate k v o t u) o no_owner
  beating :
      {k : EntityId} {v : ℕ} {o : ControlOwner} {t u w : ℕ} → Moves (heartbeat k v o t u w) o o

module _ (ttl : ℕ) where
  pub perform-Change : (c : Call) (s : Leases) → Change (Moves c) s (perform ttl c s).1
  unfolding perform
  perform-Change (create_for_automation k t) s =
      create_for_automation-Change ttl (Moves (create_for_automation k t)) k t s
  perform-Change (pause k v i t u) s =
      pause-Change ttl (Moves (pause k v i t u)) k v i t u s pausing
  perform-Change (claim k v i o t) s =
      claim-Change ttl (Moves (claim k v i o t)) k v i o t s claiming
  perform-Change (reclaim_expired k v i o t u) s =
      reclaim_expired-Change ttl (Moves (reclaim_expired k v i o t u)) k v i o t u s
        (λ old kind. reclaiming kind)
  perform-Change (release k v o t u) s =
      release-Change ttl (Moves (release k v o t u)) k v o t u s releasing
  perform-Change (complete_resume k v t u) s =
      complete_resume-Change ttl (Moves (complete_resume k v t u)) k v t u s resuming
  perform-Change (terminate k v o t u) s =
      terminate-Change ttl (Moves (terminate k v o t u)) k v o t u s stopping
  perform-Change (heartbeat k v o t u w) s =
      heartbeat-Change ttl (Moves (heartbeat k v o t u w)) k v o t u w s beating

-- What a lease may be replaced by.
pub record Succeeds (c : Call) (old new : ControlLease) : Type 0 where
  pub grown : new.version ≡ old.version + 1
  pub edge : Moves c old.owner new.owner
  pub valid : check_lease new ≡ ok tt
  pub session : new.session_id ≡ old.session_id

abbrev pub Follows : Call → ControlLease → ControlLease → Type 0
Follows c old new = (new ≡ old) ⊎ Succeeds c old new

pub Change-lookup :
    (c : Call) {s s' : Leases} (k : EntityId) (old : ControlLease)
    → Change (Moves c) s s'
    → lookup s k ≡ some old
    → (new : ControlLease) × (lookup s' k ≡ some new) × Follows c old new
Change-lookup c k old unchanged found = (old, found, inl refl)
Change-lookup c {s = s} k old (created l absent valid owner) found =
    elim (Bool-cases (l.session_id == k)) [
      | inl same ↦
          elim (none≢some (sym absent ∙ ap (lookup s) (eq→≡ l.session_id k same) ∙ found)) [ ]
      | inr other ↦ (old, lookup-insert_ne s l.session_id k l other ∙ found, inl refl)
    ]
Change-lookup c {s = s} k old (moved j current l present valid session grown edge) found =
    elim (Bool-cases (j == k)) [
      | inl same ↦
          let at_old = some-eq (ap (lookup s) (sym (eq→≡ j k same)) ∙ present) found in
          (
            l,
            lookup-insert_eq s j k l same,
            inr (
                subst (λ x. Succeeds c x l) at_old
                  (record { grown = grown; edge = edge; valid = valid; session = session })),
          )
      | inr other ↦ (old, lookup-insert_ne s j k l other ∙ found, inl refl)
    ]
