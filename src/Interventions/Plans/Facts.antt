-- ===== src/Interventions/Plans/Facts.antt =====
-- What the plans of the coordinator go through when they return.
use replay_forge.Base.{Option, Result, String, arith, ok, true, ℕ, ◌≡◌}
use replay_forge.Interventions.Lease.{ControlLease}
use replay_forge.Interventions.Intervention.{Intervention, is_active}
use replay_forge.Interventions.Intervention.Lifecycle
use replay_forge.Interventions.Plans.{
  Pair, begin_resume, claim, complete_resume, heartbeat, release, reopen, terminate,
}

-- A plan that returns starts from an active intervention.
pub record NeedsActive (plan : Intervention → ControlLease → Result Pair) : Type 0 where
  pub active :
      (i : Intervention) (l : ControlLease) (p : Pair) → plan i l ≡ ok p → is_active i.status ≡ true

module _ (ttl : ℕ) where
  pub claim-NeedsActive : (v : ℕ) (o : String) (t u : ℕ) → NeedsActive (claim ttl v o t u)
  unfolding claim
  claim-NeedsActive v o t u = record { active = λ i l p h. ground arith }

  pub release-NeedsActive : (v : ℕ) (o : String) (t u : ℕ) → NeedsActive (release ttl v o t u)
  unfolding release
  release-NeedsActive v o t u = record {
    active = λ i l p h. ground (arith, Lifecycle.release_lem i {j = p.0});
  }

  pub begin_resume-NeedsActive :
      (v : ℕ) (o : String) (t u : ℕ) → NeedsActive (begin_resume ttl v o t u)
  unfolding begin_resume
  begin_resume-NeedsActive v o t u = record {
    active = λ i l p h. ground (arith, Lifecycle.begin_resume_lem i {j = p.0});
  }

  pub reopen-NeedsActive : (text : String) → NeedsActive (reopen ttl text)
  unfolding reopen
  reopen-NeedsActive text = record {
    active = λ i l p h. ground (arith, Lifecycle.reopen_lem i {j = p.0} text);
  }

  pub complete_resume-NeedsActive :
      (v : ℕ) (text : String) (t u : ℕ) → NeedsActive (complete_resume ttl v text t u)
  unfolding complete_resume
  complete_resume-NeedsActive v text t u = record {
    active = λ i l p h. ground (arith, Lifecycle.resolve_lem i {j = p.0} text);
  }

  pub heartbeat-NeedsActive : (v : ℕ) (o : String) (t u : ℕ) → NeedsActive (heartbeat ttl v o t u)
  unfolding heartbeat
  heartbeat-NeedsActive v o t u = record { active = λ i l p h. ground arith }

  pub terminate-NeedsActive :
      (v : ℕ) (o : Option String) (text : String) (t u : ℕ)
      → NeedsActive (terminate ttl v o text t u)
  unfolding terminate
  terminate-NeedsActive v o text t u = record {
    active = λ i l p h. ground (arith, Lifecycle.terminate_lem i {j = p.0} text);
  }
