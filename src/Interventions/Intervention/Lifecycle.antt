-- ===== src/Interventions/Intervention/Lifecycle.antt =====
-- What each transition of the lifecycle does when it returns.
use replay_forge.Base.{String, arith, none, ok, some, ◌≡◌, ◌⊎◌}
use replay_forge.Interventions.Intervention.{
  Intervention, begin_resume, check_intervention, claimed, intervention, open_, release, reopen,
  resolve, resolved, resuming, terminate, terminated,
}

module _ (i : Intervention) {j : Intervention} where
  pub release_lem :
      release i ≡ ok j
      → (i.status ≡ claimed)
        × (j ≡ record i { status = open_; operator_id = none })
        × (check_intervention j ≡ ok tt)
  unfolding release intervention
  release_lem h = ground arith

  pub begin_resume_lem :
      begin_resume i ≡ ok j
      → (i.status ≡ claimed) × (j ≡ record i { status = resuming }) × (check_intervention j ≡ ok tt)
  unfolding begin_resume intervention
  begin_resume_lem h = ground arith

  pub reopen_lem :
      (text : String)
      → reopen i text ≡ ok j
      → (i.status ≡ resuming)
        × (j ≡ record i { status = open_; operator_id = none; explanation = text })
        × (check_intervention j ≡ ok tt)
  unfolding reopen intervention
  reopen_lem text h = ground arith

  pub resolve_lem :
      (text : String)
      → resolve i text ≡ ok j
      → (i.status ≡ resuming)
        × (j ≡ record i { status = resolved; resolution = some text })
        × (check_intervention j ≡ ok tt)
  unfolding resolve intervention
  resolve_lem text h = ground arith

  pub terminate_lem :
      (text : String)
      → terminate i text ≡ ok j
      → ((i.status ≡ open_) ⊎ (i.status ≡ claimed))
        × (j ≡ record i { status = terminated; resolution = some text })
        × (check_intervention j ≡ ok tt)
  unfolding terminate intervention
  terminate_lem text h = ground arith
