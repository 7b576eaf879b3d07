-- ===== src/Interventions/Trace/Samples.antt =====
-- A run of the subsystem on concrete data: a session starts, and an intervention pauses it.
use replay_forge.Text.{append, is_blank, is_identifier, is_truthy}
use replay_forge.Shared.Ids.{parse_id}
use replay_forge.Interventions.Trace.Safety.{Reach-IsCoherent, active_stops_automation, one_active}
use replay_forge.Interventions.Store.Coherence.{IsCoherent}
use replay_forge.Interventions.LeaseRules.{assert_can_act, get, prepare_transfer}
use replay_forge.Dict.{Dict, insert, lookup, lookup-insert_eq}
use replay_forge.Base.{
  subst, String, [], err, lease_conflict, nat_eq, none, ok, option_eq, pair_eq, refl, some,
  string_eq, ◌∷◌, ◌≡◌,
}
use replay_forge.Shared.Clock.{datetime_eq, utc}
use replay_forge.Surfaces.Observation.{Observation}
use replay_forge.Interventions.Owner.{automation_owner, owner_beq, owner_eq, paused_owner}
use replay_forge.Interventions.Lease.{ControlLease, check_lease, control_lease}
use replay_forge.Interventions.LeaseService
use replay_forge.Interventions.Context.{InterventionContext, replay}
use replay_forge.Interventions.Intervention.{
  Intervention, check_identity, check_intervention, check_ownership, is_trigger_code, open_,
}
use replay_forge.Interventions.Store.{
  Store, check_lease_replacement, create_paused, find_lease, pause_checks, paused,
}
use replay_forge.Interventions.Router.{
  Opening, open_intervention, prepare_opening, safe_explanation,
}
use replay_forge.Interventions.Trace.{
  Reach, empty, next_step, opening, start, starting, with_leases,
}

abbrev sample_session : String
sample_session = "ses_0123456789abcdef0123456789abcdef"

abbrev sample_id : String
sample_id = "int_0123456789abcdef0123456789abcdef"

abbrev sample_run : String
sample_run = "run_0123456789abcdef0123456789abcdef"

abbrev sample_observation : Observation
sample_observation = record {
  id = "evt_0123456789abcdef0123456789abcdef";
  session_id = sample_session;
  captured_at = utc 105;
  route = "/accounts";
  fingerprint = "f";
  landmarks = [];
  frame_titles = [];
  screenshot_evidence_key = none;
}

abbrev sample_context : InterventionContext
sample_context = record {
  run_mode = replay;
  application_family = "bank";
  tenant = "demo";
  task_summary = "Pay the bill";
  surface_route = "/accounts";
  step_id = some "pay";
  capability_id = some "bank.pay";
  capability_version = some "1.0.0";
  capability_name = some "Pay";
}

abbrev sample_opening : Opening
sample_opening = record {
  intervention_id = sample_id;
  run_id = sample_run;
  session_id = sample_session;
  expected_lease_version = 1;
  code = "captcha";
  step_id = some "pay";
  observation = sample_observation;
  context = sample_context;
  explanation = none;
}

abbrev routed : Intervention
routed = record {
  id = sample_id;
  run_id = sample_run;
  session_id = sample_session;
  trigger_code = "captcha";
  explanation = "Automation paused safely at pay.";
  status = open_;
  created_at = utc 111;
  context = sample_context;
  operator_id = none;
  resolution = none;
}

abbrev paused_lease : ControlLease
paused_lease = record {
  session_id = sample_session;
  owner = paused_owner;
  version = 2;
  issued_at = utc 112;
  last_heartbeat = utc 112;
  expires_at = utc 142;
  intervention_id = some sample_id;
}

abbrev opened : Store
opened = record {
  interventions = (sample_id, routed) ∷ [];
  observations = (sample_id, sample_observation) ∷ [];
  leases = (sample_session, paused_lease) ∷ [];
}

abbrev begun : Store
begun = record {
  interventions = [];
  observations = [];
  leases =
      (
        sample_session,
        record paused_lease {
          owner = automation_owner;
          version = 1;
          issued_at = utc 100;
          last_heartbeat = utc 100;
          expires_at = utc 130;
          intervention_id = none;
        },
      )
      ∷ [];
}

starts : with_leases 30 empty (LeaseService.create_for_automation 30 sample_session 100) ≡ begun
unfolding LeaseService.create_for_automation replay_forge.Shared.Ids.parse_id
    replay_forge.Interventions.Lease.control_lease replay_forge.Interventions.Lease.check_lease
    LeaseService.create replay_forge.Dict.lookup replay_forge.Dict.insert
starts = refl

-- What the opening prepares and then stores.
prepares : prepare_opening 30 sample_opening 111 111 112 begun ≡ ok (routed, paused_lease)
unfolding prepare_opening replay_forge.Shared.Ids.parse_id
    replay_forge.Interventions.Intervention.intervention
    replay_forge.Interventions.Intervention.check_intervention
    replay_forge.Interventions.Intervention.check_identity
    replay_forge.Interventions.Intervention.is_trigger_code replay_forge.Text.is_identifier
    replay_forge.Text.is_blank replay_forge.Interventions.Router.safe_explanation
    replay_forge.Text.is_truthy replay_forge.Text.append
    replay_forge.Interventions.Intervention.check_ownership
    replay_forge.Interventions.LeaseRules.get replay_forge.Dict.lookup
    replay_forge.Interventions.LeaseRules.prepare_transfer
    replay_forge.Interventions.Owner.owner_beq replay_forge.Interventions.Lease.control_lease
    replay_forge.Interventions.Lease.check_lease
prepares = refl

stores :
    create_paused routed sample_observation 1 automation_owner paused_lease begun
    ≡ (ok (routed, paused_lease), opened)
unfolding create_paused replay_forge.Interventions.Store.paused
    replay_forge.Interventions.Store.pause_checks replay_forge.Dict.lookup
    replay_forge.Interventions.Store.find_lease replay_forge.Interventions.Owner.owner_beq
    replay_forge.Interventions.Store.check_lease_replacement
    replay_forge.Interventions.Transition.check_transition replay_forge.Dict.insert
stores = refl

opens : (open_intervention 30 sample_opening 111 111 112 begun).1 ≡ opened
unfolding open_intervention
opens = rw (prepares, stores) refl

abbrev run_to_opened : Reach 30 opened
run_to_opened = subst (Reach 30) opens (
    next_step (subst (Reach 30) starts (next_step start (starting sample_session 100)))
      (opening sample_opening 111 111 112))

routed_found : lookup opened.interventions sample_id ≡ some routed
unfolding lookup
routed_found = refl

Reach-IsCoherent_example : IsCoherent opened
Reach-IsCoherent_example = Reach-IsCoherent 30 run_to_opened

one_active_example : sample_id ≡ sample_id
one_active_example =
    one_active 30 run_to_opened sample_id sample_id routed routed routed_found routed_found refl
      refl refl

active_stops_automation_example :
    assert_can_act sample_session 1 automation_owner 113 opened.leases ≡ err lease_conflict
active_stops_automation_example =
    active_stops_automation 30 run_to_opened sample_id routed routed_found refl 1 113
