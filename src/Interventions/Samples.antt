-- ===== src/Interventions/Samples.antt =====
-- Runs of the intervention subsystem on concrete leases.
use replay_forge.Shared.Ids.Roundtrip.{parse_id-new_id}
use replay_forge.Text.{every, len}
use replay_forge.Shared.Ids.{EntityKind, is_hex, new_id, parse_id}
use replay_forge.Interventions.LeaseCalls.Successors.{Moves}
use replay_forge.Interventions.LeaseCalls.Soundness.{IsSound, perform-Moves, run-IsSound}
use replay_forge.Interventions.LeaseCalls.Ownership.{Presents, one_winner, terminated_for_ever}
use replay_forge.Interventions.HumanInput.{
  HumanInputCommand, audit_details, audit_hides_text, check_command, pointer_input, text_input,
}
use replay_forge.Interventions.LeaseCalls.Fencing.{fencing}
use replay_forge.Dict.{Dict, insert, lookup, lookup-insert_eq}
use replay_forge.Base.{
  String, [], arith, bool_eq, err, lease_conflict, nat_eq, none, ok, option_eq, pair_eq, pos, refl,
  some, string_eq, true, ◌∷◌, ◌≡◌, ◌≢◌, ◌⊎◌,
}
use replay_forge.Shared.Clock.{datetime_eq, utc}
use replay_forge.Interventions.Owner.{automation_owner, no_owner, owner_beq, owner_eq, paused_owner}
use replay_forge.Interventions.Lease.{ControlLease, check_lease, control_lease}
use replay_forge.Interventions.LeaseRules.{
  Leases, assert_can_act, check_swap, get, prepare_transfer,
}
use replay_forge.Interventions.LeaseService
use replay_forge.Interventions.LeaseCalls.{
  claim, create_for_automation, heartbeat, pause, perform, run, terminate,
}

abbrev sample_session : String
sample_session = "ses_0123456789abcdef0123456789abcdef"

abbrev sample_id : String
sample_id = "int_0123456789abcdef0123456789abcdef"

abbrev first : ControlLease
first = record {
  session_id = sample_session;
  owner = automation_owner;
  version = 1;
  issued_at = utc 100;
  last_heartbeat = utc 100;
  expires_at = utc 130;
  intervention_id = none;
}

abbrev second : ControlLease
second = record {
  session_id = sample_session;
  owner = paused_owner;
  version = 2;
  issued_at = utc 112;
  last_heartbeat = utc 112;
  expires_at = utc 142;
  intervention_id = some sample_id;
}

abbrev before : Leases
before = (sample_session, first) ∷ []

abbrev after_pause : Leases
after_pause = (sample_session, second) ∷ []

creates : perform 30 (create_for_automation sample_session 100) [] ≡ (ok first, before)
unfolding perform LeaseService.create_for_automation replay_forge.Shared.Ids.parse_id
    replay_forge.Interventions.Lease.control_lease replay_forge.Interventions.Lease.check_lease
    LeaseService.create lookup replay_forge.Dict.insert
creates = refl

pauses : perform 30 (pause sample_session 1 sample_id 110 112) before ≡ (ok second, after_pause)
unfolding perform LeaseService.pause replay_forge.Shared.Ids.parse_id LeaseService.transfer get
    lookup replay_forge.Interventions.LeaseRules.prepare_transfer owner_beq
    replay_forge.Interventions.Lease.control_lease replay_forge.Interventions.Lease.check_lease
    LeaseService.compare_and_swap replay_forge.Interventions.LeaseRules.check_swap
    replay_forge.Dict.insert
pauses = refl

replaces :
    get sample_session (perform 30 (pause sample_session 1 sample_id 110 112) before).1 ≢ ok first
unfolding get lookup
replaces = rw pauses (λ h. ground (arith, h))

may_act : assert_can_act sample_session 1 automation_owner 110 before ≡ ok first
unfolding assert_can_act lookup owner_beq
may_act = refl

fencing_example :
    assert_can_act sample_session 1 automation_owner 111 (
      run 30
        (pause sample_session 1 sample_id 110 112 ∷ claim sample_session 2 sample_id "ana" 113 ∷ [])
        before)
    ≡ err lease_conflict
fencing_example =
    fencing 30 sample_session 1 automation_owner 110 before may_act
      (pause sample_session 1 sample_id 110 112) replaces
      (claim sample_session 2 sample_id "ana" 113 ∷ []) automation_owner 111

first_stored : get sample_session before ≡ ok first
unfolding get lookup
first_stored = refl

beats : Presents (heartbeat sample_session 1 automation_owner 111 111 111) sample_session 1
unfolding Presents
beats = (refl, refl)

one_winner_example :
    (perform 30
      (heartbeat sample_session 1 automation_owner 111 111 111)
      (run 30 (pause sample_session 1 sample_id 110 112 ∷ []) before)).1
    ≡ run 30 (pause sample_session 1 sample_id 110 112 ∷ []) before
one_winner_example =
    one_winner 30 sample_session before first (pause sample_session 1 sample_id 110 112)
      first_stored replaces [] (heartbeat sample_session 1 automation_owner 111 111 111) beats

abbrev ended : ControlLease
ended = record {
  session_id = sample_session;
  owner = no_owner;
  version = 2;
  issued_at = utc 112;
  last_heartbeat = utc 112;
  expires_at = utc 142;
  intervention_id = none;
}

terminates : (perform 30 (terminate sample_session 1 automation_owner 110 112) before).0 ≡ ok ended
unfolding perform LeaseService.terminate LeaseService.transfer get lookup
    replay_forge.Interventions.LeaseRules.prepare_transfer owner_beq
    replay_forge.Interventions.Lease.control_lease replay_forge.Interventions.Lease.check_lease
    replay_forge.Shared.Ids.parse_id LeaseService.compare_and_swap
    replay_forge.Interventions.LeaseRules.check_swap
terminates = refl

terminated_for_ever_example :
    assert_can_act sample_session 2 automation_owner 113 (
      run 30
        (terminate sample_session 1 automation_owner 110 112
          ∷ heartbeat sample_session 2 automation_owner 112 112 112
          ∷ [])
        before)
    ≡ err lease_conflict
terminated_for_ever_example =
    terminated_for_ever 30 sample_session 1 automation_owner 110 112 before terminates
      (heartbeat sample_session 2 automation_owner 112 112 112 ∷ []) 2 automation_owner 113
      (λ h. ground (arith, h))

run-IsSound_example : IsSound (
    run 30
      (create_for_automation sample_session 100 ∷ pause sample_session 1 sample_id 110 112 ∷ [])
      [])
run-IsSound_example =
    run-IsSound 30
      (create_for_automation sample_session 100 ∷ pause sample_session 1 sample_id 110 112 ∷ [])

first_found : lookup before sample_session ≡ some first
unfolding lookup
first_found = refl

second_found :
    lookup (perform 30 (pause sample_session 1 sample_id 110 112) before).1 sample_session
    ≡ some second
unfolding lookup
second_found = rw pauses refl

perform-Moves_example :
    (second ≡ first)
    ⊎ Moves (pause sample_session 1 sample_id 110 112) automation_owner paused_owner
perform-Moves_example =
    perform-Moves 30 (pause sample_session 1 sample_id 110 112) sample_session before first_found
      second_found

abbrev tap : HumanInputCommand
tap = record {
  client_sequence = pos 1;
  source_frame_sequence = pos 4;
  viewport = record { width = 640; height = 480 };
  action = pointer_input (pos 639) (pos 12);
}

tap_admitted : check_command tap ≡ ok tt
unfolding check_command
tap_admitted = refl

equally_long : len "hunter2" ≡ len "letmein"
equally_long = refl

audit_hides_text_example :
    audit_details (record tap { action = text_input "hunter2" })
    ≡ audit_details (record tap { action = text_input "letmein" })
audit_hides_text_example = audit_hides_text tap "hunter2" "letmein" equally_long

hex_digits : every is_hex "0123456789abcdef0123456789abcdef" ≡ true
unfolding every is_hex
hex_digits = refl

parse_id-new_id_example :
    parse_id
      (new_id EntityKind.session "0123456789abcdef0123456789abcdef")
      (some EntityKind.session)
    ≡ ok (new_id EntityKind.session "0123456789abcdef0123456789abcdef")
parse_id-new_id_example =
    parse_id-new_id EntityKind.session "0123456789abcdef0123456789abcdef" hex_digits refl
