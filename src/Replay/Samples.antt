-- ===== src/Replay/Samples.antt =====
-- An execution of one step on a session that grants everything.
use replay_forge.Replay.Guarantees.Resuming.{
  resume_ends, resume_stays_sound, resumed_recoveries_are_bounded,
}
use replay_forge.Dict.{Dict, lookup, lookup-insert_eq}
use replay_forge.Base.{
  String, [], bool_eq, err, false, lease_not_found, nat_eq, none, option_eq, pair_eq, refl, some,
  string_eq, true, ℕ, ◌+◌, ◌-◌, ◌∷◌, ◌≡◌, ◌≢◌, ◌≤◌,
}
use replay_forge.Shared.Clock.{datetime_eq, utc}
use replay_forge.Policy.Types.{class_eq, reversible}
use replay_forge.Policy.Layers.{EffectivePolicy}
use replay_forge.Surfaces.Observation.{Observation}
use replay_forge.Interventions.Owner.{automation_owner, owner_eq}
use replay_forge.Interventions.LeaseRules.{assert_can_act}
use replay_forge.Capabilities.Json.{ObjectContract, end, none_left}
use replay_forge.Capabilities.Targets.{exact}
use replay_forge.Capabilities.Conditions.{text_condition}
use replay_forge.Capabilities.Artifact.{CapabilityArtifact, Step, press_keys}
use replay_forge.Replay.Machine.{
  Ports, Run, State, call, closed, completed, exhausted, handle, raised, record_event, replied,
  returned,
}
use replay_forge.Replay.Results.{ReplayRequest, RunResult, failure}
use replay_forge.Replay.Engine.{execute_step, uses_of}
use replay_forge.Replay.Execution.{
  Driver, ReplayContinuation, close_on_raise, close_session, conclude, execute, resume, supervise,
}
use replay_forge.Replay.Journal.{is_sound, limit, starts}
use replay_forge.Replay.Guarantees.{execute_ends, journal_stays_sound, recoveries_are_bounded}
use replay_forge.Replay.Guarantees.Closing.{
  ends_closed, refused_step_touches_nothing, session_is_closed,
}

abbrev sample_session : String
sample_session = "ses_0123456789abcdef0123456789abcdef"

abbrev seen : Observation
seen = record {
  id = "evt_0123456789abcdef0123456789abcdef";
  session_id = sample_session;
  captured_at = utc 105;
  route = "/accounts/12";
  fingerprint = "f";
  landmarks = [];
  frame_titles = [];
  screenshot_evidence_key = none;
}

abbrev open_policy : EffectivePolicy
open_policy = record {
  layer_names = "base" ∷ [];
  allowed_origins = "https://bank.test" ∷ [];
  allowed_route_patterns = "/accounts/*" ∷ [];
  allowed_action_types = "press_keys" ∷ [];
  maximum_risk = reversible;
  forbidden_field_classes = [];
}

abbrev ports : Ports (Unit {0})
ports = record {
  session_id = sample_session;
  origin = "https://bank.test";
  evaluate = λ c o i w. (replied true, w);
  wait_until = λ c o i t w. (replied true, w);
  observe = λ w. (replied seen, w);
  resolve = λ b t w. (replied (record { handle = "h"; registered_risk = none }), w);
  execute = λ a t i w. (replied completed, w);
  extract = λ t w. (replied "", w);
  capture_provider_frame = λ w. (replied "frame", w);
  attach_screenshot = λ k f w. (replied tt, w);
  close = λ w. (replied tt, w);
  sleep = λ n w. w;
  clock = λ n. 100;
  digits = λ n. "0123456789abcdef0123456789abcdef";
  show_json = λ v. "";
  lower = λ s. s;
  library = record {
    urlsplit = λ s. some (record {
      scheme = "https";
      hostname = some "bank.test";
      username = none;
      password = none;
      path = "";
      query = "";
      fragment = "";
      port = some none;
    });
    lower = λ s. s;
    casefold = λ s. s;
    decimal = λ n. "0";
  };
  formats = record {
    full_match = λ p s. true;
    decimal_of = λ s. some true;
    is_date = λ s. true;
    datetime_of = λ s. some true;
  };
  policy = open_policy;
  ttl = 30;
}

abbrev driver : Driver (Unit {0})
driver = record {
  compatibility_validator = λ a t w. (replied tt, w);
  open_surface = λ f t e w. (replied tt, w);
  continuation_sink = none;
}

abbrev confirm : Step
confirm = record {
  id = "confirm";
  name = "Confirm";
  action = press_keys ("Enter" ∷ []);
  target = none;
  preconditions = [];
  postconditions = [];
  timeout_ms = 1000;
  retry = record { max_attempts = 2; backoff_ms = 500 ∷ []; retry_on = "timeout" ∷ [] };
  recovery_refs = [];
  outcome_refs = [];
  failure_refs = [];
  risk = reversible;
}

abbrev no_fields : ObjectContract
no_fields = record { required = []; properties = none_left }

abbrev artifact : CapabilityArtifact
artifact = record {
  capability = record {
    id = "bank.confirm";
    version = "1.0.0";
    name = "Confirm";
    description = "Confirm";
    application_family = "bank";
    risk = reversible;
  };
  compatibility = record {
    application_family = "bank";
    supported_variants = "demo" ∷ [];
    entry_point = "home";
    rendered_surface = false;
  };
  inputs = no_fields;
  outputs = no_fields;
  preconditions = [];
  steps = confirm ∷ [];
  recoveries = [];
  outcomes = [];
  failures = [];
  checkpoint = record { id = "done"; condition = text_condition "Done" exact };
  policy = record {
    allowed_action_types = "press_keys" ∷ [];
    allowed_entry_points = "home" ∷ [];
    maximum_risk = reversible;
    allowed_route_patterns = "/accounts/*" ∷ [];
    forbidden_text_inputs = [];
    redacted_outputs = [];
  };
}

abbrev request : ReplayRequest
request = record {
  run_id = "run_0123456789abcdef0123456789abcdef";
  artifact = artifact;
  tenant = "demo";
  inputs = end;
  allow_intervention = true;
}

abbrev start : State (Unit {0})
start = record {
  world = tt;
  store = record { interventions = []; observations = []; leases = [] };
  outputs = end;
  recovery_uses = [];
  pause_points = [];
  log = [];
  readings = 0;
}

execute_ends_example : (execute ports driver request start).0 ≢ exhausted
execute_ends_example = execute_ends ports driver request start

starts_sound : is_sound artifact [] ≡ true
unfolding is_sound
starts_sound = refl

journal_stays_sound_example : is_sound artifact (execute ports driver request start).1.log ≡ true
journal_stays_sound_example = journal_stays_sound ports driver request start starts_sound

recoveries_are_bounded_example :
    let t = (execute ports driver request start).1 in
    (starts "reload" t.log ≡ starts "reload" start.log + uses_of t.recovery_uses "reload")
    × (starts "reload" t.log ≤ starts "reload" start.log + limit artifact "reload")
recoveries_are_bounded_example = recoveries_are_bounded ports driver request start "reload"

abbrev gives_up : Run (Unit {0}) (RunResult × ℕ)
gives_up s = (returned (failure "stopped" false none, 0), s)

closes :
    supervise ports driver request end gives_up start
    ≡ (returned (failure "stopped" false none), record start { log = closed ∷ [] })
unfolding supervise replay_forge.Replay.Execution.close_on_raise
    replay_forge.Replay.Execution.conclude replay_forge.Replay.Execution.close_session
    replay_forge.Replay.Machine.record_event replay_forge.Replay.Machine.call
closes = refl

session_is_closed_example : ends_closed (closed ∷ []) ≡ true
session_is_closed_example =
    session_is_closed ports driver request end gives_up start (record start { log = closed ∷ [] })
      (failure "stopped" false none) closes refl

no_lease : assert_can_act sample_session 1 automation_owner 100 [] ≡ err lease_not_found
unfolding assert_can_act replay_forge.Dict.lookup
no_lease = refl

refused_step_touches_nothing_example :
    execute_step ports request end confirm 1 1 start
    ≡ (raised lease_not_found, record start { readings = 1 })
refused_step_touches_nothing_example =
    refused_step_touches_nothing ports request end confirm 1 1 start lease_not_found no_lease

abbrev interrupted : ReplayContinuation
interrupted = record {
  intervention_id = "int_0123456789abcdef0123456789abcdef";
  request = request;
  inputs = end;
  outputs = end;
  recovery_uses = [];
  interrupted_step_index = 0;
  initial_fingerprint = "f";
  retry_step = true;
  retry_attempt = 1;
}

resume_ends_example : (resume ports driver interrupted 1 none start).0 ≢ exhausted
resume_ends_example = resume_ends ports driver interrupted 1 none start

resume_stays_sound_example :
    is_sound artifact (resume ports driver interrupted 1 none start).1.log ≡ true
resume_stays_sound_example = resume_stays_sound ports driver interrupted 1 none start starts_sound

resumed_recoveries_are_bounded_example :
    let t = (resume ports driver interrupted 1 none start).1 in
    (starts "reload" t.log + uses_of interrupted.recovery_uses "reload"
      ≡ starts "reload" start.log + uses_of t.recovery_uses "reload")
    × (starts "reload" t.log
        ≤ starts "reload" start.log
          + (limit artifact "reload" - uses_of interrupted.recovery_uses "reload"))
resumed_recoveries_are_bounded_example =
    resumed_recoveries_are_bounded ports driver interrupted 1 none start "reload"
