-- ===== src/Replay/Machine.antt =====
-- replay/engine.py: what the engine reads and changes, and its computations. A computation takes the
-- state and gives back an outcome and the state, which an exception keeps as it is.
pub mod Grades
pub mod Parts
use replay_forge.Base.{
  Bool, Error, List, Option, Result, String, bool_eq, err, if◌then◌else◌, nat_eq, ok, option_eq,
  pair_eq, string_eq, ℕ, ◌+◌, ◌==◌, ◌∷◌,
}
use replay_forge.Dict.{Dict, insert, lookup-insert_eq}
use replay_forge.Action.{Action}
use replay_forge.Policy.Types.{Decision, Risk, class_eq}
use replay_forge.Policy.Layers.{EffectivePolicy}
use replay_forge.Policy.Routes.{Library}
use replay_forge.Surfaces.Observation.{Observation}
use replay_forge.Interventions.LeaseRules.{Leases}
use replay_forge.Interventions.Store.{Store}
use replay_forge.Capabilities.Json.{Fields, Json, end, field}
use replay_forge.Capabilities.Values.{Formats}
use replay_forge.Capabilities.Targets.{LocatorBundle}
use replay_forge.Capabilities.Conditions.{Condition}
use replay_forge.Capabilities.Artifact.{ReplayAction}

-- surfaces/models.py: the exception of a session, but its message and its details.
pub record SurfaceError : Type 0 where
  pub code : String
  pub recoverable : Bool
  pub effect_absent : Bool
  pub intervention_recommended : Bool
  pub failure_frame : Option String

-- A returned value, a `SurfaceError`, another exception, or no fuel left for the loop.
pub data Outcome (A : Type 0) : Type 0 where
  returned : A → Outcome A
  failed : SurfaceError → Outcome A
  raised : Error → Outcome A
  exhausted : Outcome A

-- What a call outside the engine comes to.
pub data Reply (A : Type 0) : Type 0 where
  replied : A → Reply A
  refused : SurfaceError → Reply A
  broken : Error → Reply A

pub record ResolvedTarget : Type 0 where
  pub handle : String
  pub registered_risk : Option Risk

-- `receipt.status is FAILED` and its error code.
pub data Receipt : Type 0 where
  completed : Receipt
  failed_with : (error_code : Option String) → Receipt

-- What the engine leaves in the run's journal, and its calls of `execute`, `extract`
-- and `close`.
pub data Event : Type 0 where
  replay_started : Event
  policy_evaluated : (step_id : String) (decision : Decision) (reason : String) → Event
  action_intent action_result dispatched extracted : (step_id : String) → Event
  step_retry_scheduled : (step_id : String) (attempt : ℕ) (reason : String) → Event
  recovery_started recovery_exhausted : (step_id recovery_id : String) (uses : ℕ) → Event
  recovery_completed : (step_id recovery_id resume_at : String) → Event
  business_outcome checkpoint_verified : Event
  execution_diagnostic : (step_id : Option String) → Event
  intervention_required : (step_id : Option String) → Event
  replay_failed : (step_id : Option String) (code evidence_frame : String) → Event
  closed : Event

-- The world W is what the session and the recorder's evidence store are made of.
pub record State (W : Type 0) : Type 0 where
  pub world : W
  -- the leases, the interventions and their observations
  pub store : Store
  pub outputs : Fields
  pub recovery_uses : Dict String ℕ
  -- `_pause_points`
  pub pause_points : Dict String (Bool × ℕ)
  -- the journal, the newest entry first
  pub log : List Event
  -- readings of the clock and of `uuid4` so far
  pub readings : ℕ

abbrev pub Run : Type 0 → Type 0 → Type 0
Run W A = State W → Outcome A × State W

module _ {W : Type 0} where
  abbrev pub return : {A : Type 0} → A → Run W A
  return a s = (returned a, s)

  abbrev pub fail : {A : Type 0} → SurfaceError → Run W A
  fail e s = (failed e, s)

  abbrev pub raise : {A : Type 0} → Error → Run W A
  raise e s = (raised e, s)

  abbrev pub out_of_fuel : {A : Type 0} → Run W A
  out_of_fuel s = (exhausted, s)

  abbrev pub follow : {A B : Type 0} → Outcome A × State W → (A → Run W B) → Outcome B × State W
  follow (returned a, s) f = f a s
  follow (failed e, s) f = (failed e, s)
  follow (raised e, s) f = (raised e, s)
  follow (exhausted, s) f = (exhausted, s)

  -- `except SurfaceError`
  abbrev pub handle :
      {A : Type 0} → Outcome A × State W → (SurfaceError → Run W A) → Outcome A × State W
  handle (returned a, s) h = (returned a, s)
  handle (failed e, s) h = h e s
  handle (raised e, s) h = (raised e, s)
  handle (exhausted, s) h = (exhausted, s)

  abbrev pub try : {A : Type 0} → Run W A → (SurfaceError → Run W A) → Run W A
  try m h s = handle (m s) h

infixl 10 ◌>>=◌ ◌>>◌
abbrev pub ◌>>=◌ : {W A B : Type 0} → Run W A → (A → Run W B) → Run W B
◌>>=◌ m f s = follow (m s) f

abbrev pub ◌>>◌ : {W A B : Type 0} → Run W A → Run W B → Run W B
m >> k = m >>= λ _. k

-- `session`, an adapter of a user interface; `recorder.attach_screenshot`; the clock, and the digits
-- of `uuid4`, at each reading; `sleeper`; `str` of a JSON value and `str.lower`.
pub record Ports (W : Type 0) : Type 0 where
  pub session_id : String
  pub origin : String
  pub evaluate : Condition → Fields → Fields → W → Reply Bool × W
  pub wait_until : Condition → Fields → Fields → ℕ → W → Reply Bool × W
  pub observe : W → Reply Observation × W
  pub resolve : LocatorBundle → ℕ → W → Reply ResolvedTarget × W
  pub execute : ReplayAction → Option ResolvedTarget → Fields → W → Reply Receipt × W
  pub extract : ResolvedTarget → W → Reply String × W
  pub capture_provider_frame : W → Reply String × W
  pub attach_screenshot : String → String → W → Reply (Unit {0}) × W
  pub close : W → Reply (Unit {0}) × W
  pub sleep : ℕ → W → W
  pub clock : ℕ → ℕ
  pub digits : ℕ → String
  pub show_json : Json → String
  pub lower : String → String
  pub library : Library
  pub formats : Formats
  pub policy : EffectivePolicy
  pub ttl : ℕ

abbrev outcome_of : {A : Type 0} → Result A → Outcome A
outcome_of (ok a) = returned a
outcome_of (err e) = raised e

module _ {W : Type 0} where
  abbrev pub in_world : {A : Type 0} → Reply A × W → State W → Outcome A × State W
  in_world (replied a, w) s = (returned a, record s { world = w })
  in_world (refused e, w) s = (failed e, record s { world = w })
  in_world (broken e, w) s = (raised e, record s { world = w })

  -- A call of the session or of the evidence store.
  unfoldable pub call : {A : Type 0} → (W → Reply A × W) → Run W A
  call m s = in_world (m s.world) s

  unfoldable pub lift : {A : Type 0} → Result A → Run W A
  lift r s = (outcome_of r, s)

  abbrev in_store : {A : Type 0} → Result A × Store → State W → Outcome A × State W
  in_store (r, store) s = (outcome_of r, record s { store = store })

  -- A call of the router.
  unfoldable pub with_store : {A : Type 0} → Action Store A → Run W A
  with_store m s = in_store (m s.store) s

  abbrev in_leases : {A : Type 0} → Result A × Leases → State W → Outcome A × State W
  in_leases (r, leases) s = (outcome_of r, record s { store = record s.store { leases = leases } })

  -- A call of the lease service.
  unfoldable pub with_leases : {A : Type 0} → Action Leases A → Run W A
  with_leases m s = in_leases (m s.store.leases) s

  unfoldable pub record_event : Event → Run W (Unit {0})
  record_event e s = (returned tt, record s { log = e ∷ s.log })

  unfoldable pub reading : Run W ℕ
  reading s = (returned s.readings, record s { readings = s.readings + 1 })

  unfoldable pub get_outputs : Run W Fields
  get_outputs s = (returned s.outputs, s)

-- `outputs[name] = value`
unfoldable pub set_field : Fields → String → Json → Fields
set_field end name value = field name value end
set_field (field key old fs) name value =
    let rest = set_field fs name value in
    if key == name then field key value fs else field key old rest

module _ {W : Type 0} where
  pub set_output : String → Json → Run W (Unit {0})
  set_output name value s = (returned tt, record s { outputs = set_field s.outputs name value })

  pub set_pause_point : String → Bool → ℕ → Run W (Unit {0})
  set_pause_point id retry attempt s =
      (returned tt, record s { pause_points = insert s.pause_points id (retry, attempt) })
