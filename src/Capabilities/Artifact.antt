-- ===== src/Capabilities/Artifact.antt =====
-- capabilities/models.py: actions, steps, recoveries, outcomes and the artifact. Names, evidence
-- requirements, tags and provenance, which neither replay nor its checks read, are left out.
use replay_forge.Base.{Bool, List, Option, String, ℕ}
use replay_forge.Policy.Types.{Risk}
use replay_forge.Dict.{Dict}
use replay_forge.Capabilities.Json.{ObjectContract, Scalar}
use replay_forge.Capabilities.Targets.{LocatorBundle}
use replay_forge.Capabilities.Conditions.{Condition}

pub data ValueSource : Type 0 where
  input_value : (path : String) → ValueSource
  literal_value : Scalar → ValueSource

pub data ReplayAction : Type 0 where
  navigate : (entry_point : String) → ReplayAction
  click : ReplayAction
  type_ : (value : ValueSource) (clear : Bool) → ReplayAction
  press_keys : (keys : List String) → ReplayAction
  select : (option : ValueSource) → ReplayAction
  scroll : (direction : String) (amount : ℕ) → ReplayAction
  wait_for : Condition → ReplayAction
  extract : (output transform : String) → ReplayAction
  assert_ : Condition → ReplayAction
  switch_context : (context : String) → ReplayAction
  checkpoint_of : (checkpoint_id : String) → ReplayAction

-- `kind`
abbrev pub action_kind : ReplayAction → String
action_kind (navigate e) = "navigate"
action_kind click = "click"
action_kind (type_ v c) = "type"
action_kind (press_keys k) = "press_keys"
action_kind (select o) = "select"
action_kind (scroll d a) = "scroll"
action_kind (wait_for c) = "wait_for"
action_kind (extract o t) = "extract"
action_kind (assert_ c) = "assert"
action_kind (switch_context c) = "switch_context"
action_kind (checkpoint_of i) = "checkpoint"

pub record RetryPolicy : Type 0 where
  pub max_attempts : ℕ
  pub backoff_ms : List ℕ
  pub retry_on : List String

pub record Step : Type 0 where
  pub id : String
  pub name : String
  pub action : ReplayAction
  pub target : Option LocatorBundle
  pub preconditions : List Condition
  pub postconditions : List Condition
  pub timeout_ms : ℕ
  pub retry : RetryPolicy
  pub recovery_refs : List String
  pub outcome_refs : List String
  pub failure_refs : List String
  pub risk : Risk

pub record Recovery : Type 0 where
  pub id : String
  pub trigger : Condition
  pub max_uses : ℕ
  pub steps : List Step
  pub resume_at : String

pub record BusinessOutcome : Type 0 where
  pub code : String
  pub detect : Condition
  pub allowed_after_steps : List String
  pub details : Dict String ValueSource

pub record ApplicationFailure : Type 0 where
  pub code : String
  pub detect : Condition
  pub allowed_after_steps : List String
  pub recoverable : Bool

pub record Checkpoint : Type 0 where
  pub id : String
  pub condition : Condition

pub record Compatibility : Type 0 where
  pub application_family : String
  pub supported_variants : List String
  pub entry_point : String
  pub rendered_surface : Bool

pub record CapabilityMetadata : Type 0 where
  pub id : String
  pub version : String
  pub name : String
  pub description : String
  pub application_family : String
  pub risk : Risk

pub record CapabilityPolicy : Type 0 where
  pub allowed_action_types : List String
  pub allowed_entry_points : List String
  pub maximum_risk : Risk
  pub allowed_route_patterns : List String
  pub forbidden_text_inputs : List String
  pub redacted_outputs : List String

pub record CapabilityArtifact : Type 0 where
  pub capability : CapabilityMetadata
  pub compatibility : Compatibility
  pub inputs : ObjectContract
  pub outputs : ObjectContract
  pub preconditions : List Condition
  pub steps : List Step
  pub recoveries : List Recovery
  pub outcomes : List BusinessOutcome
  pub failures : List ApplicationFailure
  pub checkpoint : Checkpoint
  pub policy : CapabilityPolicy
