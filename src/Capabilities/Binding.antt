-- ===== src/Capabilities/Binding.antt =====
-- capabilities/targeting.py: identity data bound into a locator for one resolution.
pub mod Allowed
use replay_forge.Base.{
  Bool, List, Option, Result, String, [], bool_eq, contract_error, err, ltb, nat_eq, none, ok,
  option_eq, pair_eq, raise_if, runtime_error, some, string_eq, true, ◌>>=◌, ◌>>◌, ◌||◌, ◌∷◌,
}
use replay_forge.Text.{is_blank, len}
use replay_forge.Policy.Types.{DataClassification, class_eq}
use replay_forge.Policy.Layers.{member}
use replay_forge.Capabilities.Json.{Fields, Json, ObjectContract, text}
use replay_forge.Capabilities.Values.{binding_classification, resolve_input}
use replay_forge.Capabilities.Targets.{
  Candidate, LocatorBundle, OcrRelativeCandidate, Relation, default_confidence, exact, high,
  input_text, ocr_relative, rendered_text,
}

-- `target_input_paths`
pub target_input_paths : List Candidate → List String
target_input_paths [] = []
target_input_paths (input_text path target relation ∷ cs) = path ∷ target_input_paths cs
target_input_paths (c ∷ cs) = target_input_paths cs

-- `classification is None or classification in forbidden`
abbrev pub is_refused : Option DataClassification → List DataClassification → Bool
is_refused none forbidden = true
is_refused (some c) forbidden = member c forbidden

-- The text of an input that may be bound.
unfoldable pub bound_text : Json → Result String
bound_text (Json.text value) = do
  raise_if (is_blank value || ltb 200 (len value)) (contract_error "target_input_invalid")
  ok value
bound_text _ = err (contract_error "target_input_invalid")

-- `OcrRelativeCandidate(anchor=..., target_text=..., relation=...)`, the other fields by default.
abbrev pub beside : String → String → Relation → OcrRelativeCandidate
beside value target relation = record {
  anchor = value;
  anchor_match = exact;
  target_text = some target;
  relation = relation;
  relative_region = none;
  search_region = none;
  minimum_confidence = default_confidence;
  portability = high;
}

-- The relation is there where `target_text` is; the assertion of the source is AssertionError.
abbrev pub bound_candidate : String → Option String → Option Relation → Result Candidate
bound_candidate value none relation = ok (rendered_text value exact)
bound_candidate value (some target) (some relation) =
    ok (ocr_relative (beside value target relation))
bound_candidate value (some target) none = err runtime_error

module _ (inputs : Fields) (contract : ObjectContract) (forbidden : List DataClassification) where
  unfoldable pub bind_candidate : Candidate → Result Candidate
  bind_candidate (input_text path target relation) = do
    raise_if (is_refused (binding_classification contract path forbidden) forbidden)
        (contract_error "target_input_forbidden")
    value ← resolve_input inputs path
    bound ← bound_text value
    bound_candidate bound target relation
  bind_candidate c = ok c

  unfoldable pub bind_candidates : List Candidate → Result (List Candidate)
  bind_candidates [] = ok []
  bind_candidates (c ∷ cs) = do
    bound ← bind_candidate c
    rest ← bind_candidates cs
    ok (bound ∷ rest)

  -- `bind_target_inputs`, with a contract.
  unfoldable pub bind_target_inputs : LocatorBundle → Result LocatorBundle
  bind_target_inputs target = do
    candidates ← bind_candidates target.visual_candidates
    ok (record target { visual_candidates = candidates })
