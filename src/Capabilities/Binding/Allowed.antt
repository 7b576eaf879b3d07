-- ===== src/Capabilities/Binding/Allowed.antt =====
-- What may be bound into a locator.
use replay_forge.Base.{
  Bool, List, Option, String, [], bool_eq, false, nat_eq, none, ok, option_eq, pair_eq, some,
  string_eq, true, ◌∷◌, ◌≡◌, ◌≤◌,
}
use replay_forge.Text.{is_blank, len, split}
use replay_forge.Policy.Types.{DataClassification, class_eq}
use replay_forge.Capabilities.Json.{Fields, Json, ObjectContract}
use replay_forge.Capabilities.Values.{resolve_input}
use replay_forge.Capabilities.Values.Bindings.{IsAllowedPath}
use replay_forge.Capabilities.Targets.{
  Candidate, Relation, exact, input_text, ocr_relative, rendered_text,
}
use replay_forge.Capabilities.Binding.{beside}

-- What stands for an input candidate once its text is known: the text itself, or the text as the
-- anchor of a named target beside it, both matched exactly.
pub data Puts (value : String) : Option String → Option Relation → Candidate → Type 0 where
  shown : {relation : Option Relation} → Puts value none relation (rendered_text value exact)
  anchored :
      (target : String) (relation : Relation)
      → Puts value (some target) (some relation) (ocr_relative (beside value target relation))

abbrev pub is_input : Candidate → Bool
is_input (input_text path target relation) = true
is_input c = false

module _ (inputs : Fields) (contract : ObjectContract) (forbidden : List DataClassification) where
  -- A text that may stand in a locator.
  pub record IsAllowedText (path value : String) : Type 0 where
    pub resolved : resolve_input inputs path ≡ ok (Json.text value)
    pub nonblank : is_blank value ≡ false
    pub short : len value ≤ 200
    pub allowed : IsAllowedPath forbidden (split b'.' path) contract.properties

  -- A candidate before and after the binding.
  pub data Binds : Candidate → Candidate → Type 0 where
    kept : {c : Candidate} → is_input c ≡ false → Binds c c
    replaced :
        {path : String} {target : Option String} {relation : Option Relation} {c : Candidate}
        (value : String)
        → IsAllowedText path value
        → Puts value target relation c
        → Binds (input_text path target relation) c

  pub data AllBind : List Candidate → List Candidate → Type 0 where
    nothing : AllBind [] []
    both :
        {c d : Candidate} {cs ds : List Candidate}
        → Binds c d
        → AllBind cs ds
        → AllBind (c ∷ cs) (d ∷ ds)
