-- ===== src/Replay/Progress/Detecting.antt =====
-- Conditions on the session, and what they detect.
use replay_forge.Base.{
  Bool, List, Option, String, [], false, if◌then◌else◌, key_error, none, refl, some, true, ℕ, ◌∷◌,
  ◌≡◌,
}
use replay_forge.Capabilities.Json.{Fields}
use replay_forge.Capabilities.Conditions.{Condition}
use replay_forge.Capabilities.Artifact.{BusinessOutcome, CapabilityArtifact}
use replay_forge.Replay.Machine.{Ports, Run, business_outcome}
use replay_forge.Replay.Machine.Grades.{Grade, plain}
use replay_forge.Replay.Machine.Parts.{
  Good, call-Good, done, fail-Good, get_outputs-Good, if-Good, lifted, raise-Good, record-Good,
  return-Good, seq, seq_with,
}
use replay_forge.Replay.Results.{business_result}
use replay_forge.Replay.Detection.{
  all_hold, business_outcome_of, detect_one, holds, matched, matching, single, surface_error, waits,
}
use replay_forge.Replay.Progress.Reporting.{unsuccessful}

module _ {W : Type 0} (artifact : CapabilityArtifact) (ports : Ports W) (inputs : Fields) where
  pub holds-Good : (c : Condition) → Good artifact plain (holds ports inputs c)
  unfolding holds
  holds-Good c = search (seq artifact, get_outputs-Good artifact, call-Good artifact)

  pub waits-Good :
      (timeout : ℕ) (c : Condition) → Good artifact plain (waits ports inputs timeout c)
  unfolding waits
  waits-Good timeout c = search (seq artifact, get_outputs-Good artifact, call-Good artifact)

  pub all_hold-Good : (cs : List Condition) → Good artifact plain (all_hold ports inputs cs)
  unfolding all_hold
  all_hold-Good [] = done artifact true
  all_hold-Good (c ∷ cs) =
      seq artifact (holds-Good c)
        (λ held. if-Good artifact held (all_hold-Good cs) (done artifact false))

  module _ {A : Type 0} (find : String → Option A) (trigger : A → Condition) where
    -- An item that was found under a code.
    abbrev pub Found : A → Type 0
    Found x = (code : String) × (find code ≡ some x)

    abbrev AllFound : List A → Type 0
    AllFound [] = Unit {0}
    AllFound (x ∷ xs) = Found x × AllFound xs

    abbrev all_found : Grade (List A)
    all_found = record { price = λ _. 0; meets = AllFound }

    abbrev pub OptionFound : Option A → Type 0
    OptionFound none = Unit {0}
    OptionFound (some x) = Found x

    abbrev pub option_found : Grade (Option A)
    option_found = record { price = λ _. 0; meets = OptionFound }

    kept :
        (held : Bool) (x : A) (xs : List A)
        → Found x
        → AllFound xs
        → AllFound (if held then x ∷ xs else xs)
    kept true x xs first rest = (first, rest)
    kept false x xs first rest = rest

    matched-Good :
        (code : String) (o : Option A) (others : Run W (List A))
        → find code ≡ o
        → Good artifact all_found others
        → Good artifact all_found (matched ports inputs find trigger o others)
    unfolding matched
    matched-Good code none others e good = raise-Good artifact all_found key_error
    matched-Good code (some x) others e good = seq artifact (holds-Good (trigger x)) (λ held.
        seq_with artifact good (λ rest found.
          return-Good artifact all_found (if held then x ∷ rest else rest)
            (kept held x rest (code, e) found) refl))

    matching-Good :
        (codes : List String) → Good artifact all_found (matching ports inputs find trigger codes)
    unfolding matching
    matching-Good [] = return-Good artifact all_found [] tt refl
    matching-Good (code ∷ codes) =
        matched-Good code (find code) (matching ports inputs find trigger codes) refl
          (matching-Good codes)

    single-Good :
        (xs : List A)
        → AllFound xs
        → Good artifact option_found (single ports inputs find trigger xs)
    single-Good [] found = return-Good artifact option_found none tt refl
    single-Good (x ∷ []) found = return-Good artifact option_found (some x) found.0 refl
    single-Good (x ∷ y ∷ xs) found =
        fail-Good artifact option_found (surface_error "branch_ambiguous" false)

    pub detect_one-Good :
        (codes : List String)
        → Good artifact option_found (detect_one ports inputs find trigger codes)
    unfolding detect_one
    detect_one-Good codes = seq_with artifact (matching-Good codes) single-Good

  pub business_outcome_of-Good :
      (o : BusinessOutcome) → Good artifact unsuccessful (business_outcome_of ports inputs o)
  unfolding business_outcome_of
  business_outcome_of-Good o = seq artifact (lifted artifact _) (λ details.
      seq artifact (record-Good artifact business_outcome (λ log. refl))
        (λ u. return-Good artifact unsuccessful (business_result o.code details) tt refl))
