-- ===== src/Capabilities/Values/Bindings.antt =====
-- Inputs that are classified, or bound into a locator, are of no forbidden class at any level.
use replay_forge.Base.{
  Bool, Bool-cases, List, Option, String, [], ap, arith, bool_eq, false, if◌then◌else◌, inl, inr,
  nat_eq, none, option_eq, pair_eq, refl, some, string_eq, sym, true, true≢false, ◌∙◌, ◌∷◌, ◌≡◌,
}
use replay_forge.Text.{split}
use replay_forge.Policy.Types.{DataClassification, class_eq}
use replay_forge.Policy.Layers.{member}
use replay_forge.Capabilities.Json.{
  ObjectContract, Properties, ValueSchema, get_property, nested, shape,
}
use replay_forge.Capabilities.Values.{binding_classification, classify, enter}

if-true : {A : Type 0} {b : Bool} {z : A} (x y : A) → b ≡ true → (if b then x else y) ≡ z → x ≡ z
if-true {b = true} x y e h = h
if-true {b = false} x y e h = absurd (true≢false (sym e))

if-false : {A : Type 0} {b : Bool} {z : A} (x y : A) → b ≡ false → (if b then x else y) ≡ z → y ≡ z
if-false {b = true} x y e h = absurd (true≢false e)
if-false {b = false} x y e h = h

module _ (forbidden : List DataClassification) where
  -- Every part of the path is declared, with a class that is not forbidden.
  pub IsAllowedPath : List String → Properties → Type 0
  IsAllowedPath [] ps = Unit {0}
  IsAllowedPath (part ∷ parts) ps =
      (s : ValueSchema) × (get_property ps part ≡ some s)
      × (member (shape s).data_classification forbidden ≡ false)
      × IsAllowedPath parts (nested s)

  enter_sound :
      (o : Option ValueSchema) (rest : ValueSchema → Option DataClassification)
      (c : DataClassification)
      → enter o forbidden rest ≡ some c
      → member c forbidden ≡ false
      → (s : ValueSchema) × (o ≡ some s)
        × (member (shape s).data_classification forbidden ≡ false)
        × (rest s ≡ some c)
  unfolding enter
  enter_sound none rest c h allowed = absurd (ground (arith, h))
  enter_sound (some s) rest c h allowed =
      elim (Bool-cases (member (shape s).data_classification forbidden)) [
        | inl e ↦ absurd (
            same_class (shape s).data_classification c e allowed
              (if-true (some (shape s).data_classification) (rest s) e h))
        | inr e ↦ (s, refl, e, if-false (some (shape s).data_classification) (rest s) e h)
      ]
    where
      some_inj : {a b : DataClassification} → some a ≡ some b → a ≡ b
      some_inj e = cc

      same_class :
          (a b : DataClassification)
          → member a forbidden ≡ true
          → member b forbidden ≡ false
          → ¬ (some a ≡ some b)
      same_class a b held free same =
          true≢false (sym held ∙ ap (λ x. member x forbidden) (some_inj same) ∙ free)

  classify_sound :
      (parts : List String) (ps : Properties) (d : Option DataClassification)
      (c : DataClassification)
      → classify parts ps forbidden d ≡ some c
      → member c forbidden ≡ false
      → IsAllowedPath parts ps
  unfolding classify IsAllowedPath
  classify_sound [] ps d c h allowed = tt
  classify_sound (part ∷ parts) ps d c h allowed =
      let (s, found, fine, rest) = enter_sound (get_property ps part) _ c h allowed in
      (s, found, fine, classify_sound parts (nested s) _ c rest allowed)

  -- An input path whose classification is not forbidden goes through declared properties only, none
  -- of which has a forbidden class: a forbidden parent protects its nested fields.
  pub classification_is_allowed :
      (contract : ObjectContract) (path : String) (c : DataClassification)
      → binding_classification contract path forbidden ≡ some c
      → member c forbidden ≡ false
      → IsAllowedPath (split b'.' path) contract.properties
  unfolding binding_classification
  classification_is_allowed contract path c =
      classify_sound (split b'.' path) contract.properties none c
