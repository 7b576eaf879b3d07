-- ===== src/Capabilities/Values/Conformance.antt =====
-- Validation against an independent description of the values that a contract admits.
use replay_forge.Base.{
  Bool, List, Option, Result, String, any, ap, arith, bind-eq-ok, err, err≢ok, false, none, ok,
  ok-eq, refl, some, subst, sym, true, ℤ, ◌↔◌, ◌∙◌, ◌≡◌,
}
use replay_forge.Capabilities.Json.{
  Fields, Json, ObjectContract, Properties, Shape, ValueSchema, boolean_type, end, field,
  get_property, integer_type, object_type, schema, string_type,
}
use replay_forge.Capabilities.Values.{
  Formats, check_keys, check_listed, has_unknown, is_missing, is_not_listed, is_of_type,
  is_other_value, validate_fields, validate_item, validate_nested, validate_object, validate_scalar,
  validate_string, validate_value,
}

-- Every required key is there, and every key is declared.
pub KeysFit : List String → Properties → Fields → Type 0
KeysFit required ps fs = (any (is_missing fs) required ≡ false) × (has_unknown ps fs ≡ false)

-- The value is one of those that `enum` lists, where it lists any, and the one of `const`.
pub IsListed : Shape → Json → Type 0
IsListed s value = (is_not_listed value s.enum ≡ false) × (is_other_value value s.const ≡ false)

module _ (f : Formats) where
  unfoldable mutual
    pub Conforms : ValueSchema → Json → Type 0
    Conforms (schema s ps) (Json.text value) =
        (s.type ≡ string_type) × (validate_string f s value ≡ ok tt) × IsListed s (Json.text value)
    Conforms (schema s ps) (Json.object fs) =
        (s.type ≡ object_type)
        × KeysFit s.required ps fs
        × AllConform ps fs
        × IsListed s (Json.object fs)
    Conforms (schema s ps) (Json.integer n) = (s.type ≡ integer_type) × IsListed s (Json.integer n)
    Conforms (schema s ps) (Json.boolean b) = (s.type ≡ boolean_type) × IsListed s (Json.boolean b)
    Conforms (schema s ps) Json.other = ⊥

    pub AllConform : Properties → Fields → Type 0
    AllConform ps end = Unit {0}
    AllConform ps (field key value fs) =
        ((s : ValueSchema) × (get_property ps key ≡ some s) × Conforms s value) × AllConform ps fs

  scalar_sound :
      (s : Shape) (value : Json) (tests : Result (Unit {0})) {w : Json}
      → validate_scalar f s value tests ≡ ok w
      → (w ≡ value) × (is_of_type s.type value ≡ true) × (tests ≡ ok tt) × IsListed s value
  unfolding validate_scalar IsListed check_listed
  scalar_sound s value tests h = ground (arith, h)

  scalar_complete :
      (s : Shape) (value : Json) (tests : Result (Unit {0}))
      → is_of_type s.type value ≡ true
      → tests ≡ ok tt
      → IsListed s value
      → validate_scalar f s value tests ≡ ok value
  unfolding validate_scalar IsListed check_listed
  scalar_complete s value tests typed passed listed = ground (arith, typed, passed, listed)

  nested_sound :
      (s : Shape) (ps : Properties) (fs : Fields) (items : Result Fields) {w : Json}
      → validate_nested f s ps fs items ≡ ok w
      → (gs : Fields) × (items ≡ ok gs)
        × (w ≡ Json.object gs)
        × (s.type ≡ object_type)
        × KeysFit s.required ps fs
        × IsListed s (Json.object gs)
  unfolding validate_nested IsListed KeysFit check_listed check_keys
  nested_sound s ps fs (ok gs) h =
      (gs, refl, ground (arith, h), ground (arith, h), ground (arith, h), ground (arith, h))
  nested_sound s ps fs (err e) h = absurd (ground (arith, h))

  nested_complete :
      (s : Shape) (ps : Properties) (fs : Fields)
      → s.type ≡ object_type
      → KeysFit s.required ps fs
      → IsListed s (Json.object fs)
      → validate_nested f s ps fs (ok fs) ≡ ok (Json.object fs)
  unfolding validate_nested IsListed KeysFit check_listed check_keys
  nested_complete s ps fs typed keys listed = ground (arith, typed, keys, listed)

  keys_sound :
      (c : ObjectContract) (fs : Fields) {u : Unit {0}}
      → check_keys f c.required c.properties fs ≡ ok u
      → KeysFit c.required c.properties fs
  unfolding check_keys KeysFit
  keys_sound c fs h = ground (arith, h)

  keys_complete :
      (c : ObjectContract) (fs : Fields)
      → KeysFit c.required c.properties fs
      → check_keys f c.required c.properties fs ≡ ok tt
  unfolding check_keys KeysFit
  keys_complete c fs h = ground (arith, h)

  string_typed :
      (s : Shape) (v : String) → is_of_type s.type (Json.text v) ≡ true → s.type ≡ string_type
  string_typed s v h = ground (arith, h)

  integer_typed :
      (s : Shape) (n : ℤ) → is_of_type s.type (Json.integer n) ≡ true → s.type ≡ integer_type
  integer_typed s n h = ground (arith, h)

  boolean_typed :
      (s : Shape) (b : Bool) → is_of_type s.type (Json.boolean b) ≡ true → s.type ≡ boolean_type
  boolean_typed s b h = ground (arith, h)

  other_typed : (s : Shape) → ¬ (is_of_type s.type Json.other ≡ true)
  other_typed s h = ground (arith, h)

  item_sound :
      (key : String) (found : Option ValueSchema) (validated : ValueSchema → Result Json)
      (others : Result Fields) {gs : Fields}
      → validate_item key found validated others ≡ ok gs
      → (s : ValueSchema) × (v : Json) × (rest : Fields) × (found ≡ some s)
        × (validated s ≡ ok v)
        × (others ≡ ok rest)
        × (gs ≡ field key v rest)
  unfolding validate_item
  item_sound key none validated others h = absurd (err≢ok h)
  item_sound key (some s) validated others h =
      let (v, first, last) = bind-eq-ok (validated s) _ h in
      let (rest, second, same) = bind-eq-ok others _ last in
      (s, v, rest, refl, first, second, sym (ok-eq same))

  item_complete :
      (key : String) (found : Option ValueSchema) (validated : ValueSchema → Result Json)
      (others : Result Fields) (s : ValueSchema) (v : Json) (rest : Fields)
      → found ≡ some s
      → validated s ≡ ok v
      → others ≡ ok rest
      → validate_item key found validated others ≡ ok (field key v rest)
  unfolding validate_item
  item_complete key found validated others s v rest e first second =
      rw (e, validate_item, first, second) refl

  mutual
    unfolding validate_value validate_fields Conforms AllConform

    value_sound :
        (s : ValueSchema) (v : Json) {w : Json}
        → validate_value f s v ≡ ok w
        → (w ≡ v) × Conforms s v
    value_sound (schema s ps) (Json.text value) h =
        let (same, typed, tests, listed) =
          scalar_sound s (Json.text value) (validate_string f s value) h in
        (same, (string_typed s value typed, tests, listed))
    value_sound (schema s ps) (Json.object fs) h =
        let (gs, items, same, typed, keys, listed) =
          nested_sound s ps fs (validate_fields f ps fs) h in
        let (equal, rest_conforms) = fields_sound ps fs items in
        (
          same ∙ ap Json.object equal,
          (typed, keys, rest_conforms, subst (λ x. IsListed s (Json.object x)) equal listed),
        )
    value_sound (schema s ps) (Json.integer n) h =
        let (same, typed, tests, listed) = scalar_sound s (Json.integer n) (ok tt) h in
        (same, (integer_typed s n typed, listed))
    value_sound (schema s ps) (Json.boolean b) h =
        let (same, typed, tests, listed) = scalar_sound s (Json.boolean b) (ok tt) h in
        (same, (boolean_typed s b typed, listed))
    value_sound (schema s ps) Json.other h =
        let (same, typed, tests, listed) = scalar_sound s Json.other (ok tt) h in
        absurd (other_typed s typed)

    fields_sound :
        (ps : Properties) (fs : Fields) {gs : Fields}
        → validate_fields f ps fs ≡ ok gs
        → (gs ≡ fs) × AllConform ps fs
    fields_sound ps end h = (sym (ok-eq h), tt)
    fields_sound ps (field key value fs) h =
        let (s, v, rest, found, first, others, last) = item_sound key (get_property ps key) _ _ h in
        let (same, conforms) = value_sound s value first in
        let (equal, rest_conform) = fields_sound ps fs others in
        (last ∙ cc (same, equal), ((s, found, conforms), rest_conform))

  mutual
    unfolding validate_value validate_fields Conforms AllConform

    value_complete : (s : ValueSchema) (v : Json) → Conforms s v → validate_value f s v ≡ ok v
    value_complete (schema s ps) (Json.text value) (typed, tests, listed) =
        scalar_complete s (Json.text value) _ (ground (arith, typed)) tests listed
    value_complete (schema s ps) (Json.object fs) (typed, keys, rest_conforms, listed) =
        ap (validate_nested f s ps fs) (fields_complete ps fs rest_conforms)
        ∙ nested_complete s ps fs typed keys listed
    value_complete (schema s ps) (Json.integer n) (typed, listed) =
        scalar_complete s (Json.integer n) _ (ground (arith, typed)) refl listed
    value_complete (schema s ps) (Json.boolean b) (typed, listed) =
        scalar_complete s (Json.boolean b) _ (ground (arith, typed)) refl listed
    value_complete (schema s ps) Json.other h = absurd h

    fields_complete :
        (ps : Properties) (fs : Fields) → AllConform ps fs → validate_fields f ps fs ≡ ok fs
    fields_complete ps end conforms = refl
    fields_complete ps (field key value fs) ((s, found, conforms), rest_conform) =
        item_complete key (get_property ps key) (λ x. validate_value f x value)
          (validate_fields f ps fs) s value fs found (value_complete s value conforms)
          (fields_complete ps fs rest_conform)

  -- `validate_object` accepts exactly the objects that conform to the contract (every required key
  -- is there, every key is declared, every item is of its declared type and passes the tests of its
  -- schema, at any depth), and what it returns is the object unchanged.
  pub validate_object_iff :
      (contract : ObjectContract) (fs gs : Fields)
      → (validate_object f contract fs ≡ ok gs) ↔ (
          (gs ≡ fs)
          × KeysFit contract.required contract.properties fs
          × AllConform contract.properties fs)
  unfolding validate_object
  validate_object_iff contract fs gs = (
    λ h.
        let (u, keys, items) =
          bind-eq-ok (check_keys f contract.required contract.properties fs) _ h in
        let (same, conforms) = fields_sound contract.properties fs items in
        (same, keys_sound contract fs keys, conforms),
    λ (same, keys, conforms).
        rw (keys_complete contract fs keys, fields_complete contract.properties fs conforms, same)
          refl,
  )
