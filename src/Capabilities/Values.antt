-- ===== src/Capabilities/Values.antt =====
-- capabilities/values.py: validation of values against contracts, and input paths. What `re`,
-- `decimal` and `datetime` decide is a parameter.
pub mod Conformance
pub mod Bindings
use Prim.Native.Char.{code}
use replay_forge.Base.{
  Bool, Error, List, Option, Result, String, [], any, bool_eq, contract_error, err, false,
  if◌then◌else◌, key_error, ltb, nat_eq, nat_eqb, none, not, ok, option_eq, pair_eq, raise_if, some,
  string_eq, true, ℕ, ◌>>=◌, ◌>>◌, ◌||◌, ◌∷◌,
}
use replay_forge.Text.{append, len, split}
use replay_forge.Policy.Types.{DataClassification, class_eq}
use replay_forge.Policy.Layers.{member}
use replay_forge.Capabilities.Json.{
  Fields, Format, Json, JsonType, ObjectContract, Properties, Scalar, Shape, ValueSchema, boolean,
  boolean_type, date, date_time, decimal, end, field, get_field, get_property, integer,
  integer_type, is_found, json_equals, nested, object, object_type, other, schema, shape,
  string_type, text,
}

-- `re.fullmatch`; `Decimal`, none where it raises and otherwise whether the number is finite;
-- `date.fromisoformat`, whether it returns; `datetime.fromisoformat`, none where it raises and
-- otherwise whether the time has an offset.
pub record Formats : Type 0 where
  pub full_match : String → String → Bool
  pub decimal_of : String → Option Bool
  pub is_date : String → Bool
  pub datetime_of : String → Option Bool

-- `value.replace("Z", "+00:00")`
replace_z : String → String
replace_z String.[] = String.[]
replace_z (String.◌∷◌ c s) =
    let rest = replace_z s in
    if nat_eqb (code c) b'Z' then append "+00:00" rest else String.◌∷◌ c rest

abbrev is_below : ℕ → Option ℕ → Bool
is_below n none = false
is_below n (some low) = ltb n low

abbrev is_over : ℕ → Option ℕ → Bool
is_over n none = false
is_over n (some high) = ltb high n

-- `set(contract.required) - value.keys()`
abbrev pub is_missing : Fields → String → Bool
is_missing fs name = not (is_found (get_field fs name))

-- `value.keys() - contract.properties.keys()`
unfoldable pub has_unknown : Properties → Fields → Bool
has_unknown ps end = false
has_unknown ps (field key value fs) = not (is_found (get_property ps key)) || has_unknown ps fs

abbrev is_other_value : Json → Option Scalar → Bool
is_other_value value none = false
is_other_value value (some c) = not (json_equals value c)

abbrev is_not_listed : Json → List Scalar → Bool
is_not_listed value [] = false
is_not_listed value (c ∷ enum) = not (any (json_equals value) (c ∷ enum))

-- The last two tests of `_validate_value`.
unfoldable pub check_listed : Shape → Json → Result (Unit {0})
check_listed s value = do
  raise_if (is_not_listed value s.enum) (contract_error "not_in_enum")
  raise_if (is_other_value value s.const) (contract_error "const_mismatch")

module _ (f : Formats) where
  fails_pattern : String → Option String → Bool
  fails_pattern value none = false
  fails_pattern value (some pattern) = not (f.full_match pattern value)

  finite : Option Bool → Result (Unit {0})
  finite (some true) = ok tt
  finite _ = err (contract_error "invalid_decimal")

  aware : Option Bool → Result (Unit {0})
  aware none = err (contract_error "invalid_datetime")
  aware (some false) = err (contract_error "datetime_requires_timezone")
  aware (some true) = ok tt

  check_format : String → Option Format → Result (Unit {0})
  unfolding finite aware replace_z
  check_format value none = ok tt
  check_format value (some decimal) = finite (f.decimal_of value)
  check_format value (some date) = raise_if (not (f.is_date value)) (contract_error "invalid_date")
  check_format value (some date_time) = aware (f.datetime_of (replace_z value))

  -- `_validate_string`
  unfoldable pub validate_string : Shape → String → Result (Unit {0})
  unfolding fails_pattern check_format
  validate_string s value = do
    raise_if (is_below (len value) s.min_length) (contract_error "too_short")
    raise_if (is_over (len value) s.max_length) (contract_error "too_long")
    raise_if (fails_pattern value s.pattern) (contract_error "pattern_mismatch")
    check_format value s.format

  -- The tests of `validate_object` on the keys.
  unfoldable pub check_keys : List String → Properties → Fields → Result (Unit {0})
  check_keys required ps fs = do
    raise_if (any (is_missing fs) required) (contract_error "missing_required")
    raise_if (has_unknown ps fs) (contract_error "unknown_properties")

-- The code of the first test of `_validate_value`, which the value fails.
abbrev pub expected : JsonType → Error
expected string_type = contract_error "expected_string"
expected integer_type = contract_error "expected_integer"
expected boolean_type = contract_error "expected_boolean"
expected object_type = contract_error "expected_object"

abbrev pub is_of_type : JsonType → Json → Bool
is_of_type string_type (Json.text s) = true
is_of_type integer_type (Json.integer n) = true
is_of_type boolean_type (Json.boolean b) = true
is_of_type object_type (Json.object fs) = true
is_of_type _ _ = false

-- One round of the loop of `validate_object`, with the schema that `properties[key]` gives.
unfoldable pub validate_item :
    String → Option ValueSchema → (ValueSchema → Result Json) → Result Fields → Result Fields
validate_item key none validated others = err key_error
validate_item key (some s) validated others = do
  v ← validated s
  rest ← others
  ok (field key v rest)

module _ (f : Formats) where
  -- `_validate_value` of a value that is no object.
  unfoldable pub validate_scalar : Shape → Json → Result (Unit {0}) → Result Json
  unfolding check_listed
  validate_scalar s value string_tests = do
    raise_if (not (is_of_type s.type value)) (expected s.type)
    string_tests
    check_listed s value
    ok value

  -- `_validate_value` of an object, with the outcome of the tests of its items.
  unfoldable pub validate_nested : Shape → Properties → Fields → Result Fields → Result Json
  unfolding check_listed check_keys
  validate_nested s ps fs items = do
    raise_if (not (is_of_type s.type (Json.object fs))) (expected s.type)
    check_keys f s.required ps fs
    validated ← items
    check_listed s (Json.object validated)
    ok (Json.object validated)

  unfoldable mutual
    unfolding validate_scalar validate_nested validate_string validate_item

    pub validate_value : ValueSchema → Json → Result Json
    validate_value (schema s ps) (Json.text value) =
        validate_scalar s (Json.text value) (validate_string f s value)
    validate_value (schema s ps) (Json.object fs) = validate_nested s ps fs (validate_fields ps fs)
    validate_value (schema s ps) (Json.integer n) = validate_scalar s (Json.integer n) (ok tt)
    validate_value (schema s ps) (Json.boolean b) = validate_scalar s (Json.boolean b) (ok tt)
    validate_value (schema s ps) Json.other = validate_scalar s Json.other (ok tt)

    -- The items of `validate_object`, in their order.
    pub validate_fields : Properties → Fields → Result Fields
    validate_fields ps end = ok end
    validate_fields ps (field key value fs) =
        validate_item key (get_property ps key) (λ s. validate_value s value)
          (validate_fields ps fs)

  -- `validate_object`
  unfoldable pub validate_object : ObjectContract → Fields → Result Fields
  validate_object contract fs = do
    check_keys f contract.required contract.properties fs
    validate_fields contract.properties fs

-- `resolve_input`: a dotted path into the inputs.
resolve_parts : List String → Json → Result Json
resolve_parts [] current = ok current
resolve_parts (part ∷ parts) (Json.object fs) = elim (get_field fs part) [
  | none ↦ err (contract_error "input_binding_missing")
  | some value ↦ resolve_parts parts value
]
resolve_parts (part ∷ parts) current = err (contract_error "input_binding_missing")

unfoldable pub resolve_input : Fields → String → Result Json
unfolding resolve_parts
resolve_input inputs path = resolve_parts (split b'.' path) (Json.object inputs)

-- One round of the loop of `binding_classification`, with what follows it.
unfoldable pub enter :
    Option ValueSchema
    → List DataClassification
    → (ValueSchema → Option DataClassification)
    → Option DataClassification
enter none forbidden rest = none
enter (some s) forbidden rest =
    if member (shape s).data_classification forbidden
    then some (shape s).data_classification
    else rest s

-- The loop, after the parts that gave `classification`.
unfoldable pub classify :
    List String
    → Properties
    → List DataClassification
    → Option DataClassification
    → Option DataClassification
classify [] ps forbidden classification = classification
classify (part ∷ parts) ps forbidden classification =
    enter (get_property ps part) forbidden
      (λ s. classify parts (nested s) forbidden (some (shape s).data_classification))

-- `binding_classification`
unfoldable pub binding_classification :
    ObjectContract → String → List DataClassification → Option DataClassification
unfolding classify
binding_classification contract path forbidden =
    classify (split b'.' path) contract.properties forbidden none
