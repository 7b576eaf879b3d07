-- ===== src/Capabilities/Json.antt =====
-- capabilities/models.py: values as Python reads them from JSON, and value schemas. A dict is the
-- list of its entries in their order, whose keys differ.
use replay_forge.Base.{
  Bool, List, Option, String, bool_eq, false, if◌then◌else◌, nat_eq, nat_eqb, negsuc, none,
  option_eq, pair_eq, pos, some, string_eq, true, ℕ, ℤ, ◌==◌,
}
use replay_forge.Policy.Types.{DataClassification, class_eq}

mutual
  -- `other` stands for null, floats and lists, which no schema admits.
  pub data Json : Type 0 where
    text : String → Json
    integer : ℤ → Json
    boolean : Bool → Json
    object : Fields → Json
    other : Json

  pub data Fields : Type 0 where
    end : Fields
    field : String → Json → Fields → Fields

-- `str | int | bool`
pub data Scalar : Type 0 where
  text : String → Scalar
  integer : ℤ → Scalar
  boolean : Bool → Scalar

pub data JsonType : Type 0 where
  string_type integer_type boolean_type object_type : JsonType

pub data Format : Type 0 where
  date date_time decimal : Format

-- The fields of `ValueSchema` that validation reads, but the nested properties.
pub record Shape : Type 0 where
  pub type : JsonType
  pub data_classification : DataClassification
  pub required : List String
  pub pattern : Option String
  pub format : Option Format
  pub enum : List Scalar
  pub const : Option Scalar
  pub min_length : Option ℕ
  pub max_length : Option ℕ

mutual
  pub data ValueSchema : Type 0 where
    schema : Shape → Properties → ValueSchema

  pub data Properties : Type 0 where
    none_left : Properties
    property : String → ValueSchema → Properties → Properties

pub record ObjectContract : Type 0 where
  pub required : List String
  pub properties : Properties

abbrev pub shape : ValueSchema → Shape
shape (schema s ps) = s

abbrev pub nested : ValueSchema → Properties
nested (schema s ps) = ps

-- `properties.get(name)`
unfoldable pub get_property : Properties → String → Option ValueSchema
get_property none_left name = none
get_property (property key s ps) name = if key == name then some s else get_property ps name

-- `value.get(key)`
unfoldable pub get_field : Fields → String → Option Json
get_field end name = none
get_field (field key value fs) name = if key == name then some value else get_field fs name

abbrev pub is_found : {A : Type 0} → Option A → Bool
is_found none = false
is_found (some a) = true

int_beq : ℤ → ℤ → Bool
int_beq (pos m) (pos n) = nat_eqb m n
int_beq (negsuc m) (negsuc n) = nat_eqb m n
int_beq _ _ = false

-- The number that Python compares: `True == 1`.
number_of : Bool → ℤ
number_of true = pos 1
number_of false = pos 0

-- `value == item`
unfoldable pub json_equals : Json → Scalar → Bool
unfolding int_beq number_of
json_equals (Json.text s) (Scalar.text t) = s == t
json_equals (Json.integer m) (Scalar.integer n) = int_beq m n
json_equals (Json.integer m) (Scalar.boolean b) = int_beq m (number_of b)
json_equals (Json.boolean a) (Scalar.integer n) = int_beq (number_of a) n
json_equals (Json.boolean a) (Scalar.boolean b) = int_beq (number_of a) (number_of b)
json_equals _ _ = false
