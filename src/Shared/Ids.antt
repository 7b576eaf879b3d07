-- ===== src/Shared/Ids.antt =====
-- shared/ids.py: opaque identifiers with a typed prefix.
pub mod Roundtrip
use Prim.Native.Char.{code}
use replay_forge.Base.{
  Bool, Option, Result, String, [], bool_eq, err, if◌then◌else◌, leb, nat_eq, nat_eqb, none, ok,
  option_eq, pair_eq, refl, some, string_eq, true, value_error, ℕ, ◌&&◌, ◌==◌, ◌>>=◌, ◌||◌, ◌∷◌,
  ◌≡◌,
}
use replay_forge.Text.{append, every, is_digit, is_lower, len}

-- `EntityId` is a NewType over `str`.
abbrev pub EntityId : Type 0
EntityId = String

pub data EntityKind : Type 0 where
  execution run suite session intervention evidence decision event trace : EntityKind

-- The member's value.
pub prefix : EntityKind → String
prefix EntityKind.execution = "exe"
prefix EntityKind.run = "run"
prefix EntityKind.suite = "sui"
prefix EntityKind.session = "ses"
prefix EntityKind.intervention = "int"
prefix EntityKind.evidence = "evd"
prefix EntityKind.decision = "dec"
prefix EntityKind.event = "evt"
prefix EntityKind.trace = "trc"

-- `EntityKind(text)`; none is the ValueError of an unknown member.
kind_of : String → Option EntityKind
kind_of text =
    if text == "exe"
    then some EntityKind.execution
    else if text == "run"
    then some EntityKind.run
    else if text == "sui"
    then some EntityKind.suite
    else if text == "ses"
    then some EntityKind.session
    else if text == "int"
    then some EntityKind.intervention
    else if text == "evd"
    then some EntityKind.evidence
    else if text == "dec"
    then some EntityKind.decision
    else if text == "evt"
    then some EntityKind.event
    else if text == "trc"
    then some EntityKind.trace
    else none

-- `[0-9a-f]`
unfoldable pub is_hex : ℕ → Bool
unfolding is_digit
is_hex c = is_digit c || (leb b'a' c && leb c b'f')

-- `_ID_PATTERN`: three lowercase letters, an underscore, 32 hexadecimal digits; its groups.
id_match : String → Option (String × String)
unfolding is_lower is_hex every
id_match (String.◌∷◌ a (String.◌∷◌ b (String.◌∷◌ c (String.◌∷◌ d value)))) =
    if is_lower (code a)
      && is_lower (code b)
      && is_lower (code c)
      && nat_eqb (code d) b'_'
      && every is_hex value
      && nat_eqb (len value) 32
    then some (String.◌∷◌ a (String.◌∷◌ b (String.◌∷◌ c String.[])), value)
    else none
id_match _ = none

kind_matches : EntityKind → Option EntityKind → Bool
unfolding prefix
kind_matches kind none = true
kind_matches kind (some expected) = prefix kind == prefix expected

-- The kind is checked where one is expected. `UUID(hex=value)` accepts any 32 hexadecimal digits.
unfoldable pub parse_id : String → Option EntityKind → Result EntityId
unfolding id_match kind_of kind_matches
parse_id value expected = elim (id_match value) [
  | none ↦ err value_error
  | some (text, payload) ↦ elim (kind_of text) [
    | none ↦ err value_error
    | some kind ↦ if kind_matches kind expected then ok value else err value_error
  ]
]

-- `parse_id(str(value), kind)` where the result is dropped.
abbrev pub check_id : EntityId → EntityKind → Result (Unit {0})
check_id value kind = parse_id value (some kind) >>= λ _. ok tt

abbrev pub check_optional_id : Option EntityId → EntityKind → Result (Unit {0})
check_optional_id none kind = ok tt
check_optional_id (some value) kind = check_id value kind

-- `new_id(kind)`, over the 32 hexadecimal digits that `uuid4().hex` gives.
unfoldable pub new_id : EntityKind → String → EntityId
unfolding prefix append
new_id kind payload = append (prefix kind) (append "_" payload)

abbrev session_one : String
session_one = "ses_0123456789abcdef0123456789abcdef"

parses : parse_id session_one (some EntityKind.session) ≡ ok session_one
unfolding parse_id
parses = refl

parses_not : parse_id session_one (some EntityKind.run) ≡ err value_error
unfolding parse_id
parses_not = refl
