-- ===== src/Policy/LayerChecks.antt =====
-- policy/models.py: what the constructor of a policy layer admits.
pub mod Evaluable
use replay_forge.Base.{
  Bool, Option, Result, String, any, false, leb, nat_eq, nat_eqb, none, not, option_eq, pair_eq,
  raise_if, some, string_eq, true, value_error, ℕ, ◌&&◌, ◌==◌, ◌>>◌, ◌||◌,
}
use replay_forge.Text.{
  contains, every, is_empty, is_identifier, is_lower, is_space, is_truthy, is_word, len, matches,
  starts_with,
}
use replay_forge.Policy.Layers.{PolicyLayer}
use replay_forge.Policy.Routes.{Library, UrlParts}

-- `[a-z0-9_.-]`
is_name_char : ℕ → Bool
is_name_char c = is_word c || nat_eqb c b'.' || nat_eqb c b'-'

-- `[a-z][a-z0-9_.-]{0,63}`
unfoldable pub is_layer_name : String → Bool
unfolding is_name_char
is_layer_name s = matches is_lower is_name_char s && leb (len s) 64

-- A pattern that is not an absolute path.
unfoldable pub is_bad_pattern : String → Bool
is_bad_pattern pattern =
    not (starts_with pattern "/")
    || contains pattern "?"
    || contains pattern "#"
    || contains pattern "//"
    || contains pattern ".."

module _ (lib : Library) where
  -- An origin with its split; reading a bad port raises, as `urlsplit` itself may.
  is_bad_split : String → Option UrlParts → Bool
  is_bad_split origin none = true
  is_bad_split origin (some parts) =
      port_raises parts.port
      || not (parts.scheme == "http" || parts.scheme == "https")
      || not (is_truthy parts.hostname)
      || is_truthy parts.username
      || is_truthy parts.password
      || not (is_empty parts.path)
      || not (is_empty parts.query)
      || not (is_empty parts.fragment)
      || contains origin "?"
      || contains origin "#"
      || not (every (λ c. not (is_space c)) origin)
    where
      port_raises : Option (Option ℕ) → Bool
      port_raises none = true
      port_raises (some port) = false

  unfoldable pub is_bad_origin : String → Bool
  unfolding is_bad_split
  is_bad_origin origin = is_bad_split origin (lib.urlsplit origin)

  -- `PolicyLayer.__post_init__`
  unfoldable pub check_layer : PolicyLayer → Result (Unit {0})
  check_layer l = do
    raise_if (not (is_layer_name l.name)) value_error
    raise_if (any is_bad_origin l.allowed_origins) value_error
    raise_if (any is_bad_pattern l.allowed_route_patterns) value_error
    raise_if (any (λ a. not (is_identifier a)) l.allowed_action_types) value_error
