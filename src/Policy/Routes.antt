-- ===== src/Policy/Routes.antt =====
-- policy/evaluator.py: canonical origins and route patterns. What `urllib` and the Unicode tables
-- give is a parameter.
use replay_forge.Base.{
  Bool, List, Option, String, [], false, if◌then◌else◌, ltb, map, nat_eq, nat_eqb, none, not,
  option_eq, pair_eq, some, string_eq, ℕ, ◌&&◌, ◌==◌, ◌||◌, ◌∷◌,
}
use replay_forge.Text.{
  append, contains, every, is_empty, is_space, is_truthy, len, split, starts_with,
}
use Prim.Native.Char.{code}

-- What `urlsplit` returns; none for a port is that reading it raises.
pub record UrlParts : Type 0 where
  pub scheme : String
  pub hostname : Option String
  pub username : Option String
  pub password : Option String
  pub path : String
  pub query : String
  pub fragment : String
  pub port : Option (Option ℕ)

-- `urlsplit`, none where it raises; `str.lower`, `str.casefold` and `str` of an integer.
pub record Library : Type 0 where
  pub urlsplit : String → Option UrlParts
  pub lower : String → String
  pub casefold : String → String
  pub decimal : ℕ → String

module _ (lib : Library) where
  or_empty : Option String → String
  or_empty none = ""
  or_empty (some s) = s

  bracketed : String → String
  bracketed host = if contains host ":" then append "[" (append host "]") else host

  port_text : Option ℕ → String
  port_text none = ""
  port_text (some n) = append ":" (lib.decimal n)

  rebuilt : UrlParts → Option (Option ℕ) → Option String
  unfolding or_empty bracketed port_text
  rebuilt parts none = none
  rebuilt parts (some port) = some (
      append (lib.lower parts.scheme)
        (append "://" (append (bracketed (lib.lower (or_empty parts.hostname))) (port_text port))))

  is_plain : UrlParts → Bool
  is_plain parts =
      (parts.scheme == "http" || parts.scheme == "https")
      && is_truthy parts.hostname
      && not (is_truthy parts.username)
      && not (is_truthy parts.password)
      && (parts.path == "" || parts.path == "/")
      && is_empty parts.query
      && is_empty parts.fragment

  from_parts : Option UrlParts → Option String
  unfolding is_plain rebuilt
  from_parts none = none
  from_parts (some parts) = if is_plain parts then rebuilt parts parts.port else none

  -- `_canonical_origin`
  unfoldable pub canonical_origin : String → Option String
  unfolding from_parts
  canonical_origin origin =
      if has_space origin || contains origin "?" || contains origin "#"
      then none
      else from_parts (lib.urlsplit origin)
    where
      has_space : String → Bool
      has_space s = not (every (λ c. not (is_space c)) s)

-- What the expression of a route pattern has between two slashes.
pub data Part : Type 0 where
  wildcard : Part
  literal : String → Part

-- `segment == "*" or (segment.startswith(":") and len(segment) > 1)`
part_of : String → Part
part_of segment =
    if segment == "*" || (starts_with segment ":" && ltb 1 (len segment))
    then wildcard
    else literal segment

strip_left : String → String
strip_left String.[] = String.[]
strip_left (String.◌∷◌ c s) = if nat_eqb (code c) b'/' then strip_left s else String.◌∷◌ c s

all_slashes : String → Bool
all_slashes s = every (λ c. nat_eqb c b'/') s

strip_right : String → String
unfolding all_slashes
strip_right String.[] = String.[]
strip_right (String.◌∷◌ c s) =
    if all_slashes (String.◌∷◌ c s) then String.[] else String.◌∷◌ c (strip_right s)

-- The parts of `_route_matches`: `pattern.strip("/").split("/") if pattern != "/" else []`.
parts_of : String → List Part
unfolding strip_left strip_right part_of split
parts_of pattern =
    if pattern == "/" then [] else map part_of (split b'/' (strip_right (strip_left pattern)))

-- A text after a prefix, handed to what must match next.
pub after : String → (String → Bool) → String → Bool
after String.[] k s = k s
after (String.◌∷◌ d p) k String.[] = false
after (String.◌∷◌ d p) k (String.◌∷◌ c s) = nat_eqb (code c) (code d) && after p k s

-- `[^/]+`, with every way to end it.
some_segment : (String → Bool) → String → Bool
some_segment k String.[] = false
some_segment k (String.◌∷◌ c s) = not (nat_eqb (code c) b'/') && (k s || some_segment k s)

match_part : Part → (String → Bool) → String → Bool
unfolding after some_segment
match_part wildcard k s = some_segment k s
match_part (literal p) k s = after p k s

-- `/?$`
match_end : String → Bool
match_end s = s == "" || s == "/"

-- `"/".join(parts) + r"/?$"`
match_parts : List Part → String → Bool
unfolding match_part match_end
match_parts [] s = match_end s
match_parts (p ∷ []) s = match_part p match_end s
match_parts (p ∷ q ∷ parts) s = match_part p (after "/" (match_parts (q ∷ parts))) s

-- `_route_matches`
unfoldable pub route_matches : String → String → Bool
unfolding parts_of match_parts
route_matches route pattern =
    if not (starts_with route "/") || contains route "?" || contains route "#"
    then false
    else after "/" (match_parts (parts_of pattern)) route
