-- ===== src/Text.antt =====
-- What the program uses of Python's `str` and of `re.fullmatch` with character classes.
use Prim.Native.Char.{Char, code}
use Prim.Native.String.{count}
use replay_forge.Base.{
  ℕ, String, Bool, true, false, not, ◌&&◌, ◌||◌, Option, none, some, List, [], ◌∷◌, leb, nat_eqb,
  if◌then◌else◌, ◌==◌, string_eq,
}

-- `len(s)`: a text is measured in code points.
abbrev pub len : String → ℕ
len = count

-- `c.isspace()`
unfoldable pub is_space : ℕ → Bool
is_space c =
    (leb 0x09 c && leb c 0x0d)
    || (leb 0x1c c && leb c 0x20)
    || nat_eqb c 0x85
    || nat_eqb c 0xa0
    || nat_eqb c 0x1680
    || (leb 0x2000 c && leb c 0x200a)
    || nat_eqb c 0x2028
    || nat_eqb c 0x2029
    || nat_eqb c 0x202f
    || nat_eqb c 0x205f
    || nat_eqb c 0x3000

-- Every character passes the test: `[...]*` in a pattern.
unfoldable pub every : (ℕ → Bool) → String → Bool
every p String.[] = true
every p (String.◌∷◌ c s) = p (code c) && every p s

-- `not s.strip()`
unfoldable pub is_blank : String → Bool
unfolding is_space
is_blank s = every is_space s

-- `not s`
pub is_empty : String → Bool
is_empty String.[] = true
is_empty (String.◌∷◌ c s) = false

-- The truth value of a `str | None`.
unfoldable pub is_truthy : Option String → Bool
unfolding is_empty
is_truthy none = false
is_truthy (some s) = not (is_empty s)

-- `s + t`
unfoldable pub append : String → String → String
append String.[] t = t
append (String.◌∷◌ c s) t = String.◌∷◌ c (append s t)

-- `s.startswith(p)`
pub starts_with : String → String → Bool
starts_with s String.[] = true
starts_with String.[] (String.◌∷◌ d p) = false
starts_with (String.◌∷◌ c s) (String.◌∷◌ d p) = nat_eqb (code c) (code d) && starts_with s p

-- `p in s`
unfoldable pub contains : String → String → Bool
unfolding starts_with
contains String.[] p = starts_with String.[] p
contains (String.◌∷◌ c s) p = starts_with (String.◌∷◌ c s) p || contains s p

abbrev put_char : Char → List String → List String
put_char c [] = (String.◌∷◌ c String.[]) ∷ []
put_char c (s ∷ parts) = (String.◌∷◌ c s) ∷ parts

-- `s.split(separator)` at a separator of one character, given by its code.
unfoldable pub split : ℕ → String → List String
split separator String.[] = "" ∷ []
split separator (String.◌∷◌ c s) =
    let rest = split separator s in
    if nat_eqb (code c) separator then "" ∷ rest else put_char c rest

unfoldable pub is_lower : ℕ → Bool
is_lower c = leb b'a' c && leb c b'z'

unfoldable pub is_digit : ℕ → Bool
is_digit c = leb b'0' c && leb c b'9'

-- `[a-z0-9_]`
unfoldable pub is_word : ℕ → Bool
unfolding is_lower is_digit
is_word c = is_lower c || is_digit c || nat_eqb c b'_'

-- A head class and a class for all that follows: `[...][...]*`.
unfoldable pub matches : (ℕ → Bool) → (ℕ → Bool) → String → Bool
unfolding every
matches head tail String.[] = false
matches head tail (String.◌∷◌ c s) = head (code c) && every tail s

-- `[a-z][a-z0-9_]*`
unfoldable pub is_identifier : String → Bool
unfolding matches is_lower is_word
is_identifier s = matches is_lower is_word s

-- `(0|[1-9][0-9]*)`
pub is_version_number : String → Bool
unfolding matches is_digit
is_version_number s = s == "0" || matches (λ c. leb b'1' c && leb c b'9') is_digit s
