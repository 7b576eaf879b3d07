-- ===== src/Capabilities/Transforms.antt =====
-- capabilities/transforms.py: what an extraction makes of the text that it read.
use replay_forge.Base.{
  String, bool_eq, if◌then◌else◌, nat_eq, nat_eqb, option_eq, pair_eq, string_eq, ◌==◌, ◌||◌,
}
use replay_forge.Text.{is_blank, is_space}
use Prim.Native.Char.{code}

-- `s.lstrip()`
unfoldable pub strip_start : String → String
unfolding is_space
strip_start String.[] = String.[]
strip_start (String.◌∷◌ c s) =
    let rest = strip_start s in if is_space (code c) then rest else String.◌∷◌ c s

-- `s.rstrip()`
unfoldable pub strip_end : String → String
unfolding is_blank
strip_end String.[] = String.[]
strip_end (String.◌∷◌ c s) =
    let rest = strip_end s in if is_blank (String.◌∷◌ c s) then String.[] else String.◌∷◌ c rest

-- `s.strip()`
abbrev pub strip : String → String
strip s = strip_end (strip_start s)

-- `s.removeprefix("$")`
abbrev pub without_dollar : String → String
without_dollar String.[] = String.[]
without_dollar (String.◌∷◌ c s) = if nat_eqb (code c) b'$' then s else String.◌∷◌ c s

-- `s.replace(",", "")`
unfoldable pub without_commas : String → String
without_commas String.[] = String.[]
without_commas (String.◌∷◌ c s) =
    let rest = without_commas s in if nat_eqb (code c) b',' then rest else String.◌∷◌ c rest

-- `transform_extracted_text`; `lower` is `str.lower`.
unfoldable pub transform_extracted_text : (String → String) → String → String → String
transform_extracted_text lower value transform =
    if transform == "lowercase"
    then lower (strip value)
    else if transform == "decimal"
    then without_commas (without_dollar (strip value))
    else if transform == "trim" || transform == "date-time"
    then strip value
    else value
