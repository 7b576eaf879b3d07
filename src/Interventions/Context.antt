-- ===== src/Interventions/Context.antt =====
-- interventions/models.py: the operator-routing context of an intervention.
use replay_forge.Base.{
  Bool, Option, Result, String, [], all, any, bool_eq, false, leb, length, ltb, nat_eq, nat_eqb,
  none, not, ok, option_eq, pair_eq, raise_if, rank_beq, some, string_eq, value_error, ℕ, ◌&&◌, ◌+◌,
  ◌==◌, ◌>>◌, ◌||◌, ◌∷◌,
}
use replay_forge.Text.{
  contains, is_blank, is_identifier, is_lower, is_truthy, is_version_number, is_word, len, matches,
  split, starts_with,
}

pub data RunMode : Type 0 where
  discovery replay : RunMode

abbrev mode_rank : RunMode → ℕ
mode_rank discovery = 0
mode_rank replay = 1

abbrev pub mode_beq : RunMode → RunMode → Bool
mode_beq = rank_beq mode_rank

pub record InterventionContext : Type 0 where
  pub run_mode : RunMode
  pub application_family : String
  pub tenant : String
  pub task_summary : String
  pub surface_route : String
  pub step_id : Option String
  pub capability_id : Option String
  pub capability_version : Option String
  pub capability_name : Option String

pub context_beq : InterventionContext → InterventionContext → Bool
context_beq a b =
    mode_beq a.run_mode b.run_mode
    && a.application_family == b.application_family
    && a.tenant == b.tenant
    && a.task_summary == b.task_summary
    && a.surface_route == b.surface_route
    && a.step_id == b.step_id
    && a.capability_id == b.capability_id
    && a.capability_version == b.capability_version
    && a.capability_name == b.capability_name

-- `[a-z0-9_-]` and `[a-z0-9_.-]`
is_tenant_char : ℕ → Bool
is_tenant_char c = is_word c || nat_eqb c b'-'

is_step_char : ℕ → Bool
is_step_char c = is_word c || nat_eqb c b'.' || nat_eqb c b'-'

-- A pattern `[a-z][...]{low,high}`: the length counts the head too.
bounded_match : (ℕ → Bool) → ℕ → ℕ → String → Bool
bounded_match tail low high s =
    matches is_lower tail s && leb (low + 1) (len s) && leb (len s) (high + 1)

-- `[a-z][a-z0-9_]*(\.[a-z][a-z0-9_]*)+`: two or more identifiers between dots.
is_capability_id : String → Bool
is_capability_id s = let parts = split b'.' s in leb 2 (length parts) && all is_identifier parts

-- `(0|[1-9][0-9]*)\.(0|[1-9][0-9]*)\.(0|[1-9][0-9]*)`
is_version : String → Bool
is_version s = let parts = split b'.' s in nat_eqb (length parts) 3 && all is_version_number parts

-- The test is made of a value that is present.
abbrev pub present_and : (String → Bool) → Option String → Bool
present_and test none = false
present_and test (some s) = test s

-- `InterventionContext.__post_init__`; every refusal is a ValueError.
check_context : InterventionContext → Result (Unit {0})
check_context c =
    let capability_fields = c.capability_id ∷ c.capability_version ∷ c.capability_name ∷ [] in
    do
      raise_if
          (is_blank c.application_family
            || is_blank c.tenant
            || is_blank c.task_summary
            || is_blank c.surface_route)
          value_error
      raise_if (not (bounded_match is_word 1 63 c.application_family)) value_error
      raise_if (not (bounded_match is_tenant_char 1 63 c.tenant)) value_error
      raise_if (ltb 1000 (len c.task_summary)) value_error
      raise_if
          (not (starts_with c.surface_route "/")
            || contains c.surface_route "?"
            || contains c.surface_route "#"
            || contains c.surface_route "//"
            || contains c.surface_route "..")
          value_error
      raise_if (present_and (λ s. not (matches is_lower is_step_char s && leb 2 (len s))) c.step_id)
          value_error
      raise_if (mode_beq c.run_mode replay && not (all is_truthy capability_fields)) value_error
      raise_if (mode_beq c.run_mode discovery && any is_truthy capability_fields) value_error
      raise_if (present_and (λ s. not (is_capability_id s)) c.capability_id) value_error
      raise_if (present_and (λ s. not (is_version s)) c.capability_version) value_error

-- `InterventionContext(...)`
pub intervention_context : InterventionContext → Result InterventionContext
intervention_context c = do check_context c; ok c
