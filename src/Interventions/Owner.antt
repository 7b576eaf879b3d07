-- ===== src/Interventions/Owner.antt =====
-- interventions/models.py: who controls the live session.
use replay_forge.Base.{
  Bool, Eq, Option, Result, String, arith, err, false, if◌then◌else◌, nat_eq, none, not, ok,
  option_beq_iff, option_eq, pair_eq, rank_beq, some, string_eq, true, value_error, ℕ, ◌&&◌, ◌==◌,
  ◌↔◌, ◌≡◌,
}
use replay_forge.Text.{append, is_blank}

pub data OwnerKind : Type 0 where
  automation automation_paused human no_one : OwnerKind

abbrev owner_rank : OwnerKind → ℕ
owner_rank automation = 0
owner_rank automation_paused = 1
owner_rank human = 2
owner_rank no_one = 3

abbrev pub kind_beq : OwnerKind → OwnerKind → Bool
kind_beq = rank_beq owner_rank

pub record ControlOwner : Type 0 where
  pub kind : OwnerKind
  pub principal_id : Option String

unfoldable pub owner_beq : ControlOwner → ControlOwner → Bool
owner_beq a b = kind_beq a.kind b.kind && a.principal_id == b.principal_id

pub owner_beq_iff : (a b : ControlOwner) → (owner_beq a b ≡ true) ↔ (a ≡ b)
unfolding owner_beq
owner_beq_iff a b = ground (arith, option_beq_iff a.principal_id b.principal_id)

instance abbrev pub owner_eq : Eq ControlOwner
owner_eq = record { beq = owner_beq; beq_iff = owner_beq_iff }

abbrev pub is_human : OwnerKind → Bool
is_human human = true
is_human _ = false

-- `principal_id is None or not principal_id.strip()`
abbrev pub lacks_principal : Option String → Bool
lacks_principal none = true
lacks_principal (some id) = is_blank id

abbrev pub is_some : Option String → Bool
is_some none = false
is_some (some _) = true

-- `ControlOwner(kind, principal_id)`
unfoldable pub control_owner : OwnerKind → Option String → Result ControlOwner
control_owner kind principal =
    if is_human kind && lacks_principal principal
    then err value_error
    else if not (is_human kind) && is_some principal
    then err value_error
    else ok (record { kind = kind; principal_id = principal })

abbrev pub automation_owner : ControlOwner
automation_owner = record { kind = automation; principal_id = none }

abbrev pub paused_owner : ControlOwner
paused_owner = record { kind = automation_paused; principal_id = none }

abbrev pub no_owner : ControlOwner
no_owner = record { kind = no_one; principal_id = none }

-- The owner that the program builds for an operator who passed the test.
abbrev pub human_owner : String → ControlOwner
human_owner operator = record { kind = human; principal_id = some operator }

kind_value : OwnerKind → String
kind_value automation = "automation"
kind_value automation_paused = "automation_paused"
kind_value human = "human"
kind_value no_one = "none"

-- What an f-string prints of the principal.
shown : Option String → String
shown none = "None"
shown (some id) = id

-- `ControlOwner.value`
owner_value : ControlOwner → String
unfolding kind_value shown
owner_value o =
    if is_human o.kind then append "human:" (shown o.principal_id) else kind_value o.kind
