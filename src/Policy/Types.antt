-- ===== src/Policy/Types.antt =====
-- policy/types.py: the safety classifications, and the enumerations of policy/models.py.
use replay_forge.Base.{
  Bool, Eq, arith, false, if◌then◌else◌, ltb, nat_eq, option_eq, pair_eq, rank_beq, string_eq, true,
  ℕ, ◌↔◌, ◌≡◌,
}

pub data Risk : Type 0 where
  read_only reversible sensitive irreversible : Risk

-- `RISK_RANK`
abbrev pub risk_rank : Risk → ℕ
risk_rank read_only = 0
risk_rank reversible = 1
risk_rank sensitive = 2
risk_rank irreversible = 3

-- `max(a, b, key=RISK_RANK.__getitem__)`: the first of two equal ones.
abbrev pub max_risk : Risk → Risk → Risk
max_risk a b = if ltb (risk_rank a) (risk_rank b) then b else a

-- `min(a, b, key=RISK_RANK.__getitem__)`
abbrev pub min_risk : Risk → Risk → Risk
min_risk a b = if ltb (risk_rank b) (risk_rank a) then b else a

pub data DataClassification : Type 0 where
  public_ operational customer_identifier personal financial credential secret : DataClassification

abbrev class_rank : DataClassification → ℕ
class_rank public_ = 0
class_rank operational = 1
class_rank customer_identifier = 2
class_rank personal = 3
class_rank financial = 4
class_rank credential = 5
class_rank secret = 6

abbrev pub class_beq : DataClassification → DataClassification → Bool
class_beq = rank_beq class_rank

pub class_beq_iff : (a b : DataClassification) → (class_beq a b ≡ true) ↔ (a ≡ b)
class_beq_iff a b = ground arith

instance abbrev pub class_eq : Eq DataClassification
class_eq = record { beq = class_beq; beq_iff = class_beq_iff }

pub data Decision : Type 0 where
  allow deny require_human_approval : Decision

pub data PrincipalType : Type 0 where
  automation human : PrincipalType

pub data RunMode : Type 0 where
  discovery replay human_control : RunMode

abbrev pub is_human : PrincipalType → Bool
is_human human = true
is_human automation = false

abbrev pub is_human_control : RunMode → Bool
is_human_control human_control = true
is_human_control _ = false
