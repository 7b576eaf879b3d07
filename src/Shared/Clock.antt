-- ===== src/Shared/Clock.antt =====
-- shared/clock.py. A datetime is its instant on the UTC time line in microseconds, and whether it
-- carries an offset. A `Clock` returns aware instants, so a reading is a number, passed to the
-- operation that takes it, in the order in which the code reads the clock.
use replay_forge.Base.{ℕ, Bool, true, false, not, Eq, ◌≡◌, ◌↔◌, ◌&&◌, nat_eqb, arith}

pub record Datetime : Type 0 where
  pub instant : ℕ
  pub aware : Bool

-- What `clock.now()` returns at an instant.
abbrev pub utc : ℕ → Datetime
utc t = record { instant = t; aware = true }

-- `value.tzinfo is None or value.utcoffset() is None`
abbrev pub lacks_offset : Datetime → Bool
lacks_offset t = not t.aware

abbrev pub bool_beq : Bool → Bool → Bool
bool_beq true b = b
bool_beq false b = not b

abbrev pub datetime_beq : Datetime → Datetime → Bool
datetime_beq a b = nat_eqb a.instant b.instant && bool_beq a.aware b.aware

pub datetime_beq_iff : (a b : Datetime) → (datetime_beq a b ≡ true) ↔ (a ≡ b)
datetime_beq_iff a b = ground arith

instance abbrev pub datetime_eq : Eq Datetime
datetime_eq = record { beq = datetime_beq; beq_iff = datetime_beq_iff }
