-- ===== src/Base/Errors.antt =====
-- Exceptions as values. An exception class of the program is a constructor; its text is left out.
use Prim.Native.String.{String}
use mathlib.Core.Path.{◌≡◌, refl}
use mathlib.Core.Bool.{Bool, true, false}

pub data Error : Type 0 where
  -- the built-in classes that the program raises or catches
  value_error type_error runtime_error stop_iteration key_error os_error : Error
  -- interventions/leases.py
  lease_conflict lease_expired lease_not_found : Error
  -- interventions/router.py, interventions/models.py, interventions/service.py
  intervention_conflict intervention_not_found intervention_transition unauthorized : Error
  -- runs/viewing.py, by the code of the ViewingError
  viewer_unavailable execution_capacity_reached execution_unavailable frame_expired : Error
  -- capabilities/values.py, by the code of the ContractValidationError
  contract_error : String → Error

pub data Result {ℓ} (A : Type ℓ) : Type ℓ where
  ok : A → Result A
  err : Error → Result A

-- `if test: raise error`
abbrev pub raise_if : Bool → Error → Result (Unit {0})
raise_if true e = err e
raise_if false e = ok tt

infixl 10 ◌>>=◌ ◌>>◌
abbrev pub ◌>>=◌ {ℓ κ} : {A : Type ℓ} {B : Type κ} → Result A → (A → Result B) → Result B
err e >>= f = err e
ok a >>= f = f a

abbrev pub ◌>>◌ {ℓ} : {B : Type ℓ} → Result (Unit {0}) → Result B → Result B
m >> k = m >>= λ _. k

pub ok-eq {ℓ} : {A : Type ℓ} {a b : A} → ok a ≡ ok b → a ≡ b
ok-eq h = cc

pub err≢ok {ℓ} : {A : Type ℓ} {e : Error} {a : A} → ¬ (err e ≡ ok a)
err≢ok h = cc

-- A computation that returned went through both of its parts.
pub bind-eq-ok {ℓ κ} :
    {B : Type κ} {A : Type ℓ} (r : Result A) (next : A → Result B) {b : B}
    → r >>= next ≡ ok b
    → (value : A) × (r ≡ ok value) × (next value ≡ ok b)
bind-eq-ok (err e) next h = absurd (err≢ok h)
bind-eq-ok (ok a) next h = (a, refl, h)

-- `except ContractValidationError`, with the code, and any other exception.
abbrev pub on_contract_error {ℓ} : {A : Type ℓ} → (String → A) → A → Error → A
on_contract_error caught other (contract_error code) = caught code
on_contract_error caught other e = other

pub on_contract_error_rule {ℓ κ} :
    {A : Type ℓ} (P : A → Type κ) (caught : String → A) (other : A) (e : Error)
    → ((code : String) → P (caught code))
    → P other
    → P (on_contract_error caught other e)
on_contract_error_rule P caught other (contract_error code) first second = first code
on_contract_error_rule P caught other value_error first second = second
on_contract_error_rule P caught other type_error first second = second
on_contract_error_rule P caught other runtime_error first second = second
on_contract_error_rule P caught other stop_iteration first second = second
on_contract_error_rule P caught other key_error first second = second
on_contract_error_rule P caught other os_error first second = second
on_contract_error_rule P caught other lease_conflict first second = second
on_contract_error_rule P caught other lease_expired first second = second
on_contract_error_rule P caught other lease_not_found first second = second
on_contract_error_rule P caught other intervention_conflict first second = second
on_contract_error_rule P caught other intervention_not_found first second = second
on_contract_error_rule P caught other intervention_transition first second = second
on_contract_error_rule P caught other unauthorized first second = second
on_contract_error_rule P caught other viewer_unavailable first second = second
on_contract_error_rule P caught other execution_capacity_reached first second = second
on_contract_error_rule P caught other execution_unavailable first second = second
on_contract_error_rule P caught other frame_expired first second = second
