-- ===== src/Base/Results.antt =====
-- The exceptions that the modelled code raises (errors.py, and Python's own), as values.
use mathlib.Core.Path.{◌≡◌, refl}
use mathlib.Core.Bool.{Bool, true, false}

pub data Error : Type 0 where
  memory_capacity_error : Error
  runtime_plan_error : Error
  tensor_torrent_error : Error
  unsupported_feature_error : Error
  schedule_validation_error : Error
  value_error : Error
  type_error : Error
  key_error : Error
  runtime_error : Error
  overflow_error : Error

-- A call that raises, or returns.
pub data Result {ℓ} (A : Type ℓ) : Type ℓ where
  err : (e : Error) → Result A
  ok : (value : A) → Result A

-- `if test: raise e`.
abbrev pub raise_if : (test : Bool) (e : Error) → Result (Unit {0})
raise_if false e = ok tt
raise_if true e = err e

infixl 5 ◌>>=◌ ◌>>◌
-- The statement after a call runs when the call returns. Both binds compute wherever they stand.
abbrev pub ◌>>=◌ {ℓ κ} :
    {A : Type ℓ} {B : Type κ} → (call : Result A) (next : A → Result B) → Result B
err e >>= next = err e
ok value >>= next = next value

abbrev pub ◌>>◌ {ℓ κ} : {A : Type ℓ} {B : Type κ} → (call : Result A) (next : Result B) → Result B
call >> next = call >>= λ value. next

-- A sequence of two returns only if both do.
pub >>=-eq-ok {ℓ κ} :
    {A : Type ℓ} {B : Type κ}
    → (call : Result A) (next : A → Result B) {result : B} → (call >>= next) ≡ ok result
    → (value : A) × (call ≡ ok value) × (next value ≡ ok result)
>>=-eq-ok (err e) next h = cc
>>=-eq-ok (ok value) next h = (value, refl, h)
