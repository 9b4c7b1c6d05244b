-- ===== src/Base/Result.antt =====
-- Fallible code: a value, or the error that was raised.
use esr.Base.Text.{Str}
use mathlib.Core.Path.{◌≡◌, refl}

-- The classes of the exceptions that the program's code raises; messages are left out.
pub data Exc : Type 0 where
  value_error type_error key_error attribute_error runtime_error connection_error : Exc

pub data Result {ℓ κ} (E : Type ℓ) (A : Type κ) : Type (ℓ ⊔ κ) where
  ok : A → Result E A
  err : E → Result E A

-- An exception of code that is a parameter: its class and its text.
pub record Failure : Type 0 where
  pub type : Str
  pub message : Str

-- What runs after a value was returned; an error skips it.
infixl 5 ◌>>=◌ ◌>>◌
abbrev pub ◌>>=◌ {ℓ κ μ} :
    {E : Type ℓ} {A : Type κ} {B : Type μ} → Result E A → (A → Result E B) → Result E B
err raised >>= next = err raised
ok value >>= next = next value

abbrev pub ◌>>◌ {ℓ κ} : {E : Type ℓ} {B : Type κ} → Result E (Unit {0}) → Result E B → Result E B
first >> after = first >>= λ done. after

-- Inversion of a bind that returned.
pub >>=-eq-ok {ℓ κ μ} :
    {E : Type ℓ} {A : Type κ} {B : Type μ} (first : Result E A) (next : A → Result E B) {b : B}
    → (first >>= next) ≡ ok b
    → (value : A) × (first ≡ ok value) × (next value ≡ ok b)
>>=-eq-ok (err raised) next e = cc
>>=-eq-ok (ok value) next e = (value, refl, e)

pub ok_inj {ℓ κ} : {E : Type ℓ} {A : Type κ} {a b : A} → ◌≡◌ {A = Result E A} (ok a) (ok b) → a ≡ b
ok_inj e = cc (e)
