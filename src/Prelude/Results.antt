-- ===== src/Prelude/Results.antt =====
-- Python's exceptions as values: a call that may raise returns a `Result`.

use mathlib.Core.Path.{◌≡◌, refl}
use mathlib.Core.Bool.{Bool, true, false}
use mathlib.Core.Logic.{◌⊎◌, inl, inr}

-- The exceptions that the modelled code raises or catches.
pub data Exc : Type 0 where
  value_error type_error key_error unicode_error overflow_error os_error timeout_error : Exc
  redis_error watch_error database_error yaml_error : Exc

pub data Result {ℓ} (A : Type ℓ) : Type ℓ where
  ok : A → Result A
  raise : Exc → Result A

pub Result-cases {ℓ} :
    {A : Type ℓ} (r : Result A) → ((a : A) × (r ≡ ok a)) ⊎ ((e : Exc) × (r ≡ raise e))
Result-cases (ok a) = inl (a, refl)
Result-cases (raise e) = inr (e, refl)

infixl 5 ◌>>=◌
abbrev pub ◌>>=◌ {ℓ κ} : {A : Type ℓ} {B : Type κ} → Result A → (A → Result B) → Result B
ok a >>= f = f a
raise e >>= f = raise e

-- if refused: raise e
abbrev pub refuse_if : Bool → Exc → Result (Unit {0})
refuse_if true e = raise e
refuse_if false e = ok tt

pub refuse_if-ok : (b : Bool) (e : Exc) → refuse_if b e ≡ ok tt → b ≡ false
refuse_if-ok true e h = cc
refuse_if-ok false e h = refl

pub >>=-ok {ℓ κ} :
    {A : Type ℓ} {B : Type κ} (m : Result A) (k : A → Result B) {b : B}
    → (m >>= k) ≡ ok b
    → (a : A) × (m ≡ ok a) × (k a ≡ ok b)
>>=-ok (ok a) k h = (a, refl, h)
>>=-ok (raise e) k h = cc

pub ok-injective {ℓ} : {A : Type ℓ} {x y : A} → ok x ≡ ok y → x ≡ y
ok-injective h = cc

pub refused-ok {ℓ} :
    {A : Type ℓ} (b : Bool) (e : Exc) (m : Result A) {x : A}
    → (refuse_if b e >>= λ _. m) ≡ ok x
    → (b ≡ false) × (m ≡ ok x)
refused-ok true e m h = cc
refused-ok false e m h = (refl, h)
