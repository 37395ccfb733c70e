-- ===== src/Prelude/Raises.antt =====
-- Results of functions that may raise an exception which the model does not catch.
use mathlib.Core.Path.{◌≡◌, refl, ap}

pub data Raises {ℓ} (A : Type ℓ) : Type ℓ where
  ok : A → Raises A
  value_error : Raises A

infixl 5 ◌>>=◌
abbrev pub ◌>>=◌ {ℓ κ} : {A : Type ℓ} {B : Type κ} → Raises A → (A → Raises B) → Raises B
ok a >>= f = f a
value_error >>= f = value_error

abbrev pub ok_or {ℓ} : {A : Type ℓ} → A → Raises A → A
ok_or d (ok a) = a
ok_or d value_error = d

-- A computation that ends by returning `f a` returns only such values.
pub bind-eq-ok :
    {A B : Type 0} (m : Raises A) (f : A → B) (b : B)
    → (m >>= λ a. ok (f a)) ≡ ok b
    → (a : A) × (m ≡ ok a) × (f a ≡ b)
bind-eq-ok value_error f b h = absurd (cc)
bind-eq-ok (ok a) f b h = (a, refl, ap (ok_or b) h)
