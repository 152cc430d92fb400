-- ===== src/Prelude/Results.antt =====
-- A call that returns or raises.
use mathlib.Core.Path.{◌≡◌, refl}

pub data Result {ℓ} (E A : Type ℓ) : Type ℓ where
  ok : A → Result E A
  err : E → Result E A

infixl 5 ◌>>=◌
abbrev pub ◌>>=◌ {ℓ} : {E A B : Type ℓ} → Result E A → (A → Result E B) → Result E B
ok a >>= f = f a
err e >>= f = err e

-- A chain that returns has returned in its first part.
pub >>=-eq-ok {ℓ} :
    {E A B : Type ℓ} (first : Result E A) (f : A → Result E B) {b : B}
    → (first >>= f) ≡ ok b
    → (x : A) × (first ≡ ok x) × (f x ≡ ok b)
>>=-eq-ok (ok x) f returned = (x, refl, returned)
>>=-eq-ok (err raised) f returned = cc
