-- ===== src/Prelude/Results.antt =====
-- Results that may be errors, and calls that may panic.
use mathlib.Core.Path.{◌≡◌, refl}
use mathlib.Core.Logic.{◌⊎◌, inl, inr}

-- `(A, error)`, where a non-nil error is returned with no value.
pub data Result {ℓ} (E : Type ℓ) (A : Type ℓ) : Type ℓ where
  done : A → Result E A
  failed : E → Result E A

pub Result-cases {ℓ} :
    {E A : Type ℓ} (r : Result E A) → ((a : A) × (r ≡ done a)) ⊎ ((e : E) × (r ≡ failed e))
Result-cases (done a) = inl (a, refl)
Result-cases (failed e) = inr (e, refl)

-- A call that returns, or panics with a message.
pub data Outcome {ℓ} (M : Type ℓ) (A : Type ℓ) : Type ℓ where
  returned : A → Outcome M A
  panicked : M → Outcome M A

infixl 5 ◌>>=◌
abbrev pub ◌>>=◌ {ℓ} : {E A B : Type ℓ} → Result E A → (A → Result E B) → Result E B
done a >>= f = f a
failed e >>= f = failed e

-- A chain that ends well has been well up to each call.
pub bind_done {ℓ} :
    {E A B : Type ℓ} (r : Result E A) (f : A → Result E B) (b : B)
    → r >>= f ≡ done b
    → (a : A) × (r ≡ done a) × (f a ≡ done b)
bind_done (done a) f b h = (a, refl, h)
bind_done (failed e) f b h = absurd (cc h)
