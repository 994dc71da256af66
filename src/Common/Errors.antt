-- ===== src/Common/Errors.antt =====
-- Results of code that raises: a value, or the exception.
use mathlib.Core.Path.{◌≡◌, refl}
use mathlib.Core.Logic.{◌⊎◌, inl, inr}

pub data Result (E : Type 0) (A : Type 0) : Type 0 where
  ok : A → Result E A
  err : E → Result E A

infixl 5 ◌>>=◌
abbrev pub ◌>>=◌ : {E A B : Type 0} → Result E A → (A → Result E B) → Result E B
ok a >>= f = f a
err e >>= f = err e

pub Result-cases :
    {E A : Type 0} (r : Result E A) → ((a : A) × (r ≡ ok a)) ⊎ ((e : E) × (r ≡ err e))
Result-cases (ok a) = inl (a, refl)
Result-cases (err e) = inr (e, refl)

-- Code that has returned has passed its first step.
pub Result-bind_ok :
    {E A B : Type 0} (r : Result E A) (f : A → Result E B) (b : B)
    → (r >>= f) ≡ ok b
    → (a : A) × ((r ≡ ok a) × (f a ≡ ok b))
Result-bind_ok (ok a) f b h = (a, (refl, h))
Result-bind_ok (err e) f b h = absurd (cc h)

pub ok-injective : {E A : Type 0} (a b : A) → Path (Result E A) (ok a) (ok b) → a ≡ b
ok-injective a b h = cc h

pub Result-bind_cong :
    {E A B : Type 0} (r : Result E A) (f g : A → Result E B)
    → ((a : A) → f a ≡ g a)
    → (r >>= f) ≡ (r >>= g)
Result-bind_cong (ok a) f g h = h a
Result-bind_cong (err e) f g h = refl

pub Result-bind_assoc :
    {E A B C : Type 0} (r : Result E A) (f : A → Result E B) (g : B → Result E C)
    → ((r >>= f) >>= g) ≡ (r >>= λ a. f a >>= g)
Result-bind_assoc (ok a) f g = refl
Result-bind_assoc (err e) f g = refl
