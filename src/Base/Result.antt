-- ===== src/Base/Result.antt =====
-- A call that returns or raises.
use mathlib.Core.Path.{◌≡◌, refl}
use mathlib.Core.Logic.{◌⊎◌, inl, inr}
use mathlib.Core.Bool.{Bool, true, false, not}

pub data Result {ℓ κ} (E : Type ℓ) (A : Type κ) : Type (ℓ ⊔ κ) where
  ok : A → Result E A
  err : E → Result E A

abbrev pub is_ok {ℓ κ} : {E : Type ℓ} {A : Type κ} → Result E A → Bool
is_ok (ok _) = true
is_ok (err _) = false

infixl 5 ◌>>=◌ ◌>>◌
abbrev pub ◌>>=◌ : {E A B : Type 0} → Result E A → (A → Result E B) → Result E B
ok a >>= f = f a
err e >>= f = err e

abbrev pub ◌>>◌ : {E B : Type 0} → Result E (Unit {0}) → Result E B → Result E B
m >> k = m >>= λ _. k

-- `if test: raise e`.
abbrev pub raise_if : {E : Type 0} → Bool → E → Result E (Unit {0})
raise_if true e = err e
raise_if false e = ok tt

pub Result-cases :
    {E A : Type 0} (r : Result E A) → ((a : A) × (r ≡ ok a)) ⊎ ((e : E) × (r ≡ err e))
Result-cases (ok a) = inl (a, refl)
Result-cases (err e) = inr (e, refl)

-- What holds of the value of a call that returns.
pub record Yields {E A : Type 0} (Q : A → Type 0) (r : Result E A) : Type 0 where
  pub at : (a : A) → r ≡ ok a → Q a

pub Yields-bind :
    {E A B : Type 0} (Q : B → Type 0) (m : Result E A) (f : A → Result E B)
    → ((a : A) → Yields Q (f a))
    → Yields Q (m >>= f)
Yields-bind Q (ok a) f k = k a
Yields-bind Q (err e) f k = record { at = λ b h. absurd cc }

-- A call behind a guard returns only where what the guard asks for holds.
pub Yields-guard :
    {E A : Type 0} (Q : A → Type 0) (b : Bool) (e : E) (m : Result E A)
    → (b ≡ true → Yields Q m)
    → Yields Q (raise_if (not b) e >> m)
Yields-guard Q true e m k = k refl
Yields-guard Q false e m k = record { at = λ a h. absurd cc }
