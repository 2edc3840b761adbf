-- ===== src/Outcome.antt =====
-- The outcome of code that may raise: a value, or an exception of the type `E`.
use piso_chain.Base.{Option, none, some}

pub data Result {ℓ κ} (E : Type ℓ) (A : Type κ) : Type (ℓ ⊔ κ) where
  ok : A → Result E A
  err : E → Result E A

infixl 5 ◌>>=◌
abbrev pub ◌>>=◌ {ℓ κ μ} :
    {E : Type ℓ} {A : Type κ} {B : Type μ} → Result E A → (A → Result E B) → Result E B
ok a >>= f = f a
err e >>= f = err e

-- What holds of the value, if there is one.
abbrev pub AllOk {ℓ κ μ} : {E : Type ℓ} {A : Type κ} → (A → Type μ) → Result E A → Type μ
AllOk P (ok a) = P a
AllOk P (err e) = Unit

-- An optional value, or an exception.
abbrev pub or_raise {ℓ κ} : {E : Type ℓ} {A : Type κ} → E → Option A → Result E A
or_raise e none = err e
or_raise e (some a) = ok a
