-- ===== src/Slip39/Errors.antt =====
-- The exceptions that wallet/slip39/shamir.py raises, itself or through Python.
pub data Error : Type 0 where
  value_error zero_division index_error : Error

pub data Result {ℓ} (A : Type ℓ) : Type ℓ where
  ok : A → Result A
  err : Error → Result A

infixl 5 ◌>>=◌
abbrev pub ◌>>=◌ {ℓ κ} : {A : Type ℓ} {B : Type κ} → Result A → (A → Result B) → Result B
ok a >>= f = f a
err e >>= f = err e
