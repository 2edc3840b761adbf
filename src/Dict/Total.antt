-- ===== src/Dict/Total.antt =====
-- Sums over the values of a dict, and what each writing operation does to them.
use piso_chain.Base.{◌≡◌, some, [], ◌∷◌, EqKey}
use piso_chain.Int.{ℤ, pos, ◌+ℤ◌, int_laws}
use piso_chain.Dict.{Dict, lookup, get_default, insert, erase}

module _ {ℓ κ} {K : Type ℓ} {V : Type κ} (f : V → ℤ) where
  -- the sum of `f` over the values
  unfoldable pub total : Dict K V → ℤ
  total [] = pos 0
  total ((k, v) ∷ d) = f v +ℤ total d

module _ {ℓ κ} {K : Type ℓ} {V : Type κ} ⦃e : EqKey K⦄ (f : V → ℤ) where
  pub total-insert :
      (x : V) (k : K) (v : V) (d : Dict K V)
      → f x ≡ pos 0
      → total f (insert k v d) +ℤ f (get_default x k d) ≡ total f d +ℤ f v
  unfolding total insert get_default
  total-insert x k v [] h = rw h (omega int_laws)
  total-insert x k v ((j, w) ∷ d) h = grind (int_laws, total-insert x k v d h)

  pub total-erase :
      (k : K) (v : V) (d : Dict K V) → lookup k d ≡ some v → total f (erase k d) +ℤ f v ≡ total f d
  unfolding total erase lookup
  total-erase k v [] h = cc
  total-erase k v ((j, w) ∷ d) h = grind (int_laws, total-erase k v d)
