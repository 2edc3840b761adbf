-- ===== src/Dict/Values.antt =====
-- A predicate on every value of a dict, under each writing operation.
use piso_chain.Base.{◌≡◌, subst, some, [], ◌∷◌, arith, EqKey, Bool-cases, inl, inr}
use piso_chain.Int.{ℤ, pos, ◌≤ℤ◌, int_laws}
use piso_chain.Dict.{Dict, lookup, get_default, insert, erase}
use piso_chain.Dict.Total.{total}

abbrev pub AllValues {ℓ κ μ} : {K : Type ℓ} {V : Type κ} → (V → Type μ) → Dict K V → Type μ
AllValues P [] = Unit
AllValues P ((k, v) ∷ d) = P v × AllValues P d

module _ {ℓ κ μ} {K : Type ℓ} {V : Type κ} ⦃e : EqKey K⦄ (P : V → Type μ) where
  pub AllValues-insert :
      (k : K) (v : V) (d : Dict K V) → P v → AllValues P d → AllValues P (insert k v d)
  unfolding insert
  AllValues-insert k v [] p h = (p, tt)
  AllValues-insert k v ((j, w) ∷ d) p h = ground (arith, AllValues-insert k v d p h.1)

  pub AllValues-erase : (k : K) (d : Dict K V) → AllValues P d → AllValues P (erase k d)
  unfolding erase
  AllValues-erase k [] h = h
  AllValues-erase k ((j, w) ∷ d) h = ground (arith, AllValues-erase k d h.1)

  pub AllValues-lookup : (k : K) (v : V) (d : Dict K V) → lookup k d ≡ some v → AllValues P d → P v
  unfolding lookup
  AllValues-lookup k v [] p h = cc
  AllValues-lookup k v ((j, w) ∷ d) p h = elim (Bool-cases (e.beq j k)) [
    | inl same ↦ let held : w ≡ v = ground arith in subst P held h.0
    | inr other ↦ AllValues-lookup k v d (ground arith) h.1
  ]

  pub AllValues-get_default :
      (x : V) (k : K) (d : Dict K V) → P x → AllValues P d → P (get_default x k d)
  unfolding get_default
  AllValues-get_default x k [] p h = p
  AllValues-get_default x k ((j, w) ∷ d) p h = ground (arith, AllValues-get_default x k d p h.1)

pub AllValues-map {ℓ κ μ ν} :
    {K : Type ℓ} {V : Type κ} (P : V → Type μ) (Q : V → Type ν) (d : Dict K V)
    → ((v : V) → P v → Q v)
    → AllValues P d
    → AllValues Q d
AllValues-map P Q [] f h = tt
AllValues-map P Q ((k, v) ∷ d) f h = (f v h.0, AllValues-map P Q d f h.1)

pub total_nonneg {ℓ κ} :
    {K : Type ℓ} {V : Type κ} (f : V → ℤ) (d : Dict K V)
    → AllValues (λ v. pos 0 ≤ℤ f v) d
    → pos 0 ≤ℤ total f d
unfolding total
total_nonneg f [] h = omega arith
total_nonneg f ((k, v) ∷ d) h = omega (int_laws, total_nonneg f d h.1)
