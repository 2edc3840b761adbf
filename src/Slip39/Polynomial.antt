-- ===== src/Slip39/Polynomial.antt =====
-- Polynomials over the field, and what interpolation finds of them.
use piso_chain.Base.{suc, ◌-◌, ◌≤◌, ◌≡◌, refl, sym, ap, ◌∙◌, fun_ext, List, [], ◌∷◌, length, arith}
use mathlib.Core.Path.{ap₂}
use piso_chain.Slip39.Field
use piso_chain.Slip39.Field.{Field}
use piso_chain.Slip39.Lagrange.{
  interpolate, interpolate-add, interpolate-mul, interpolate_drop_first, interpolate-one, Distinct,
}

module _ (k : Field) where
  open k use {
    F, zero, one, add, mul, div, add_comm, add_assoc, zero-add, add_self, mul_comm, mul_assoc,
    one-mul, zero-mul, mul-add, div-mul,
  }

  -- Polynomials, the constant coefficient first.
  unfoldable pub eval : List F → F → F
  eval [] z = zero
  eval (c ∷ cs) z = add c (mul z (eval cs z))

  sum_poly : List F → F → List F → List F
  sum_poly [] a q = []
  sum_poly (c ∷ cs) a [] = c ∷ sum_poly cs a []
  sum_poly (c ∷ cs) a (d ∷ q) = add c (mul a d) ∷ sum_poly cs a q

  -- the quotient by `z + a`
  quotient : F → List F → List F
  quotient a [] = []
  quotient a (c ∷ cs) = sum_poly cs a (quotient a cs)

  length-sum_poly : (cs : List F) (a : F) (q : List F) → length (sum_poly cs a q) ≡ length cs
  unfolding sum_poly
  length-sum_poly [] a q = refl
  length-sum_poly (c ∷ cs) a [] = ap suc (length-sum_poly cs a [])
  length-sum_poly (c ∷ cs) a (d ∷ q) = ap suc (length-sum_poly cs a q)

  length-quotient : (a : F) (cs : List F) → length (quotient a cs) ≡ length cs - 1
  unfolding quotient
  length-quotient a [] = refl
  length-quotient a (c ∷ cs) = omega (arith, length-sum_poly cs a (quotient a cs))

  eval-sum_poly :
      (cs : List F) (a : F) (q : List F) (z : F)
      → length q ≤ length cs
      → eval (sum_poly cs a q) z ≡ add (eval cs z) (mul a (eval q z))
  unfolding sum_poly eval
  eval-sum_poly [] a [] z h = sym (rw (Field.mul-zero k a) (zero-add zero))
  eval-sum_poly [] a (d ∷ q) z h = absurd (omega arith)
  eval-sum_poly (c ∷ cs) a [] z h =
      ap (λ t. add c (mul z t))
        (eval-sum_poly cs a [] z (omega arith)
          ∙ ap (add (eval cs z)) (Field.mul-zero k a)
          ∙ Field.add-zero k (eval cs z))
      ∙ sym (rw (Field.mul-zero k a) (Field.add-zero k (add c (mul z (eval cs z)))))
  eval-sum_poly (c ∷ cs) a (d ∷ q) z h =
      ap (λ t. add (add c (mul a d)) (mul z t)) (eval-sum_poly cs a q z (omega arith))
      ∙ ap (add (add c (mul a d))) (
          mul-add z (eval cs z) (mul a (eval q z))
          ∙ ap (add (mul z (eval cs z))) (Field.mul_left_comm k z a (eval q z)))
      ∙ Field.add_swap k c (mul a d) (mul z (eval cs z)) (mul a (mul z (eval q z)))
      ∙ ap (add (add c (mul z (eval cs z)))) (sym (mul-add a d (mul z (eval q z))))

  -- Division with remainder by `z + a`.
  division :
      (a : F) (cs : List F) (z : F)
      → eval cs z ≡ add (eval cs a) (mul (add z a) (eval (quotient a cs) z))
  unfolding quotient eval
  division a [] z = sym (rw (Field.mul-zero k (add z a)) (zero-add zero))
  division a (c ∷ cs) z =
      let p : F = eval cs z in
      let r : F = eval cs a in
      let q : F = eval (quotient a cs) z in
      let rest : mul (add z a) (eval (sum_poly cs a (quotient a cs)) z) ≡ add (mul z p) (mul a r) =
        ap (mul (add z a))
          (eval-sum_poly cs a (quotient a cs) z (omega (arith, length-quotient a cs)))
        ∙ mul-add (add z a) p (mul a q)
        ∙ ap₂ add (Field.add-mul k z a p) (
            Field.mul_left_comm k (add z a) a q
            ∙ ap (mul a) (
                sym (Field.add_add_self k r (mul (add z a) q)) ∙ ap (add r) (sym (division a cs z)))
            ∙ mul-add a r p)
        ∙ ap (add (add (mul z p) (mul a p))) (add_comm (mul a r) (mul a p))
        ∙ add_assoc (mul z p) (mul a p) (add (mul a p) (mul a r))
        ∙ ap (add (mul z p)) (Field.add_add_self k (mul a p) (mul a r)) in
      sym (
        ap (add (add c (mul a r))) (rest ∙ add_comm (mul z p) (mul a r))
        ∙ add_assoc c (mul a r) (add (mul a r) (mul z p))
        ∙ ap (add c) (Field.add_add_self k (mul a r) (mul z p)))

  interpolate_const :
      (c a : F) (xs : List F) → Distinct k (a ∷ xs) → interpolate k (λ z. c) (a ∷ xs) ≡ c
  interpolate_const c a xs h =
      ap (λ (f : F → F). interpolate k f (a ∷ xs)) (fun_ext (λ z. sym (Field.mul-one k c)))
      ∙ interpolate-mul k c (λ z. one) (a ∷ xs)
      ∙ ap (mul c) (interpolate-one k a xs h)
      ∙ Field.mul-one k c

  -- At distinct points, as many as a polynomial has coefficients, interpolation finds its value at zero.
  pub interpolate-eval :
      (cs xs : List F)
      → Distinct k xs
      → length cs ≤ length xs
      → interpolate k (eval cs) xs ≡ eval cs zero
  interpolate-eval [] [] d h = unfold interpolate eval in refl
  interpolate-eval (c ∷ cs) [] d h = absurd (omega arith)
  interpolate-eval cs (a ∷ xs) d h =
      let q : List F = quotient a cs in
      ap (λ (f : F → F). interpolate k f (a ∷ xs)) (fun_ext (λ z. division a cs z))
      ∙ interpolate-add k (λ z. eval cs a) (λ z. mul (add z a) (eval q z)) (a ∷ xs)
      ∙ ap₂ add (interpolate_const (eval cs a) a xs d) (
          interpolate_drop_first k (eval q) a xs d.0
          ∙ ap (mul a) (interpolate-eval q xs d.1 (omega (arith, length-quotient a cs))))
      ∙ sym (division a cs zero ∙ ap (λ t. add (eval cs a) (mul t (eval q zero))) (zero-add a))
