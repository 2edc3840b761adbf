-- ===== src/Slip39/Weights.antt =====
-- The weights of interpolation as the code computes them: one fraction of two products, and a sum over
-- the points in which each leaves itself out.
use piso_chain.Base.{◌≡◌, ◌≢◌, sym, ap, ap₂, ◌∙◌, fun_ext, List, [], ◌∷◌, ◌++◌, All}
use piso_chain.Slip39.Field
use piso_chain.Slip39.Field.{Field}
use piso_chain.Slip39.Lagrange.{ratio, weight, interpolate}

module _ (k : Field) where
  open k use {
    F, zero, one, add, mul, div, add_comm, add_assoc, zero-add, mul_comm, mul_assoc, one-mul,
    mul-add, div-mul,
  }

  -- `num` times each point
  unfoldable pub product : F → List F → F
  product num [] = num
  product num (y ∷ ys) = product (mul num y) ys

  -- `den` times the sum of `x` with each point
  unfoldable pub differences : F → F → List F → F
  differences x den [] = den
  differences x den (y ∷ ys) = differences x (mul den (add x y)) ys

  pub differences_ne_zero :
      (x den : F) (ys : List F) → den ≢ zero → All (λ y. x ≢ y) ys → differences x den ys ≢ zero
  unfolding differences
  differences_ne_zero x den [] ne h = ne
  differences_ne_zero x den (y ∷ ys) ne h =
      differences_ne_zero x (mul den (add x y)) ys
        (Field.mul_ne_zero k den (add x y) ne (Field.add_ne_zero k x y h.0)) h.1

  pub fraction-weight :
      (x num den : F) (ys : List F)
      → den ≢ zero
      → All (λ y. x ≢ y) ys
      → div (product num ys) (differences x den ys) ≡ mul (div num den) (weight k x ys)
  unfolding product differences weight ratio
  fraction-weight x num den [] ne h = sym (Field.mul-one k (div num den))
  fraction-weight x num den (y ∷ ys) ne h =
      let nd : add x y ≢ zero = Field.add_ne_zero k x y h.0 in
      let nm : mul den (add x y) ≢ zero = Field.mul_ne_zero k den (add x y) ne nd in
      fraction-weight x (mul num y) (mul den (add x y)) ys nm h.1
      ∙ ap (λ t. mul t (weight k x ys)) (sym (Field.div-mul-div k num den y (add x y) ne nd nm))
      ∙ mul_assoc (div num den) (ratio k x y) (weight k x ys)

  weight-append :
      (x : F) (ys zs : List F) → weight k x (ys ++ zs) ≡ mul (weight k x ys) (weight k x zs)
  unfolding weight
  weight-append x [] zs = sym (one-mul (weight k x zs))
  weight-append x (y ∷ ys) zs =
      ap (mul (ratio k x y)) (weight-append x ys zs)
      ∙ sym (mul_assoc (ratio k x y) (weight k x ys) (weight k x zs))

  weight-snoc :
      (x y : F) (ys : List F) → weight k x (ys ++ y ∷ []) ≡ mul (weight k x ys) (ratio k x y)
  weight-snoc x y ys =
      weight-append x ys (y ∷ [])
      ∙ ap (mul (weight k x ys)) (unfold weight in Field.mul-one k (ratio k x y))

  -- The sum that the code forms: the points in front, the points from here on, and the value so far.
  unfoldable pub lagrange_sum : (F → F) → List F → List F → F → F
  lagrange_sum f front [] value = value
  lagrange_sum f front (x ∷ xs) value =
      lagrange_sum f (front ++ x ∷ []) xs
        (add value (mul (f x) (mul (weight k x front) (weight k x xs))))

  pub lagrange_sum-eq :
      (f : F → F) (front xs : List F) (value : F)
      → lagrange_sum f front xs value
        ≡ add value (interpolate k (λ z. mul (f z) (weight k z front)) xs)
  unfolding lagrange_sum interpolate
  lagrange_sum-eq f front [] value = sym (Field.add-zero k value)
  lagrange_sum-eq f front (x ∷ xs) value =
      let term : F = mul (f x) (mul (weight k x front) (weight k x xs)) in
      lagrange_sum-eq f (front ++ x ∷ []) xs (add value term)
      ∙ add_assoc value term (interpolate k (λ z. mul (f z) (weight k z (front ++ x ∷ []))) xs)
      ∙ ap (add value) (
          ap₂ add (sym (mul_assoc (f x) (weight k x front) (weight k x xs))) (
            ap (λ (g : F → F). interpolate k g xs)
              (fun_ext (λ z.
                ap (mul (f z)) (weight-snoc z x front)
                ∙ sym (mul_assoc (f z) (weight k z front) (ratio k z x))))))
