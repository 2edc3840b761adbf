-- ===== src/Slip39/Shamir/Sum.antt =====
-- One byte of `combine` is an interpolation at zero over the field of bytes.
use piso_chain.Base.{
  ℕ, suc, ◌+◌, ◌<◌, ◌≤◌, ◌≡◌, ◌≢◌, refl, sym, ap, ◌∙◌, ◌⊎◌, inl, inr, List, [], ◌∷◌, ◌++◌, map,
  length, All, All-map, arith, bit_xor, ◌==◌, false, All-append, length-append, fun_ext,
}
use mathlib.Core.List.{append-nil, append_assoc, map-append}
use piso_chain.Slip39.Errors.{Result, ok, ◌>>=◌}
use piso_chain.Slip39.Field
use piso_chain.Slip39.Field.{Field}
use piso_chain.Slip39.Lagrange.{weight, interpolate, Distinct}
use piso_chain.Slip39.Weights.{
  product, differences, fraction-weight, differences_ne_zero, lagrange_sum, lagrange_sum-eq,
}
use piso_chain.Slip39.Gf256.{add, mul}
use piso_chain.Slip39.Gf256.Operations.{mul-eq, div-eq}
use piso_chain.Slip39.Gf256.Bytes.{Byte, bytes_field, zero_byte, byte_pos}
use piso_chain.Slip39.Shamir.{Share, Fraction, lagrange_fraction, multiply_by, sum_terms, byte_at}

-- On values of the field multiplication never raises.
pub mul-eq_bytes : (a b : Byte) → mul a.0 b.0 ≡ ok (bytes_field.mul a b).0
mul-eq_bytes a b = mul-eq a.0 b.0 a.1 b.1

module _ (mk : Byte → Share) (indexed : (x : Byte) → (mk x).index ≡ x.0) where
  multiply_by_other :
      (x y num den : Byte) (i j : ℕ)
      → (i == j) ≡ false
      → multiply_by x.0 i j (mk y).index (num.0, den.0)
        ≡ ok ((bytes_field.mul num y).0, (bytes_field.mul den (bytes_field.add x y)).0)
  unfolding multiply_by add
  multiply_by_other x y num den i j ne =
      rw (ne, indexed y, mul-eq_bytes num y, mul-eq_bytes den (bytes_field.add x y)) refl

  -- Over shares that are all at other places the two products are complete.
  fraction_others :
      (x num den : Byte) (i j : ℕ) (ys : List Byte) (rest : List Share)
      → (i < j) ⊎ (j + length ys ≤ i)
      → lagrange_fraction x.0 i j (map mk ys ++ rest) (num.0, den.0)
        ≡ lagrange_fraction x.0 i
            (j + length ys)
            rest
            ((product bytes_field num ys).0, (differences bytes_field x den ys).0)
  unfolding lagrange_fraction product differences
  fraction_others x num den i j [] rest h =
      ap (λ t. lagrange_fraction x.0 i t rest (num.0, den.0)) (omega arith)
  fraction_others x num den i j (y ∷ ys) rest h =
      ap
        (λ (r : Result Fraction).
          r >>= λ acc. lagrange_fraction x.0 i (suc j) (map mk ys ++ rest) acc)
        (multiply_by_other x y num den i j (ground arith))
      ∙ fraction_others x (bytes_field.mul num y) (bytes_field.mul den (bytes_field.add x y)) i
          (suc j) ys rest (ground arith)
      ∙ ap
          (λ t. lagrange_fraction x.0 i t rest (
            (product bytes_field (bytes_field.mul num y) ys).0,
            (differences bytes_field x (bytes_field.mul den (bytes_field.add x y)) ys).0,
          ))
          (omega arith)

  -- The whole fraction of the share of `x`, which stands between `front` and `back`.
  fraction_of :
      (x : Byte) (front back : List Byte)
      → lagrange_fraction x.0 (length front) 0 (map mk front ++ mk x ∷ map mk back) (1, 1)
        ≡ ok (
          (product bytes_field (product bytes_field bytes_field.one front) back).0,
          (differences bytes_field x (differences bytes_field x bytes_field.one front) back).0,
        )
  unfolding lagrange_fraction multiply_by
  fraction_of x front back =
      let one : Byte = bytes_field.one in
      let num : Byte = product bytes_field one front in
      let den : Byte = differences bytes_field x one front in
      fraction_others x one one (length front) 0 front (mk x ∷ map mk back) (inr (omega arith))
      ∙ ap
          (λ (r : Result Fraction). r >>= λ acc.
            lagrange_fraction x.0 (length front) (suc (0 + length front)) (map mk back) acc)
          (skip_self x (length front) (num.0, den.0))
      ∙ ap (λ t. lagrange_fraction x.0 (length front) (suc (0 + length front)) t (num.0, den.0))
          (sym (append-nil (map mk back)))
      ∙ fraction_others x num den (length front) (suc (0 + length front)) back []
          (inl (omega arith))
    where
      skip_self :
          (x : Byte) (n : ℕ) (acc : Fraction) → multiply_by x.0 n (0 + n) (mk x).index acc ≡ ok acc
      skip_self x n acc = ground arith

  -- Each point of `xs` differs from those in front of it and behind it.
  abbrev Apart : List Byte → List Byte → Type 0
  Apart front [] = Unit
  Apart front (x ∷ xs) = All (λ y. x ≢ y) front × All (λ y. x ≢ y) xs × Apart (front ++ x ∷ []) xs

  Apart-Distinct :
      (front xs : List Byte)
      → Distinct bytes_field xs
      → All (λ f. All (λ x. x ≢ f) xs) front
      → Apart front xs
  Apart-Distinct front [] d h = tt
  Apart-Distinct front (x ∷ xs) d h = (
    All-map (λ f. All (λ z. z ≢ f) (x ∷ xs)) (λ f. x ≢ f) front (λ f p. p.0) h,
    All-map (λ y. y ≢ x) (λ y. x ≢ y) xs (λ y ne e. ne (sym e)) d.0,
    Apart-Distinct (front ++ x ∷ []) xs d.1 (
        All-append (λ f. All (λ z. z ≢ f) xs) front (x ∷ [])
          (All-map (λ f. All (λ z. z ≢ f) (x ∷ xs)) (λ f. All (λ z. z ≢ f) xs) front (λ f p. p.1) h)
          (d.0, tt)),
  )

  module _ (idx : ℕ) (φ : Byte → Byte)
      (stored : (x : Byte) → byte_at idx (mk x).bytes ≡ ok (φ x).0) where
    one_ne_zero : bytes_field.one ≢ zero_byte
    one_ne_zero e = absurd (omega (arith, ap (λ (b : Byte). b.0) e))

    term_of :
        (x : Byte) (front back : List Byte)
        → All (λ y. x ≢ y) front
        → All (λ y. x ≢ y) back
        → bytes_field.div
            (product bytes_field (product bytes_field bytes_field.one front) back)
            (differences bytes_field x (differences bytes_field x bytes_field.one front) back)
          ≡ bytes_field.mul (weight bytes_field x front) (weight bytes_field x back)
    term_of x front back p q =
        let k : Field = bytes_field in
        fraction-weight k x (product k k.one front) (differences k x k.one front) back
          (differences_ne_zero k x k.one front one_ne_zero p) q
        ∙ ap (λ t. k.mul t (weight k x back))
            (fraction-weight k x k.one k.one front one_ne_zero p
              ∙ ap (λ t. k.mul t (weight k x front))
                  (sym (Field.mul-one k (k.div k.one k.one)) ∙ k.div-mul k.one k.one one_ne_zero)
              ∙ k.one-mul (weight k x front))

    pub sum_terms-eq :
        (subset : List Share) (front xs : List Byte) (value : Byte)
        → subset ≡ map mk front ++ map mk xs
        → Apart front xs
        → sum_terms subset idx (length front) (map mk xs) value.0
          ≡ ok (lagrange_sum bytes_field φ front xs value).0
    unfolding sum_terms lagrange_sum add
    sum_terms-eq subset front [] value e h = refl
    sum_terms-eq subset front (x ∷ xs) value e h =
        let k : Field = bytes_field in
        let num : Byte = product k (product k k.one front) xs in
        let den : Byte = differences k x (differences k x k.one front) xs in
        let ne : den ≢ zero_byte =
          differences_ne_zero k x (differences k x k.one front) xs
            (differences_ne_zero k x k.one front one_ne_zero h.0) h.1 in
        let front' : List Byte = front ++ x ∷ [] in
        let value' : Byte = k.add value (k.mul (φ x) (k.mul (weight k x front) (weight k x xs))) in
        rw (stored x, indexed x)
          (rw e (
            rw (fraction_of x front xs) (
              rw
                (
                  div-eq num.0 den.0 num.1 den.1 (byte_pos den ne),
                  mul-eq_bytes (φ x) (k.div num den),
                )
                (ap
                    (λ t.
                      sum_terms subset idx (suc (length front)) (map mk xs)
                        (bit_xor value.0 (k.mul (φ x) t).0))
                    (term_of x front xs h.0 h.1)
                  ∙ ap (λ n. sum_terms subset idx n (map mk xs) value'.0)
                      (omega (arith, length-append front (x ∷ [])))
                  ∙ sum_terms-eq subset front' xs value'
                      (e
                        ∙ sym (append_assoc (map mk front) (mk x ∷ []) (map mk xs))
                        ∙ ap (λ t. t ++ map mk xs) (sym (map-append mk front (x ∷ []))))
                      h.2))))

    -- The loop over all the shares of distinct points finds the interpolated value at zero.
    pub sum_terms-interpolate :
        (xs : List Byte)
        → Distinct bytes_field xs
        → sum_terms (map mk xs) idx 0 (map mk xs) 0 ≡ ok (interpolate bytes_field φ xs).0
    sum_terms-interpolate xs d =
        let k : Field = bytes_field in
        sum_terms-eq (map mk xs) [] xs zero_byte refl (Apart-Distinct [] xs d tt)
        ∙ ap (λ (b : Byte). ok b.0)
            (lagrange_sum-eq k φ [] xs zero_byte
              ∙ k.zero-add (interpolate k (λ z. k.mul (φ z) (weight k z [])) xs)
              ∙ ap (λ (f : Byte → Byte). interpolate k f xs)
                  (fun_ext (λ z. unfold weight in Field.mul-one k (φ z))))
