-- ===== src/Slip39/Lagrange.antt =====
-- Lagrange interpolation at zero, over an abstract field in which every element is its own negative.
use piso_chain.Base.{◌≡◌, ◌≢◌, refl, sym, ap, ◌∙◌, fun_ext, List, [], ◌∷◌, All, All-map}
use mathlib.Core.Path.{ap₂}
use piso_chain.Slip39.Field
use piso_chain.Slip39.Field.{Field}

module _ (k : Field) where
  open k use {
    F, zero, one, add, mul, div, add_comm, add_assoc, zero-add, add_self, mul_comm, mul_assoc,
    one-mul, zero-mul, mul-add, div-mul,
  }

  -- `y / (x + y)`, the share of a point `y` in the weight of the point `x`
  unfoldable pub ratio : F → F → F
  ratio x y = div y (add x y)

  unfoldable pub weight : F → List F → F
  weight x [] = one
  weight x (y ∷ ys) = mul (ratio x y) (weight x ys)

  -- The sum over the points of `φ` times the weight that the points behind give it; the ratios of the
  -- points in front have been multiplied into `φ`.
  unfoldable pub interpolate : (F → F) → List F → F
  interpolate φ [] = zero
  interpolate φ (x ∷ xs) =
      add (mul (φ x) (weight x xs)) (interpolate (λ z. mul (φ z) (ratio z x)) xs)

  abbrev pub Distinct : List F → Type 0
  Distinct [] = Unit
  Distinct (x ∷ xs) = All (λ y. y ≢ x) xs × Distinct xs

  interpolate_cong :
      (φ ψ : F → F) (xs : List F) → All (λ x. φ x ≡ ψ x) xs → interpolate φ xs ≡ interpolate ψ xs
  unfolding interpolate
  interpolate_cong φ ψ [] h = refl
  interpolate_cong φ ψ (x ∷ xs) h =
      ap₂ (λ s t. add (mul s (weight x xs)) t) h.0
        (interpolate_cong (λ z. mul (φ z) (ratio z x)) (λ z. mul (ψ z) (ratio z x)) xs
          (All-map (λ z. φ z ≡ ψ z) (λ z. mul (φ z) (ratio z x) ≡ mul (ψ z) (ratio z x)) xs
            (λ z e. ap (λ t. mul t (ratio z x)) e) h.1))

  pub interpolate-add :
      (φ ψ : F → F) (xs : List F)
      → interpolate (λ z. add (φ z) (ψ z)) xs ≡ add (interpolate φ xs) (interpolate ψ xs)
  unfolding interpolate
  interpolate-add φ ψ [] = sym (zero-add zero)
  interpolate-add φ ψ (x ∷ xs) =
      let φ' : F → F = λ z. mul (φ z) (ratio z x) in
      let ψ' : F → F = λ z. mul (ψ z) (ratio z x) in
      ap₂ add (Field.add-mul k (φ x) (ψ x) (weight x xs)) (
        ap (λ (f : F → F). interpolate f xs)
          (fun_ext (λ z. Field.add-mul k (φ z) (ψ z) (ratio z x)))
        ∙ interpolate-add φ' ψ' xs)
      ∙ Field.add_swap k (mul (φ x) (weight x xs)) (mul (ψ x) (weight x xs)) (interpolate φ' xs)
          (interpolate ψ' xs)

  pub interpolate-mul :
      (c : F) (φ : F → F) (xs : List F)
      → interpolate (λ z. mul c (φ z)) xs ≡ mul c (interpolate φ xs)
  unfolding interpolate
  interpolate-mul c φ [] = sym (Field.mul-zero k c)
  interpolate-mul c φ (x ∷ xs) =
      let φ' : F → F = λ z. mul (φ z) (ratio z x) in
      ap₂ add (mul_assoc c (φ x) (weight x xs)) (
        ap (λ (f : F → F). interpolate f xs) (fun_ext (λ z. mul_assoc c (φ z) (ratio z x)))
        ∙ interpolate-mul c φ' xs)
      ∙ sym (mul-add c (mul (φ x) (weight x xs)) (interpolate φ' xs))

  -- (x + a) a / (x + a) = a
  add-mul-ratio : (x a : F) → x ≢ a → mul (add x a) (ratio x a) ≡ a
  unfolding ratio
  add-mul-ratio x a ne =
      mul_comm (add x a) (div a (add x a)) ∙ div-mul a (add x a) (Field.add_ne_zero k x a ne)

  cancel_ratio : (x a g : F) → x ≢ a → mul (mul (add x a) g) (ratio x a) ≡ mul a g
  cancel_ratio x a g ne =
      mul_assoc (add x a) g (ratio x a)
      ∙ Field.mul_left_comm k (add x a) g (ratio x a)
      ∙ ap (mul g) (add-mul-ratio x a ne)
      ∙ mul_comm g a

  -- A factor that vanishes at a point leaves that point out.
  pub interpolate_drop_first :
      (g : F → F) (a : F) (xs : List F)
      → All (λ y. y ≢ a) xs
      → interpolate (λ z. mul (add z a) (g z)) (a ∷ xs) ≡ mul a (interpolate g xs)
  unfolding interpolate
  interpolate_drop_first g a xs h =
      ap₂ add
        (ap (λ t. mul (mul t (g a)) (weight a xs)) (add_self a)
          ∙ ap (λ t. mul t (weight a xs)) (zero-mul (g a))
          ∙ zero-mul (weight a xs))
        (interpolate_cong (λ z. mul (mul (add z a) (g z)) (ratio z a)) (λ z. mul a (g z)) xs
            (All-map (λ y. y ≢ a) (λ z. mul (mul (add z a) (g z)) (ratio z a) ≡ mul a (g z)) xs
              (λ z ne. cancel_ratio z a (g z) ne) h)
          ∙ interpolate-mul a g xs)
      ∙ zero-add (mul a (interpolate g xs))

  interpolate_drop_second :
      (g : F → F) (a b : F) (xs : List F)
      → a ≢ b
      → All (λ y. y ≢ b) xs
      → interpolate (λ z. mul (add z b) (g z)) (a ∷ b ∷ xs) ≡ mul b (interpolate g (a ∷ xs))
  unfolding interpolate weight
  interpolate_drop_second g a b xs ne h =
      let g' : F → F = λ z. mul (g z) (ratio z a) in
      ap₂ add
        (sym (mul_assoc (mul (add a b) (g a)) (ratio a b) (weight a xs))
          ∙ ap (λ t. mul t (weight a xs)) (cancel_ratio a b (g a) ne)
          ∙ mul_assoc b (g a) (weight a xs))
        (ap (λ (f : F → F). interpolate f (b ∷ xs))
            (fun_ext (λ z. mul_assoc (add z b) (g z) (ratio z a)))
          ∙ interpolate_drop_first g' b xs h)
      ∙ sym (mul-add b (mul (g a) (weight a xs)) (interpolate g' xs))

  -- (z + a) + (z + b) = a + b
  add_cross : (z a b : F) → add (add z a) (add z b) ≡ add a b
  add_cross z a b = Field.add_swap k z a z b ∙ rw (add_self z) (zero-add (add a b))

  -- The weights add up to one.
  pub interpolate-one :
      (a : F) (xs : List F) → Distinct (a ∷ xs) → interpolate (λ z. one) (a ∷ xs) ≡ one
  unfolding interpolate weight
  interpolate-one a [] h = ap (λ t. add t zero) (one-mul one) ∙ Field.add-zero k one
  interpolate-one a (b ∷ xs) h =
      let total : F = interpolate (λ z. one) (a ∷ b ∷ xs) in
      let ne : a ≢ b = λ e. h.0.0 (sym e) in
      let split : mul (add a b) total ≡ add (mul a one) (mul b one) =
        sym (interpolate-mul (add a b) (λ z. one) (a ∷ b ∷ xs))
        ∙ ap (λ (f : F → F). interpolate f (a ∷ b ∷ xs))
            (fun_ext (λ z.
              ap (λ t. mul t one) (sym (add_cross z a b))
              ∙ Field.add-mul k (add z a) (add z b) one))
        ∙ interpolate-add (λ z. mul (add z a) one) (λ z. mul (add z b) one) (a ∷ b ∷ xs)
        ∙ ap₂ add
            (interpolate_drop_first (λ z. one) a (b ∷ xs) h.0
              ∙ ap (mul a) (interpolate-one b xs h.1))
            (interpolate_drop_second (λ z. one) a b xs ne h.1.0
              ∙ ap (mul b) (interpolate-one a xs (h.0.1, h.1.1))) in
      Field.mul_cancel k total one (add a b) (Field.add_ne_zero k a b ne)
        (mul_comm total (add a b) ∙ split ∙ sym (Field.add-mul k a b one) ∙ mul_comm (add a b) one)
