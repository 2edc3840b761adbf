-- ===== src/Bits.antt =====
-- Strings of binary digits, as lists of Booleans: `bin(n)[2:]`, `zfill` and `int(bits, 2)`.
use piso_chain.Base.{
  ℕ, zero, suc, ◌+◌, ◌-◌, ◌*◌, ◌/◌, ◌%◌, ◌^◌, ◌<◌, ◌≤◌, ◌≡◌, refl, sym, ap, ap₂, ◌∙◌, Bool, true,
  false, Bool-cases, inl, inr, List, [], ◌∷◌, ◌++◌, length, replicate, ltb, ◌==◌, arith,
  if◌then◌else◌,
}
use native.Mathlib.Nat.{mul_assoc, mul_comm, pow-suc, mul-le-mul_right}

abbrev pub Bits : Type 0
Bits = List Bool

abbrev pub bit : Bool → ℕ
bit false = 0
bit true = 1

bits_onto : ℕ → ℕ → Bits → Bits
bits_onto zero n out = out
bits_onto (suc fuel) n out =
    let more = bits_onto fuel (n / 2) ((n % 2 == 1) ∷ out) in
    if ltb n 2 then (n % 2 == 1) ∷ out else more

-- `bin(n)[2:]`. A number has fewer binary digits than it counts, plus one.
unfoldable pub binary : ℕ → Bits
unfolding bits_onto
binary n = bits_onto (suc n) n []

-- `bits.zfill(width)`
unfoldable pub zfill : ℕ → Bits → Bits
zfill width bits = replicate (width - length bits) false ++ bits

unfoldable pub value_onto : ℕ → Bits → ℕ
value_onto acc [] = acc
value_onto acc (b ∷ bits) = value_onto (acc * 2 + bit b) bits

-- `int(bits, 2)`
unfoldable pub value : Bits → ℕ
value bits = value_onto 0 bits

-- the last `width` binary digits
unfoldable pub fixed : ℕ → ℕ → Bits → Bits
fixed zero n out = out
fixed (suc width) n out = fixed width (n / 2) ((n % 2 == 1) ∷ out)

pub length-fixed : (width n : ℕ) (out : Bits) → length (fixed width n out) ≡ width + length out
unfolding fixed
length-fixed zero n out = omega arith
length-fixed (suc width) n out = length-fixed width (n / 2) ((n % 2 == 1) ∷ out) ∙ omega arith

replicate-onto :
    (k : ℕ) (out : Bits) → replicate k false ++ false ∷ out ≡ false ∷ (replicate k false ++ out)
replicate-onto zero out = refl
replicate-onto (suc k) out = ap (λ t. false ∷ t) (replicate-onto k out)

fixed_zero : (width : ℕ) (out : Bits) → fixed width 0 out ≡ replicate width false ++ out
unfolding fixed
fixed_zero zero out = refl
fixed_zero (suc width) out = fixed_zero width (false ∷ out) ∙ replicate-onto width out

pow_step : (n : ℕ) → 2 ^ suc n ≡ 2 ^ n * 2
pow_step n = pow-suc 2 n

half_lt : (width n : ℕ) → n < 2 ^ suc width → n / 2 < 2 ^ width
half_lt width n h =
    let step : 2 ^ suc width ≡ 2 ^ width * 2 = pow_step width in omega (arith, h, step)

filled_more :
    (width n : ℕ) (b : Bool) (out bits : Bits)
    → 2 ≤ n
    → n < 2 ^ suc width
    → ((w : ℕ)
        → n / 2 < 2 ^ suc w
        → replicate (suc w + length (b ∷ out) - length bits) false ++ bits
          ≡ fixed (suc w) (n / 2) (b ∷ out))
    → replicate (suc width + length out - length bits) false ++ bits ≡ fixed width (n / 2) (b ∷ out)
filled_more zero n b out bits h k f = absurd (omega (arith, h, k))
filled_more (suc w) n b out bits h k f =
    ap (λ t. replicate (t - length bits) false ++ bits) (omega arith) ∙ f w (half_lt (suc w) n k)

-- A number of at most `width` digits, filled up to them.
filled :
    (fuel width n : ℕ) (out : Bits)
    → n < fuel
    → n < 2 ^ suc width
    → replicate (suc width + length out - length (bits_onto fuel n out)) false
        ++ bits_onto fuel n out
      ≡ fixed (suc width) n out
unfolding bits_onto fixed
filled zero width n out h k = absurd (omega arith)
filled (suc fuel) width n out h k = elim (Bool-cases (ltb n 2)) [
  | inl last ↦
      let half : n / 2 ≡ 0 = ground (arith, last) in
      let b : Bool = n % 2 == 1 in
      let room : suc width + length out - suc (length out) ≡ width = omega arith in
      rw (last, half, room) (sym (fixed_zero width (b ∷ out)))
  | inr more ↦
      let b : Bool = n % 2 == 1 in
      let large : 2 ≤ n = ground (arith, more) in
      rw more (
        filled_more width n b out (bits_onto fuel (n / 2) (b ∷ out)) large k
          (λ w small. filled fuel w (n / 2) (b ∷ out) (omega (arith, large, h)) small))
]

-- A number of at most `width` digits is filled up to exactly them.
pub zfill-binary :
    (width n : ℕ) → n < 2 ^ suc width → zfill (suc width) (binary n) ≡ fixed (suc width) n []
unfolding zfill binary
zfill-binary width n h =
    ap (λ t. replicate (t - length (bits_onto (suc n) n [])) false ++ bits_onto (suc n) n [])
      (omega arith)
    ∙ filled (suc n) width n [] (omega arith) h

odd_bit : (n : ℕ) → bit (n % 2 == 1) ≡ n % 2
odd_bit n = ground arith

value_onto-fixed :
    (width n acc : ℕ) (out : Bits)
    → n < 2 ^ width
    → value_onto acc (fixed width n out) ≡ value_onto (acc * 2 ^ width + n) out
unfolding value_onto fixed
value_onto-fixed zero n acc out h = ap (λ t. value_onto t out) (omega (arith, h))
value_onto-fixed (suc width) n acc out h =
    value_onto-fixed width (n / 2) acc ((n % 2 == 1) ∷ out) (half_lt width n h)
    ∙ ap (λ t. value_onto t out)
        (let step : 2 ^ suc width ≡ 2 ^ width * 2 = pow_step width in
          let scaled : acc * 2 ^ suc width ≡ acc * 2 ^ width * 2 =
            ap (λ t. acc * t) step ∙ sym (mul_assoc acc (2 ^ width) 2) in
          omega (arith, scaled, odd_bit n))

pub value-fixed : (width n : ℕ) → n < 2 ^ width → value (fixed width n []) ≡ n
unfolding value
value-fixed width n h = value_onto-fixed width n 0 [] h ∙ unfold value_onto in omega arith

value_onto-lt : (acc : ℕ) (bits : Bits) → value_onto acc bits < (acc + 1) * 2 ^ length bits
unfolding value_onto
value_onto-lt acc [] = omega arith
value_onto-lt acc (b ∷ bits) =
    let r : ℕ = 2 ^ length bits in
    let step : 2 ^ suc (length bits) ≡ r * 2 = pow_step (length bits) in
    let digit : bit b ≤ 1 = ground arith in
    let wider : (acc * 2 + bit b + 1) * r ≤ (acc + 1) * 2 * r =
      mul-le-mul_right r (omega (arith, digit)) in
    let scaled : (acc + 1) * 2 * r ≡ (acc + 1) * 2 ^ suc (length bits) =
      mul_assoc (acc + 1) 2 r ∙ ap (λ t. (acc + 1) * t) (mul_comm 2 r ∙ sym step) in
    omega (arith, value_onto-lt (acc * 2 + bit b) bits, wider, scaled)

pub value-lt : (bits : Bits) → value bits < 2 ^ length bits
unfolding value
value-lt bits = omega (arith, value_onto-lt 0 bits)

-- Strings of the same length with the same value are equal.
value_onto-injective :
    (a b : ℕ) (xs ys : Bits)
    → length xs ≡ length ys
    → value_onto a xs ≡ value_onto b ys
    → (a ≡ b) × (xs ≡ ys)
unfolding value_onto
value_onto-injective a b [] [] h e = (e, refl)
value_onto-injective a b [] (y ∷ ys) h e = absurd (omega (arith, h))
value_onto-injective a b (x ∷ xs) [] h e = absurd (omega (arith, h))
value_onto-injective a b (x ∷ xs) (y ∷ ys) h e =
    let (acc, rest) =
      value_onto-injective (a * 2 + bit x) (b * 2 + bit y) xs ys (omega (arith, h)) e in
    (halves a b x y acc, ap₂ (λ t ts. t ∷ ts) (digits a b x y acc) rest)
  where
    halves : (a b : ℕ) (x y : Bool) → a * 2 + bit x ≡ b * 2 + bit y → a ≡ b
    halves a b true true p = omega (arith, p)
    halves a b true false p = omega (arith, p)
    halves a b false true p = omega (arith, p)
    halves a b false false p = omega (arith, p)

    digits : (a b : ℕ) (x y : Bool) → a * 2 + bit x ≡ b * 2 + bit y → x ≡ y
    digits a b true true p = refl
    digits a b true false p = absurd (omega (arith, p))
    digits a b false true p = absurd (omega (arith, p))
    digits a b false false p = refl

value-injective : (xs ys : Bits) → length xs ≡ length ys → value xs ≡ value ys → xs ≡ ys
unfolding value
value-injective xs ys h e = (value_onto-injective 0 0 xs ys h e).1

-- The value of a string, written in as many digits, is the string.
pub zfill-binary-value :
    (width : ℕ) (bits : Bits)
    → length bits ≡ suc width
    → zfill (suc width) (binary (value bits)) ≡ bits
zfill-binary-value width bits h =
    let small : value bits < 2 ^ suc width = rw⁻¹ h (value-lt bits) in
    let same : fixed (suc width) (value bits) [] ≡ bits =
      value-injective (fixed (suc width) (value bits) []) bits
        (length-fixed (suc width) (value bits) [] ∙ omega (arith, h))
        (value-fixed (suc width) (value bits) small) in
    zfill-binary width (value bits) small ∙ same
