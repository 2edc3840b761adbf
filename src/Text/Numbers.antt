-- ===== src/Text/Numbers.antt =====
-- Numbers in text: `format(n, 'x')` and `str(n)`, and Python's `int(text, base)` on ASCII text.
use piso_chain.Base.{
  ℕ, zero, suc, ◌+◌, ◌-◌, ◌*◌, ◌/◌, ◌%◌, ◌<◌, ◌≤◌, ◌≡◌, refl, ap, ◌∙◌, Bool, true, false, ◌&&◌,
  ◌||◌, Option, none, some, [], ◌∷◌, ◌≢◌, All, All-map, arith, Bool-cases, ltb→lt, inl, inr, ltb,
  leb, ◌==◌, if◌then◌else◌, Text,
}
use mathlib.Core.Option
use native.Mathlib.Nat.{mod-lt, div-add-mod', div-lt_self}
use piso_chain.Int.{ℤ, pos, negsuc, ◌-ℤ◌}
use piso_chain.Text.{strip, is_space}
use piso_chain.Text.Parts.{NoSpaces, strip-eq}

-- A digit of a base up to sixteen, in lower case.
unfoldable pub digit_char : ℕ → ℕ
digit_char d = if ltb d 10 then d + 48 else d + 87

abbrev below : ℕ → ℕ → Option ℕ
below base d = if ltb d base then some d else none

-- The value of a digit in either case, if it is one of the base.
unfoldable pub digit_value : ℕ → ℕ → Option ℕ
digit_value base c =
    if leb 48 c && leb c 57
    then below base (c - 48)
    else if leb 97 c && leb c 122
    then below base (c - 87)
    else if leb 65 c && leb c 90
    then below base (c - 55)
    else none

digits_onto : ℕ → ℕ → ℕ → Text → Text
digits_onto zero base n out = out
digits_onto (suc fuel) base n out =
    let more = digits_onto fuel base (n / base) (digit_char (n % base) ∷ out) in
    if ltb n base then digit_char n ∷ out else more

-- The digits of a number, most significant first. A number has fewer digits than it counts, plus one.
unfoldable pub to_digits : ℕ → ℕ → Text
unfolding digits_onto
to_digits base n = digits_onto (suc n) base n []

-- `str(n)`
abbrev pub int_text : ℤ → Text
int_text (pos n) = to_digits 10 n
int_text (negsuc n) = b'-' ∷ to_digits 10 (suc n)

-- The digits of `int`, one underscore allowed between two of them; `after_digit` says whether a digit
-- stands just before.
unfoldable pub scan : ℕ → ℕ → Bool → Text → Option ℕ
scan base acc after_digit [] = if after_digit then some acc else none
scan base acc after_digit (c ∷ t) = elim (c == b'_' && after_digit) [
  | true ↦ scan base acc false t
  | false ↦ elim (digit_value base c) [ none ↦ none | some d ↦ scan base (acc * base + d) true t ]
]

abbrev skip_underscore : Text → Text
skip_underscore [] = []
skip_underscore (c ∷ t) = if c == b'_' then t else c ∷ t

-- `0x` before the digits, which base sixteen allows, with one underscore behind it
unfoldable pub scan_prefixed : ℕ → Text → Option ℕ
scan_prefixed base (zero_char ∷ x ∷ t) =
    if base == 16 && zero_char == b'0' && (x == b'x' || x == b'X')
    then scan base 0 false (skip_underscore t)
    else scan base 0 false (zero_char ∷ x ∷ t)
scan_prefixed base t = scan base 0 false t

unfoldable pub scan_signed : ℕ → Text → Option ℤ
unfolding scan_prefixed
scan_signed base [] = none
scan_signed base (c ∷ t) =
    if c == b'-'
    then Option.map (λ n. pos 0 -ℤ pos n) (scan_prefixed base t)
    else if c == b'+'
    then Option.map pos (scan_prefixed base t)
    else Option.map pos (scan_prefixed base (c ∷ t))

-- `int(text, base)`, for base ten or sixteen; `none` is a ValueError
unfoldable pub parse_int : ℕ → Text → Option ℤ
unfolding scan_signed
parse_int base t = scan_signed base (strip t)

pub digit_value-char :
    (base d : ℕ) → d < base → base ≤ 16 → digit_value base (digit_char d) ≡ some d
unfolding digit_value digit_char
digit_value-char base d h k = ground arith

digit_char-ne : (base d : ℕ) → d < base → base ≤ 16 → (digit_char d == b'_') ≡ false
unfolding digit_char
digit_char-ne base d h k = ground arith

quotient_lt : (base n fuel : ℕ) → ltb n base ≡ false → n < suc fuel → 2 ≤ base → n / base < fuel
quotient_lt base n fuel more h b2 =
    let large : base ≤ n = ground arith in
    let smaller : n / base < n = div-lt_self (omega arith) (omega arith) in omega arith

pub scan-digit :
    (base acc d : ℕ) (after_digit : Bool) (t : Text)
    → d < base
    → base ≤ 16
    → scan base acc after_digit (digit_char d ∷ t) ≡ scan base (acc * base + d) true t
unfolding scan
scan-digit base acc d after_digit t h k =
    ground (arith, digit_char-ne base d h k, digit_value-char base d h k)

-- Scanning the digits of a number finds it.
scan-digits_onto :
    (fuel base n : ℕ) (out : Text)
    → n < fuel
    → 2 ≤ base
    → base ≤ 16
    → scan base 0 false (digits_onto fuel base n out) ≡ scan base n true out
unfolding digits_onto
scan-digits_onto zero base n out h b2 b16 = absurd (omega arith)
scan-digits_onto (suc fuel) base n out h b2 b16 = elim (Bool-cases (ltb n base)) [
  | inl last ↦ rw last (
      scan-digit base 0 n false out (ltb→lt n base last) b16
      ∙ ap (λ t. scan base t true out) (omega arith))
  | inr more ↦ rw more (
      scan-digits_onto fuel base (n / base) (digit_char (n % base) ∷ out)
        (quotient_lt base n fuel more h b2) b2 b16
      ∙ scan-digit base (n / base) (n % base) true out (mod-lt n (omega arith)) b16
      ∙ ap (λ t. scan base t true out) (div-add-mod' n base))
]

-- A digit as `format` writes it.
abbrev pub is_hex_digit : ℕ → Bool
is_hex_digit c = (leb 48 c && leb c 57) || (leb 97 c && leb c 102)

pub digit_char-is_hex : (d : ℕ) → d < 16 → is_hex_digit (digit_char d) ≡ true
unfolding digit_char
digit_char-is_hex d h = ground arith

abbrev pub Hex : Text → Type 0
Hex = All (λ c. is_hex_digit c ≡ true)

digits_onto-Hex :
    (fuel base n : ℕ) (out : Text)
    → 2 ≤ base
    → base ≤ 16
    → Hex out
    → Hex (digits_onto fuel base n out)
unfolding digits_onto
digits_onto-Hex zero base n out b2 b16 h = h
digits_onto-Hex (suc fuel) base n out b2 b16 h = elim (Bool-cases (ltb n base)) [
  | inl last ↦ rw last (digit_char-is_hex n (omega (arith, ltb→lt n base last)), h)
  | inr more ↦ rw more (
      digits_onto-Hex fuel base (n / base) (digit_char (n % base) ∷ out) b2 b16 (
        digit_char-is_hex (n % base)
            (let small : n % base < base = mod-lt n (omega arith) in omega arith),
        h,
      ))
]

pub to_digits-Hex : (base n : ℕ) → 2 ≤ base → base ≤ 16 → Hex (to_digits base n)
unfolding to_digits
to_digits-Hex base n b2 b16 = digits_onto-Hex (suc n) base n [] b2 b16 tt

pub Hex-NoSpaces : (t : Text) → Hex t → NoSpaces t
Hex-NoSpaces t h =
    All-map (λ c. is_hex_digit c ≡ true) (λ c. is_space c ≡ false) t (λ c e. ground arith) h

pub scan_nil : (base n : ℕ) → scan base 0 false [] ≢ some n
unfolding scan
scan_nil base n e = cc

-- Without a sign and a prefix `int` scans the digits.
scan_signed-Hex :
    (base : ℕ) (t : Text) (n : ℕ)
    → Hex t
    → scan base 0 false t ≡ some n
    → scan_signed base t ≡ some (pos n)
unfolding scan_signed
scan_signed-Hex base [] n h e = absurd (scan_nil base n e)
scan_signed-Hex base (c ∷ []) n h e = ground (arith, e)
scan_signed-Hex base (c ∷ x ∷ t) n h e = ground (arith, e)

pub parse_int-Hex :
    (base : ℕ) (t : Text) (n : ℕ)
    → Hex t
    → scan base 0 false t ≡ some n
    → parse_int base t ≡ some (pos n)
unfolding parse_int
parse_int-Hex base t n h e = rw (strip-eq t (Hex-NoSpaces t h)) (scan_signed-Hex base t n h e)

pub scan-to_digits :
    (base n : ℕ) → 2 ≤ base → base ≤ 16 → scan base 0 false (to_digits base n) ≡ some n
unfolding to_digits
scan-to_digits base n b2 b16 =
    scan-digits_onto (suc n) base n [] (omega arith) b2 b16 ∙ unfold scan in refl

-- `int` reads back what `format` writes, in every base from two to sixteen.
pub parse_int-to_digits :
    (base n : ℕ) → 2 ≤ base → base ≤ 16 → parse_int base (to_digits base n) ≡ some (pos n)
parse_int-to_digits base n b2 b16 =
    parse_int-Hex base (to_digits base n) n (to_digits-Hex base n b2 b16)
      (scan-to_digits base n b2 b16)
