-- ===== src/Slip39/Gf256/Laws.antt =====
-- The laws of the field of bytes, through logarithms: a product by `a` is `log a` doublings.
use piso_chain.Base.{
  ℕ, zero, suc, ◌+◌, ◌-◌, ◌%◌, ◌<◌, ◌≡◌, ◌||◌, ◌==◌, arith, refl, sym, ◌∙◌, ap, ap₂, bit_xor,
  if◌then◌else◌,
}
use native.Mathlib.Nat.{add_comm}
use native.Mathlib.Decide.{dec_lt}
use piso_chain.Xor.{xor-lt}
use piso_chain.Slip39.Gf256
use piso_chain.Slip39.Gf256.{exp, log, double}
use piso_chain.Slip39.Gf256.Entries.{exp_period, exp-byte, log-exp}
use piso_chain.Slip39.Gf256.Doubling.{
  power_of, doubles, doubles-add, doubles-zero, exp-add, doubles-lt, doubles-xor, doubles-mod,
}

-- The product of two bytes.
unfoldable pub times : ℕ → ℕ → ℕ
times a b = if a == 0 || b == 0 then 0 else exp (log a + log b)

-- The quotient of two bytes, where the second is not zero.
unfoldable pub over : ℕ → ℕ → ℕ
over a b = if a == 0 then 0 else exp ((log a + 255 - log b) % 255)

times_nonzero : (a b : ℕ) → 0 < a → 0 < b → times a b ≡ exp (log a + log b)
unfolding times
times_nonzero a b p q = ground arith

pub times_comm : (a b : ℕ) → times a b ≡ times b a
unfolding times
times_comm a b = ground (arith, ap exp (add_comm (log a) (log b)))

pub zero-times : (b : ℕ) → times 0 b ≡ 0
unfolding times
zero-times b = refl

pub times-zero : (a : ℕ) → times a 0 ≡ 0
times-zero a = times_comm a 0 ∙ zero-times a

-- A product is a number of doublings of its second factor.
times-doubles : (a b : ℕ) → 0 < a → a < 256 → b < 256 → times a b ≡ doubles (log a) b
times-doubles a zero p h k = times-zero a ∙ sym (doubles-zero (log a))
times-doubles a (suc b) p h k =
    let (la, ea) = power_of a p h in
    let (lb, eb) = power_of (suc b) (omega arith) k in
    times_nonzero a (suc b) p (omega arith)
    ∙ ap exp (add_comm (log a) (log (suc b)))
    ∙ exp-add (log (suc b)) (log a) (omega arith)
    ∙ ap (doubles (log a)) eb

pub times-lt : (a b : ℕ) → a < 256 → b < 256 → times a b < 256
times-lt zero b p q = rw (zero-times b) (omega arith)
times-lt (suc a) b p q =
    rw (times-doubles (suc a) b (omega arith) p q) (doubles-lt (log (suc a)) b q)

times-pos : (a b : ℕ) → 0 < a → 0 < b → a < 256 → b < 256 → 0 < times a b
times-pos a b p q h k =
    let (la, ea) = power_of a p h in
    let (lb, eb) = power_of b q k in
    rw (times_nonzero a b p q) (exp-byte (log a + log b) (omega arith)).1

pub times-xor :
    (a b c : ℕ)
    → a < 256
    → b < 256
    → c < 256
    → times a (bit_xor b c) ≡ bit_xor (times a b) (times a c)
times-xor zero b c p q r = rw (zero-times, zero-times, zero-times) refl
times-xor (suc a) b c p q r =
    times-doubles (suc a) (bit_xor b c) (omega arith) p (xor-lt 8 b c q r)
    ∙ doubles-xor (log (suc a)) b c q r
    ∙ sym (
        ap₂ bit_xor (times-doubles (suc a) b (omega arith) p q)
          (times-doubles (suc a) c (omega arith) p r))

log-times : (a b : ℕ) → 0 < a → 0 < b → a < 256 → b < 256 → log (times a b) ≡ (log a + log b) % 255
log-times a b p q h k =
    let (la, ea) = power_of a p h in
    let (lb, eb) = power_of b q k in
    ap log (times_nonzero a b p q) ∙ log-exp (log a + log b) (omega arith)

pub times_assoc :
    (a b c : ℕ) → a < 256 → b < 256 → c < 256 → times (times a b) c ≡ times a (times b c)
times_assoc zero b c p q r = rw (zero-times, zero-times, zero-times) refl
times_assoc (suc a) zero c p q r =
    ap (λ t. times t c) (times-zero (suc a))
    ∙ zero-times c
    ∙ sym (ap (times (suc a)) (zero-times c) ∙ times-zero (suc a))
times_assoc (suc a) (suc b) c p q r =
    let (la, ea) = power_of (suc a) (omega arith) p in
    let (lb, eb) = power_of (suc b) (omega arith) q in
    times-doubles (times (suc a) (suc b)) c
      (times-pos (suc a) (suc b) (omega arith) (omega arith) p q) (times-lt (suc a) (suc b) p q) r
    ∙ ap (λ t. doubles t c) (log-times (suc a) (suc b) (omega arith) (omega arith) p q)
    ∙ doubles-mod (log (suc a) + log (suc b)) c (omega arith) r
    ∙ doubles-add (log (suc a)) (log (suc b)) c
    ∙ ap (doubles (log (suc a))) (sym (times-doubles (suc b) c (omega arith) q r))
    ∙ sym (times-doubles (suc a) (times (suc b) c) (omega arith) p (times-lt (suc b) c q r))

pub one-times : (b : ℕ) → b < 256 → times 1 b ≡ b
one-times b h =
    times-doubles 1 b (omega arith) (omega arith) h ∙ unfold log doubles Gf256.tables in refl

zero-over : (b : ℕ) → over 0 b ≡ 0
unfolding over
zero-over b = refl

over_nonzero : (a b : ℕ) → 0 < a → over a b ≡ exp ((log a + 255 - log b) % 255)
unfolding over
over_nonzero a b p = ground arith

pub over-lt : (a b : ℕ) → over a b < 256
unfolding over
over-lt a b = ground (arith, exp-byte ((log a + 255 - log b) % 255))

-- Multiplication undoes division.
pub over-times : (a b : ℕ) → a < 256 → 0 < b → b < 256 → times (over a b) b ≡ a
over-times zero b p q h = ap (λ t. times t b) (zero-over b) ∙ zero-times b
over-times (suc a) b p q h =
    let (la, ea) = power_of (suc a) (omega arith) p in
    let (lb, eb) = power_of b q h in
    let r : ℕ = (log (suc a) + 255 - log b) % 255 in
    ap (λ t. times t b) (over_nonzero (suc a) b (omega arith))
    ∙ times_nonzero (exp r) b (exp-byte r (omega arith)).1 q
    ∙ ap (λ t. exp (t + log b)) (log-exp r (omega arith))
    ∙ round_trip (log (suc a)) (log b) la lb
    ∙ ea
  where
    round_trip : (l m : ℕ) → l < 255 → m < 255 → exp ((l + 255 - m) % 255 % 255 + m) ≡ exp l
    round_trip l m p q = elim (dec_lt l m) [
      | yes less ↦ ap exp (omega arith) ∙ exp_period l (omega arith)
      | no more ↦ ap exp (omega arith)
    ]
