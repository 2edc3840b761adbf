-- ===== src/Slip39/Gf256/Doubling.antt =====
-- Repeated doubling: what the powers in the tables do to a byte.
use piso_chain.Base.{
  ℕ, zero, suc, ◌+◌, ◌%◌, ◌<◌, ◌≡◌, Bool, true, ◌==◌, ==_iff, arith, refl, sym, ◌∙◌, ap, all_below,
  all_below_sound, bit_xor, ltb, ltb→lt,
}
use native.Mathlib.Decide.{dec_lt}
use piso_chain.Slip39.Gf256.{exp, log, double}
use piso_chain.Slip39.Gf256.Entries.{exp-suc, exp_period, exp-log}

pub power_of : (a : ℕ) → 0 < a → a < 256 → (log a < 255) × (exp (log a) ≡ a)
power_of zero p h = absurd (omega arith)
power_of (suc a) p h = let e : suc a ≡ a + 1 = omega arith in rw e (exp-log a (omega arith))

unfoldable pub doubles : ℕ → ℕ → ℕ
doubles zero b = b
doubles (suc k) b = double (doubles k b)

pub doubles-add : (k m b : ℕ) → doubles (k + m) b ≡ doubles k (doubles m b)
unfolding doubles
doubles-add zero m b = ap (λ t. doubles t b) (omega arith)
doubles-add (suc k) m b =
    let e : suc k + m ≡ suc (k + m) = omega arith in rw e (ap double (doubles-add k m b))

pub doubles-zero : (k : ℕ) → doubles k 0 ≡ 0
unfolding doubles double
doubles-zero zero = refl
doubles-zero (suc k) = ap double (doubles-zero k)

pub exp-add : (i k : ℕ) → i + k < 512 → exp (i + k) ≡ doubles k (exp i)
unfolding doubles
exp-add i zero h = ap exp (omega arith)
exp-add i (suc k) h =
    let e : i + suc k ≡ i + k + 1 = omega arith in
    rw e (exp-suc (i + k) (omega arith) ∙ ap double (exp-add i k (omega arith)))

linear_test : ℕ → ℕ → Bool
linear_test a b = double (bit_xor a b) == bit_xor (double a) (double b)

linear_table : all_below 256 (λ a. all_below 256 (linear_test a)) ≡ true
unfolding all_below linear_test double
linear_table = refl

double-xor : (a b : ℕ) → a < 256 → b < 256 → double (bit_xor a b) ≡ bit_xor (double a) (double b)
unfolding linear_test
double-xor a b ha hb = (==_iff (double (bit_xor a b)) (bit_xor (double a) (double b))).0 (
    all_below_sound 256 (linear_test a) b
      (all_below_sound 256 (λ x. all_below 256 (linear_test x)) a linear_table ha) hb)

double_byte : ℕ → Bool
double_byte a = ltb (double a) 256

double_table : all_below 256 double_byte ≡ true
unfolding all_below double_byte double
double_table = refl

double-lt : (a : ℕ) → a < 256 → double a < 256
unfolding double_byte
double-lt a h = ltb→lt (double a) 256 (all_below_sound 256 double_byte a double_table h)

pub doubles-lt : (k b : ℕ) → b < 256 → doubles k b < 256
unfolding doubles
doubles-lt zero b h = h
doubles-lt (suc k) b h = double-lt (doubles k b) (doubles-lt k b h)

pub doubles-xor :
    (k a b : ℕ) → a < 256 → b < 256 → doubles k (bit_xor a b) ≡ bit_xor (doubles k a) (doubles k b)
unfolding doubles
doubles-xor zero a b p q = refl
doubles-xor (suc k) a b p q =
    ap double (doubles-xor k a b p q)
    ∙ double-xor (doubles k a) (doubles k b) (doubles-lt k a p) (doubles-lt k b q)

-- 255 doublings go once round the bytes.
pub doubles_period : (b : ℕ) → b < 256 → doubles 255 b ≡ b
doubles_period zero h = doubles-zero 255
doubles_period (suc b) h =
    let (lb, eb) = power_of (suc b) (omega arith) h in
    ap (doubles 255) (sym eb)
    ∙ sym (exp-add (log (suc b)) 255 (omega arith))
    ∙ exp_period (log (suc b)) (omega arith)
    ∙ eb

pub doubles-mod : (k b : ℕ) → k < 510 → b < 256 → doubles (k % 255) b ≡ doubles k b
doubles-mod k b h hb = elim (dec_lt k 255) [
  | yes small ↦ ap (λ t. doubles t b) (omega arith)
  | no large ↦
      let e : k % 255 + 255 ≡ k = omega arith in
      ap (doubles (k % 255)) (sym (doubles_period b hb))
      ∙ sym (doubles-add (k % 255) 255 b)
      ∙ ap (λ t. doubles t b) e
]
