-- ===== src/Slip39/Gf256/Operations.antt =====
-- The operations of `GF256` on bytes: they never raise, and they are those of a field.
use piso_chain.Base.{ℕ, ◌<◌, ◌≡◌, refl, sym, ap, ◌∙◌, arith, bit_xor}
use piso_chain.Xor.{xor-lt, xor_comm, xor_assoc, xor-zero, xor_self}
use piso_chain.Slip39.Errors.{Error, ok, err, ◌>>=◌}
use piso_chain.Slip39.Gf256.{add, mul, div}
use piso_chain.Slip39.Gf256.Laws.{
  times, over, times_comm, times-lt, times-xor, times_assoc, one-times, over-times, over-lt,
}

pub mul-eq : (a b : ℕ) → a < 256 → b < 256 → mul a b ≡ ok (times a b)
unfolding mul times
mul-eq a b p q = ground arith

pub div-eq : (a b : ℕ) → a < 256 → b < 256 → 0 < b → div a b ≡ ok (over a b)
unfolding div over
div-eq a b p q h = ground arith

-- On bytes multiplication is associative, and neither order raises.
mul_assoc :
    (a b c : ℕ)
    → a < 256
    → b < 256
    → c < 256
    → (mul a b >>= λ ab. mul ab c) ≡ (mul b c >>= λ bc. mul a bc)
mul_assoc a b c p q r =
    rw (mul-eq a b p q, mul-eq b c q r)
      (mul-eq (times a b) c (times-lt a b p q) r
        ∙ ap ok (times_assoc a b c p q r)
        ∙ sym (mul-eq a (times b c) p (times-lt b c q r)))

-- On bytes multiplication distributes over addition, and neither side raises.
mul-add :
    (a b c : ℕ)
    → a < 256
    → b < 256
    → c < 256
    → mul a (add b c) ≡ (mul a b >>= λ ab. mul a c >>= λ ac. ok (add ab ac))
unfolding add
mul-add a b c p q r =
    mul-eq a (bit_xor b c) p (xor-lt 8 b c q r)
    ∙ ap ok (times-xor a b c p q r)
    ∙ rw (mul-eq a b p q, mul-eq a c p r) refl

-- On bytes a quotient by a number other than zero, multiplied by that number, is the first number again.
mul-div : (a b : ℕ) → a < 256 → 0 < b → b < 256 → (div a b >>= λ q. mul q b) ≡ ok a
mul-div a b p h q =
    rw (div-eq a b p q h) (mul-eq (over a b) b (over-lt a b) q ∙ ap ok (over-times a b p h q))

-- The sum, the product and a quotient of bytes are bytes, and the quotient by zero raises.
abbrev pub Closed : ℕ → ℕ → Type 0
Closed a b =
    (add a b < 256)
    × ((product : ℕ) × (mul a b ≡ ok product) × (product < 256))
    × (0 < b → (quotient : ℕ) × (div a b ≡ ok quotient) × (quotient < 256))
    × (div a 0 ≡ err Error.zero_division)

-- Addition on bytes: it is commutative and associative, zero is neutral, and a number is its own inverse.
abbrev pub AddLaws : ℕ → ℕ → ℕ → Type 0
AddLaws a b c =
    (add a b ≡ add b a) × (add (add a b) c ≡ add a (add b c)) × (add a 0 ≡ a) × (add a a ≡ 0)

-- Multiplication on bytes: it is commutative and associative, one is neutral, it distributes over
-- addition, and it undoes division by a number other than zero.
abbrev pub MulLaws : ℕ → ℕ → ℕ → Type 0
MulLaws a b c =
    (mul a b ≡ mul b a)
    × ((mul a b >>= λ ab. mul ab c) ≡ (mul b c >>= λ bc. mul a bc))
    × (mul a 1 ≡ ok a)
    × (mul a (add b c) ≡ (mul a b >>= λ ab. mul a c >>= λ ac. ok (add ab ac)))
    × (0 < b → (div a b >>= λ q. mul q b) ≡ ok a)

closed : (a b : ℕ) → a < 256 → b < 256 → Closed a b
closed a b p q = (
  unfold add in xor-lt 8 a b p q,
  (times a b, mul-eq a b p q, times-lt a b p q),
  λ h. (over a b, div-eq a b p q h, over-lt a b),
  unfold div in refl,
)

add_laws : (a b c : ℕ) → AddLaws a b c
unfolding add
add_laws a b c = (xor_comm a b, xor_assoc a b c, xor-zero a, xor_self a)

mul_laws : (a b c : ℕ) → a < 256 → b < 256 → c < 256 → MulLaws a b c
mul_laws a b c p q r = (
  mul-eq a b p q ∙ ap ok (times_comm a b) ∙ sym (mul-eq b a q p),
  mul_assoc a b c p q r,
  mul-eq a 1 p (omega arith) ∙ ap ok (times_comm a 1 ∙ one-times a p),
  mul-add a b c p q r,
  λ h. mul-div a b p h q,
)

-- On bytes the operations give bytes and never raise, save a division by zero, which does, and they are
-- those of a field in which every number is its own negative: the laws of addition and of multiplication
-- hold, with zero and one as neutral numbers.
pub field_laws :
    (a b c : ℕ) → a < 256 → b < 256 → c < 256 → Closed a b × AddLaws a b c × MulLaws a b c
field_laws a b c p q r = (closed a b p q, add_laws a b c, mul_laws a b c p q r)
