-- ===== src/Bytes.antt =====
-- `int.from_bytes` and `int.to_bytes`, big endian, on lists of bytes.
use native.Mathlib.Nat.{mul_assoc, mul_comm, pow-suc, mul-le-mul_right}
use piso_chain.Base.{
  ℕ, zero, suc, ◌+◌, ◌*◌, ◌/◌, ◌%◌, ◌^◌, ◌<◌, ◌≤◌, ◌≡◌, sym, refl, ap, ap₂, ◌∙◌, Option, none, some,
  List, [], ◌∷◌, All, length, ltb, arith, if◌then◌else◌,
}

abbrev pub Bytes : Type 0
Bytes = List ℕ

abbrev pub AreBytes : Bytes → Type 0
AreBytes = All (λ b. b < 256)

unfoldable pub from_bytes_onto : ℕ → Bytes → ℕ
from_bytes_onto acc [] = acc
from_bytes_onto acc (b ∷ bytes) = from_bytes_onto (acc * 256 + b) bytes

unfoldable pub from_bytes : Bytes → ℕ
from_bytes bytes = from_bytes_onto 0 bytes

unfoldable pub bytes_onto : ℕ → ℕ → Bytes → Bytes
bytes_onto zero n out = out
bytes_onto (suc len) n out = bytes_onto len (n / 256) (n % 256 ∷ out)

-- `none` is an OverflowError
unfoldable pub to_bytes : ℕ → ℕ → Option Bytes
to_bytes len n = if ltb n (256 ^ len) then some (bytes_onto len n []) else none

pub to_bytes-eq : (len n : ℕ) → n < 256 ^ len → to_bytes len n ≡ some (bytes_onto len n [])
unfolding to_bytes
to_bytes-eq len n h = ground arith

pow_step : (len : ℕ) → 256 ^ suc len ≡ 256 ^ len * 256
pow_step len = pow-suc 256 len

div_lt : (len n : ℕ) → n < 256 ^ suc len → n / 256 < 256 ^ len
div_lt len n h = let step : 256 ^ suc len ≡ 256 ^ len * 256 = pow_step len in omega (arith, h, step)

from-bytes_onto :
    (len n acc : ℕ) (out : Bytes)
    → n < 256 ^ len
    → from_bytes_onto acc (bytes_onto len n out) ≡ from_bytes_onto (acc * 256 ^ len + n) out
unfolding from_bytes_onto bytes_onto
from-bytes_onto zero n acc out h = ap (λ t. from_bytes_onto t out) (omega (arith, h))
from-bytes_onto (suc len) n acc out h =
    from-bytes_onto len (n / 256) acc (n % 256 ∷ out) (div_lt len n h)
    ∙ ap (λ t. from_bytes_onto t out)
        (let step : 256 ^ suc len ≡ 256 ^ len * 256 = pow_step len in
          let scaled : acc * 256 ^ suc len ≡ acc * 256 ^ len * 256 =
            ap (λ t. acc * t) step ∙ sym (mul_assoc acc (256 ^ len) 256) in
          omega (arith, scaled))

pub length-bytes_onto : (len n : ℕ) (out : Bytes) → length (bytes_onto len n out) ≡ len + length out
unfolding bytes_onto
length-bytes_onto zero n out = omega arith
length-bytes_onto (suc len) n out = length-bytes_onto len (n / 256) (n % 256 ∷ out) ∙ omega arith

pub bytes_onto-AreBytes : (len n : ℕ) (out : Bytes) → AreBytes out → AreBytes (bytes_onto len n out)
unfolding bytes_onto
bytes_onto-AreBytes zero n out h = h
bytes_onto-AreBytes (suc len) n out h =
    bytes_onto-AreBytes len (n / 256) (n % 256 ∷ out) (omega arith, h)

-- `from_bytes` reads what `to_bytes` writes.
pub from_bytes-bytes_onto : (len n : ℕ) → n < 256 ^ len → from_bytes (bytes_onto len n []) ≡ n
unfolding from_bytes
from_bytes-bytes_onto len n h = from-bytes_onto len n 0 [] h ∙ unfold from_bytes_onto in omega arith

from_bytes_onto-lt :
    (acc : ℕ) (bytes : Bytes)
    → AreBytes bytes
    → from_bytes_onto acc bytes < (acc + 1) * 256 ^ length bytes
unfolding from_bytes_onto
from_bytes_onto-lt acc [] h = omega arith
from_bytes_onto-lt acc (b ∷ bytes) h =
    let r : ℕ = 256 ^ length bytes in
    let step : 256 ^ suc (length bytes) ≡ r * 256 = pow_step (length bytes) in
    let below : acc * 256 + b + 1 ≤ (acc + 1) * 256 = omega (arith, h.0) in
    let rest : from_bytes_onto (acc * 256 + b) bytes < (acc * 256 + b + 1) * r =
      from_bytes_onto-lt (acc * 256 + b) bytes h.1 in
    let wider : (acc * 256 + b + 1) * r ≤ (acc + 1) * 256 * r = mul-le-mul_right r below in
    let scaled : (acc + 1) * 256 * r ≡ (acc + 1) * 256 ^ suc (length bytes) =
      mul_assoc (acc + 1) 256 r ∙ ap (λ t. (acc + 1) * t) (mul_comm 256 r ∙ sym step) in
    omega (arith, rest, wider, scaled)

-- Bytes are a number below the power of 256 that has their count.
pub from_bytes-lt : (bytes : Bytes) → AreBytes bytes → from_bytes bytes < 256 ^ length bytes
unfolding from_bytes
from_bytes-lt bytes h = omega (arith, from_bytes_onto-lt 0 bytes h)

from_bytes_onto-injective :
    (a b : ℕ) (xs ys : Bytes)
    → AreBytes xs
    → AreBytes ys
    → length xs ≡ length ys
    → from_bytes_onto a xs ≡ from_bytes_onto b ys
    → (a ≡ b) × (xs ≡ ys)
unfolding from_bytes_onto
from_bytes_onto-injective a b [] [] p q h e = (e, refl)
from_bytes_onto-injective a b [] (y ∷ ys) p q h e = absurd (omega (arith, h))
from_bytes_onto-injective a b (x ∷ xs) [] p q h e = absurd (omega (arith, h))
from_bytes_onto-injective a b (x ∷ xs) (y ∷ ys) p q h e =
    let (acc, rest) =
      from_bytes_onto-injective (a * 256 + x) (b * 256 + y) xs ys p.1 q.1 (omega (arith, h)) e in
    (omega (arith, acc, p.0, q.0), ap₂ (λ t ts. t ∷ ts) (omega (arith, acc, p.0, q.0)) rest)

from_bytes-injective :
    (xs ys : Bytes)
    → AreBytes xs
    → AreBytes ys
    → length xs ≡ length ys
    → from_bytes xs ≡ from_bytes ys
    → xs ≡ ys
unfolding from_bytes
from_bytes-injective xs ys p q h e = (from_bytes_onto-injective 0 0 xs ys p q h e).1

-- `to_bytes` writes what `from_bytes` reads.
pub to_bytes-from_bytes :
    (bytes : Bytes) → AreBytes bytes → to_bytes (length bytes) (from_bytes bytes) ≡ some bytes
to_bytes-from_bytes bytes h =
    let len : ℕ = length bytes in
    let n : ℕ = from_bytes bytes in
    let small : n < 256 ^ len = from_bytes-lt bytes h in
    to_bytes-eq len n small
    ∙ ap some (
        from_bytes-injective (bytes_onto len n []) bytes (bytes_onto-AreBytes len n [] tt) h
          (length-bytes_onto len n [] ∙ omega arith) (from_bytes-bytes_onto len n small))
