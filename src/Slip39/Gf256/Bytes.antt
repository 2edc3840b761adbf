-- ===== src/Slip39/Gf256/Bytes.antt =====
-- The bytes are a field: the interface of interpolation, filled by the table arithmetic.
use mathlib.Core.HLevel.{Σ_prop_path}
use native.Mathlib.Bridge.{le_prop}
use piso_chain.Base.{ℕ, zero, suc, ◌<◌, ◌≡◌, ◌≢◌, arith, bit_xor}
use piso_chain.Xor.{xor-lt, xor_comm, xor_assoc, zero-xor, xor_self}
use piso_chain.Slip39.Field.{Field}
use piso_chain.Slip39.Gf256.Laws.{
  times, over, times-lt, over-lt, times_comm, times_assoc, one-times, zero-times, times-xor,
  over-times,
}

abbrev pub Byte : Type 0
Byte = (x : ℕ) × (x < 256)

pub Byte_path : (a b : Byte) → a.0 ≡ b.0 → a ≡ b
Byte_path a b p = Σ_prop_path (λ n. le_prop) p

abbrev pub zero_byte : Byte
zero_byte = (0, omega arith)

pub byte_pos : (b : Byte) → b ≢ zero_byte → 0 < b.0
byte_pos (zero, h) ne = absurd (ne (Byte_path (zero, h) zero_byte (omega arith)))
byte_pos (suc b, h) ne = omega arith

abbrev pub bytes_field : Field
bytes_field = record {
  F = Byte;
  zero = zero_byte;
  one = (1, omega arith);
  add = λ a b. (bit_xor a.0 b.0, xor-lt 8 a.0 b.0 a.1 b.1);
  mul = λ a b. (times a.0 b.0, times-lt a.0 b.0 a.1 b.1);
  div = λ a b. (over a.0 b.0, over-lt a.0 b.0);
  add_comm = λ a b. Byte_path _ _ (xor_comm a.0 b.0);
  add_assoc = λ a b c. Byte_path _ _ (xor_assoc a.0 b.0 c.0);
  zero-add = λ a. Byte_path _ _ (zero-xor a.0);
  add_self = λ a. Byte_path _ _ (xor_self a.0);
  mul_comm = λ a b. Byte_path _ _ (times_comm a.0 b.0);
  mul_assoc = λ a b c. Byte_path _ _ (times_assoc a.0 b.0 c.0 a.1 b.1 c.1);
  one-mul = λ a. Byte_path _ _ (one-times a.0 a.1);
  zero-mul = λ a. Byte_path _ _ (zero-times a.0);
  mul-add = λ a b c. Byte_path _ _ (times-xor a.0 b.0 c.0 a.1 b.1 c.1);
  div-mul = λ a b ne. Byte_path _ _ (over-times a.0 b.0 a.1 (byte_pos b ne) b.1);
}
