-- ===== src/Pow/Target.antt =====
-- Targets of difficulties.
use native.Mathlib.Nat.{le-div_iff_mul-le, one-le-pow, mul-le-mul_left, pow-le-pow_right}
use native.Mathlib.Decide.{dec_lt, dec_le}
use piso_chain.Base.{ℕ, ◌*◌, ◌/◌, ◌^◌, ◌<◌, ◌≤◌, ◌≡◌, ◌↔◌, refl, arith}
use piso_chain.Int.{ℤ, pos, negsuc, ◌≤ℤ◌}
use piso_chain.Pow.{max_uint256, difficulty_to_target}

power_pos : (d : ℕ) → 0 < 2 ^ d
power_pos d = one-le-pow d 2 (omega arith)

inside : (d : ℕ) → 0 < d → d < 256 → difficulty_to_target (pos d) ≡ max_uint256 / 2 ^ d
unfolding difficulty_to_target
inside d p q = ground arith

beyond : (d : ℕ) → 256 ≤ d → difficulty_to_target (pos d) ≡ 0
unfolding difficulty_to_target
beyond d p = ground arith

none_asked : difficulty_to_target (pos 0) ≡ max_uint256
unfolding difficulty_to_target
none_asked = refl

-- A number of 256 bits meets the target of `d` bits, for `d` up to 256, exactly when it has `d` leading
-- zero bits: when it times two to the power `d` is still below two to the power 256.
pub le-difficulty_to_target :
    (d h : ℕ) → d ≤ 256 → (h ≤ difficulty_to_target (pos d)) ↔ (h * 2 ^ d < 2 ^ 256)
le-difficulty_to_target d h k = elim (dec_lt d 256) [
  | no large ↦
      let last : d ≡ 256 = omega (arith, k, large) in
      rw (last, beyond 256 (omega arith)) (λ e. omega (arith, e), λ e. omega (arith, e))
  | yes small ↦ elim (dec_lt 0 d) [
    | no least ↦
        let least_eq : d ≡ 0 = omega (arith, least) in
        rw (least_eq, none_asked) (λ e. omega (arith, e), λ e. omega (arith, e))
    | yes asked ↦
        let (to, from) = le-div_iff_mul-le {x = h} {y = max_uint256} (power_pos d) in
        rw (inside d asked small) (λ e. ground (arith, to e), λ e. from (ground (arith, e)))
  ]
]

harder : (d d' : ℕ) → d ≤ d' → difficulty_to_target (pos d') ≤ difficulty_to_target (pos d)
harder d d' h = elim (dec_le d' 256) [
  | no large ↦ rw (beyond d' (omega (arith, large))) (omega arith)
  | yes small ↦
      let t : ℕ = difficulty_to_target (pos d') in
      let met : t * 2 ^ d' < 2 ^ 256 = (le-difficulty_to_target d' t small).0 (omega arith) in
      let smaller : t * 2 ^ d ≤ t * 2 ^ d' =
        mul-le-mul_left t (pow-le-pow_right {n = 2} (omega arith) h) in
      (le-difficulty_to_target d t (omega (arith, h, small))).1 (omega (arith, met, smaller))
]

-- A higher difficulty never has a higher target.
pub difficulty_to_target_antitone :
    (d d' : ℤ) → d ≤ℤ d' → difficulty_to_target d' ≤ difficulty_to_target d
difficulty_to_target_antitone (pos d) (pos d') h = harder d d' (omega (arith, h))
difficulty_to_target_antitone (pos d) (negsuc e') h = absurd (omega (arith, h))
difficulty_to_target_antitone (negsuc e) (pos d') h =
    unfold difficulty_to_target in harder 0 d' (omega arith)
difficulty_to_target_antitone (negsuc e) (negsuc e') h = unfold difficulty_to_target in omega arith
