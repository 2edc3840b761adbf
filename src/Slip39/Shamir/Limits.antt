-- ===== src/Slip39/Shamir/Limits.antt =====
-- What `split` returns, and which arguments it and `combine` refuse.
use piso_chain.Base.{
  subst, ℕ, zero, suc, ◌+◌, ◌-◌, ◌<◌, ◌≤◌, ◌≡◌, refl, sym, ap, ◌∙◌, ◌⊎◌, inl, inr, List, [], ◌∷◌,
  length, All, arith, replicate, length-map,
}
use native.Mathlib.Decide.{dec_le}
use piso_chain.Slip39.Errors.{Result, ok, err, Error}
use piso_chain.Slip39.Gf256.Bytes.{Byte}
use piso_chain.Slip39.Shamir.{Share, make_shares, split}
use piso_chain.Slip39.Shamir.Split.{value_of, value, extend, polynomials, lift, map-lift}
use piso_chain.Slip39.Shamir.Shares.{polys, shares, shares_from, split-eq}

-- The shares are numbered from one on, ask for the threshold, and hold as many bytes as the secret.
abbrev pub AreNumbered : ℕ → ℕ → ℕ → List Share → Type 0
AreNumbered threshold len i [] = Unit
AreNumbered threshold len i (s ∷ ss) =
    (s.index ≡ i)
    × (s.threshold ≡ threshold)
    × (length s.bytes ≡ len)
    × AreNumbered threshold len (suc i) ss

module _ (threshold : ℕ) (ps : List (List Byte)) where
  made_AreNumbered :
      (i n : ℕ)
      → AreNumbered threshold (length ps) i (make_shares threshold i (extend i (replicate n []) ps))
  unfolding make_shares extend
  made_AreNumbered i zero = tt
  made_AreNumbered i (suc n) =
      (refl, refl, length-map (λ p. value p i) ps, made_AreNumbered (suc i) n)

  length-made : (i n : ℕ) → length (make_shares threshold i (extend i (replicate n []) ps)) ≡ n
  unfolding make_shares extend
  length-made i zero = refl
  length-made i (suc n) = ap suc (length-made (suc i) n)

abbrev WithinLimits : ℕ → ℕ → Type 0
WithinLimits threshold total_shares =
    (1 ≤ threshold) × (threshold ≤ total_shares) × (total_shares ≤ 254)

-- What a call of `split` ends with, for a secret of `len` bytes.
abbrev pub SplitResult : ℕ → ℕ → ℕ → Result (List Share) → Type 0
SplitResult threshold total_shares len (ok all) =
    WithinLimits threshold total_shares
    × (length all ≡ total_shares)
    × AreNumbered threshold len 1 all
SplitResult threshold total_shares len (err e) =
    (e ≡ Error.value_error) × (¬ WithinLimits threshold total_shares)

module _ (random : ℕ → ℕ) (bounded : (n : ℕ) → random n < 256) (secret : List ℕ)
    (secret_bytes : All (λ b. b < 256) secret) (threshold total_shares : ℕ) where
  length-polynomials :
      (n : ℕ) (bs : List Byte) → length (polynomials random bounded threshold n bs) ≡ length bs
  unfolding polynomials
  length-polynomials n [] = refl
  length-polynomials n (b ∷ bs) = ap suc (length-polynomials (n + (threshold - 1)) bs)

  outside :
      (threshold < 1) ⊎ ((total_shares < threshold) ⊎ (254 < total_shares))
      → split random secret threshold total_shares ≡ err Error.value_error
  unfolding split
  outside h = ground arith

  within :
      (enough : 1 ≤ threshold) (fits : threshold ≤ total_shares) (most : total_shares ≤ 254)
      → SplitResult threshold total_shares
          (length secret)
          (ok (shares random bounded secret secret_bytes threshold total_shares enough fits most))
  unfolding shares shares_from polys
  within enough fits most =
      let ps : List (List Byte) =
        polynomials random bounded threshold 0 (lift secret secret_bytes) in
      let len : length ps ≡ length secret =
        length-polynomials 0 (lift secret secret_bytes)
        ∙ sym (length-map value_of (lift secret secret_bytes))
        ∙ ap length (map-lift secret secret_bytes) in
      (
        (enough, fits, most),
        length-made threshold ps 1 total_shares,
        subst
            (λ n.
              AreNumbered threshold n 1
                (make_shares threshold 1 (extend 1 (replicate total_shares []) ps)))
            len (made_AreNumbered threshold ps 1 total_shares),
      )

  -- Of a secret of bytes `split` makes exactly the shares asked for, numbered from one on, each with the
  -- threshold and as many bytes as the secret, when the threshold is from one up to the number of shares
  -- and that is at most 254; otherwise it raises ValueError.
  pub split_result :
      SplitResult threshold total_shares
        (length secret)
        (split random secret threshold total_shares)
  split_result = elim (dec_le 1 threshold) [
    | no h ↦ rw (outside (inl (omega (arith, h)))) (refl, λ w. h w.0)
    | yes enough ↦ elim (dec_le threshold total_shares) [
      | no h ↦ rw (outside (inr (inl (omega (arith, h))))) (refl, λ w. h w.1)
      | yes fits ↦ elim (dec_le total_shares 254) [
        | no h ↦ rw (outside (inr (inr (omega (arith, h))))) (refl, λ w. h w.2)
        | yes most ↦
            rw (split-eq random bounded secret secret_bytes threshold total_shares enough fits most)
              (within enough fits most)
      ]
    ]
  ]
