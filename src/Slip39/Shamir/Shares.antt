-- ===== src/Slip39/Shamir/Shares.antt =====
-- The shares that `split` returns, one by one.
use piso_chain.Base.{
  ℕ, zero, suc, ◌+◌, ◌-◌, ◌<◌, ◌≤◌, ◌≡◌, refl, sym, ap, ◌∙◌, List, [], map, All, arith, some,
  get_elem?, replicate, length-replicate,
}
use piso_chain.Slip39.Errors.{ok}
use piso_chain.Slip39.Gf256.Bytes.{Byte}
use piso_chain.Slip39.Shamir.{Share, split_bytes, make_shares, split}
use piso_chain.Slip39.Shamir.Split.{value, extend, polynomials, split_bytes-eq, lift, map-lift}

-- The share of the point `x`.
unfoldable pub share_at : ℕ → List (List Byte) → ℕ → Share
share_at threshold ps x = record {
  index = x;
  bytes = map (λ p. value p x) ps;
  threshold = threshold;
}

pub index-share_at :
    (threshold : ℕ) (ps : List (List Byte)) (x : ℕ) → (share_at threshold ps x).index ≡ x
unfolding share_at
index-share_at threshold ps x = refl

pub threshold-share_at :
    (threshold : ℕ) (ps : List (List Byte)) (x : ℕ)
    → (share_at threshold ps x).threshold ≡ threshold
unfolding share_at
threshold-share_at threshold ps x = refl

unfoldable pub shares_from : ℕ → ℕ → ℕ → List (List Byte) → List Share
shares_from threshold i n ps = make_shares threshold i (extend i (replicate n []) ps)

get_elem?-shares_from :
    (threshold i n j : ℕ) (ps : List (List Byte)) (s : Share)
    → get_elem? (shares_from threshold i n ps) j ≡ some s
    → (s ≡ share_at threshold ps (i + j)) × (j < n)
unfolding shares_from make_shares extend share_at
get_elem?-shares_from threshold i zero j ps s h = cc
get_elem?-shares_from threshold i (suc n) zero ps s h =
    (let e : i + 0 ≡ i = omega arith in rw e (cc), omega arith)
get_elem?-shares_from threshold i (suc n) (suc j) ps s h =
    let (e, lt) = get_elem?-shares_from threshold (suc i) n j ps s h in
    (let shift : i + suc j ≡ suc i + j = omega arith in rw shift e, omega arith)

module _ (random : ℕ → ℕ) (bounded : (n : ℕ) → random n < 256) (secret : List ℕ)
    (secret_bytes : All (λ b. b < 256) secret) (threshold total_shares : ℕ) (enough : 1 ≤ threshold)
    (fits : threshold ≤ total_shares) (most : total_shares ≤ 254) where
  unfoldable pub polys : List (List Byte)
  polys = polynomials random bounded threshold 0 (lift secret secret_bytes)

  unfoldable pub shares : List Share
  unfolding shares_from polys
  shares = shares_from threshold 1 total_shares polys

  rows_eq :
      split_bytes random threshold 0 secret (replicate total_shares [])
      ≡ ok (extend 1 (replicate total_shares []) polys)
  unfolding polys
  rows_eq =
      ap (λ t. split_bytes random threshold 0 t (replicate total_shares []))
        (sym (map-lift secret secret_bytes))
      ∙ split_bytes-eq random bounded threshold 0 (lift secret secret_bytes)
          (replicate total_shares [])
          (rw (length-replicate total_shares (let row : List ℕ = [] in row)) (omega arith))

  -- Within its limits `split` returns its shares.
  pub split-eq : split random secret threshold total_shares ≡ ok shares
  unfolding split shares shares_from
  split-eq = ground (arith, rows_eq)

  -- The share at its own place has its index from one on, and holds the values at it.
  pub share_eq :
      (s : Share)
      → get_elem? shares (s.index - 1) ≡ some s
      → (s ≡ share_at threshold polys s.index) × (s.index < 256)
  unfolding shares
  share_eq s h =
      let (e, lt) = get_elem?-shares_from threshold 1 total_shares (s.index - 1) polys s h in
      let place : s.index ≡ 1 + (s.index - 1) =
        ap (λ (t : Share). t.index) e ∙ index-share_at threshold polys (1 + (s.index - 1)) in
      (e ∙ ap (share_at threshold polys) (sym place), omega arith)
