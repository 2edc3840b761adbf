-- ===== src/Slip39/Shamir/Combine.antt =====
-- `combine` inverts `split`.
use piso_chain.Base.{
  ℕ, zero, suc, ◌+◌, ◌-◌, ◌<◌, ◌≤◌, ◌≡◌, ◌≢◌, refl, sym, ap, ap₂, ◌∙◌, List, [], ◌∷◌, map, length,
  take, All, All-map, arith, some, get_elem?, length-map, length-take,
}
use piso_chain.Slip39.Errors.{ok}
use piso_chain.Slip39.Field
use piso_chain.Slip39.Field.{Field}
use piso_chain.Slip39.Lagrange.{Distinct}
use piso_chain.Slip39.Polynomial.{eval}
use piso_chain.Slip39.Gf256.Bytes.{Byte, bytes_field, zero_byte}
use piso_chain.Slip39.Shamir.{Share, split, combine, combine_subset}
use piso_chain.Slip39.Shamir.Split.{
  value_of, point, point_eq, lift, map-lift, polynomials, length-draw_bytes, draw_bytes,
}
use piso_chain.Slip39.Shamir.Shares.{
  share_at, threshold-share_at, polys, shares, split-eq, share_eq,
}
use piso_chain.Slip39.Shamir.Subset.{at_zero, mk, combine_subset-eq}

-- No two of the shares have the same index.
abbrev pub DistinctIndices : List Share → Type 0
DistinctIndices [] = Unit
DistinctIndices (s ∷ ss) = All (λ u. u.index ≢ s.index) ss × DistinctIndices ss

All-take {ℓ} : {A : Type ℓ} (P : A → Type 0) (n : ℕ) (xs : List A) → All P xs → All P (take n xs)
All-take P zero xs h = tt
All-take P (suc n) [] h = tt
All-take P (suc n) (x ∷ xs) h = (h.0, All-take P n xs h.1)

DistinctIndices-take : (n : ℕ) (ss : List Share) → DistinctIndices ss → DistinctIndices (take n ss)
DistinctIndices-take zero ss h = tt
DistinctIndices-take (suc n) [] h = tt
DistinctIndices-take (suc n) (s ∷ ss) h =
    (All-take (λ u. u.index ≢ s.index) n ss h.0, DistinctIndices-take n ss h.1)

-- A share that `split` made.
abbrev IsMade : ℕ → List (List Byte) → Share → Type 0
IsMade threshold ps s = (s ≡ share_at threshold ps s.index) × (s.index < 256)

points : List Share → List Byte
points = map (λ s. point s.index)

made_points :
    (threshold : ℕ) (ps : List (List Byte)) (ss : List Share)
    → All (IsMade threshold ps) ss
    → ss ≡ map (mk threshold ps) (points ss)
unfolding points mk
made_points threshold ps [] h = refl
made_points threshold ps (s ∷ ss) h =
    ap₂ (λ u us. u ∷ us) (h.0.0 ∙ ap (share_at threshold ps) (sym (point_eq s.index h.0.1)))
      (made_points threshold ps ss h.1)

index_of_point : (a b : ℕ) → a < 256 → b < 256 → point a ≡ point b → a ≡ b
index_of_point a b p q e = sym (point_eq a p) ∙ ap value_of e ∙ point_eq b q

points-Distinct :
    (threshold : ℕ) (ps : List (List Byte)) (ss : List Share)
    → All (IsMade threshold ps) ss
    → DistinctIndices ss
    → Distinct bytes_field (points ss)
unfolding points
points-Distinct threshold ps [] h d = tt
points-Distinct threshold ps (s ∷ ss) h d =
    (others ss h.1 d.0, points-Distinct threshold ps ss h.1 d.1)
  where
    others :
        (us : List Share)
        → All (IsMade threshold ps) us
        → All (λ u. u.index ≢ s.index) us
        → All (λ y. y ≢ point s.index) (points us)
    others [] p q = tt
    others (u ∷ us) p q =
        (λ e. q.0 (index_of_point u.index s.index p.0.1 h.0.1 e), others us p.1 q.1)

module _ (threshold : ℕ) (ps : List (List Byte)) (short : All (λ p. length p ≤ threshold) ps)
    (enough : 1 ≤ threshold) where
  combine_made :
      (ss : List Share)
      → All (IsMade threshold ps) ss
      → DistinctIndices ss
      → length ss ≡ threshold
      → combine_subset ss ≡ ok (map at_zero ps)
  combine_made [] h d e = absurd (omega (arith, e))
  combine_made (s ∷ ss) h d e =
      ap combine_subset (made_points threshold ps (s ∷ ss) h)
      ∙ unfold points in
        combine_subset-eq threshold ps (point s.index) (points ss)
          (points-Distinct threshold ps (s ∷ ss) h d)
          (All-map (λ p. length p ≤ threshold) (λ p. length p ≤ length (point s.index ∷ points ss))
            ps (λ p q. omega (arith, q, length-map (λ (u : Share). point u.index) ss, e)) short)

module _ (random : ℕ → ℕ) (bounded : (n : ℕ) → random n < 256) (threshold : ℕ)
    (enough : 1 ≤ threshold) where
  polynomials_short :
      (n : ℕ) (secret : List Byte)
      → All (λ p. length p ≤ threshold) (polynomials random bounded threshold n secret)
  unfolding polynomials
  polynomials_short n [] = tt
  polynomials_short n (b ∷ secret) = (
    omega (arith, length-draw_bytes random bounded threshold n (threshold - 1)),
    polynomials_short (n + (threshold - 1)) secret,
  )

  polynomials-at_zero :
      (n : ℕ) (secret : List Byte)
      → map at_zero (polynomials random bounded threshold n secret) ≡ map value_of secret
  unfolding polynomials at_zero eval
  polynomials-at_zero n [] = refl
  polynomials-at_zero n (b ∷ secret) =
      let k : Field = bytes_field in
      let rest : Byte = eval k (draw_bytes random bounded threshold n (threshold - 1)) zero_byte in
      ap₂ (λ u us. u ∷ us) (ap value_of (ap (k.add b) (k.zero-mul rest) ∙ Field.add-zero k b))
        (polynomials-at_zero (n + (threshold - 1)) secret)

module _ (random : ℕ → ℕ) (bounded : (n : ℕ) → random n < 256) (secret : List ℕ)
    (secret_bytes : All (λ b. b < 256) secret) (threshold total_shares : ℕ) (enough : 1 ≤ threshold)
    (fits : threshold ≤ total_shares) (most : total_shares ≤ 254) where
  polys_short :
      All
        (λ p. length p ≤ threshold)
        (polys random bounded secret secret_bytes threshold total_shares enough fits most)
  unfolding polys
  polys_short = polynomials_short random bounded threshold enough 0 (lift secret secret_bytes)

  polys-at_zero :
      map at_zero (polys random bounded secret secret_bytes threshold total_shares enough fits most)
      ≡ secret
  unfolding polys
  polys-at_zero =
      polynomials-at_zero random bounded threshold enough 0 (lift secret secret_bytes)
      ∙ map-lift secret secret_bytes

pub split_limits :
    (random : ℕ → ℕ) (secret : List ℕ) (threshold total_shares : ℕ) (all : List Share)
    → split random secret threshold total_shares ≡ ok all
    → (1 ≤ threshold) × (threshold ≤ total_shares) × (total_shares ≤ 254)
unfolding split
split_limits random secret threshold total_shares all h = ground arith

pub ok-injective : {a b : List Share} → ok a ≡ ok b → a ≡ b
ok-injective h = cc

combine_step :
    (s : Share) (ss : List Share)
    → s.threshold ≤ length (s ∷ ss)
    → combine (s ∷ ss) ≡ combine_subset (take s.threshold (s ∷ ss))
unfolding combine
combine_step s ss h = ground arith

-- `combine` takes as many shares as the first one asks for.
combine_chosen :
    (threshold : ℕ) (ps : List (List Byte))
    → All (λ p. length p ≤ threshold) ps
    → 1 ≤ threshold
    → (ss : List Share) → All (IsMade threshold ps) ss
    → DistinctIndices ss
    → threshold ≤ length ss
    → combine ss ≡ ok (map at_zero ps)
combine_chosen threshold ps short enough [] h d many = absurd (omega (arith, enough, many))
combine_chosen threshold ps short enough (s ∷ ss) h d many =
    let asked : s.threshold ≡ threshold =
      ap (λ (t : Share). t.threshold) h.0.0 ∙ threshold-share_at threshold ps s.index in
    combine_step s ss (rw asked many)
    ∙ ap (λ n. combine_subset (take n (s ∷ ss))) asked
    ∙ combine_made threshold ps short enough (take threshold (s ∷ ss))
        (All-take (IsMade threshold ps) threshold (s ∷ ss) h)
        (DistinctIndices-take threshold (s ∷ ss) d)
        (omega (arith, length-take threshold (s ∷ ss), many))

-- A secret of bytes that is split into at most 254 shares comes back from any of them: from shares with
-- different indices, each one that `split` returned at its index's place, in any order, and at least as
-- many as the threshold, `combine` returns the secret, whatever bytes the random generator gave.
pub combine-split :
    (random : ℕ → ℕ) (secret : List ℕ) (threshold total_shares : ℕ) (all chosen : List Share)
    → ((n : ℕ) → random n < 256)
    → All (λ b. b < 256) secret
    → split random secret threshold total_shares ≡ ok all
    → All (λ s. get_elem? all (s.index - 1) ≡ some s) chosen
    → DistinctIndices chosen
    → threshold ≤ length chosen
    → combine chosen ≡ ok secret
combine-split random secret threshold total_shares all chosen bounded secret_bytes done held d
      many =
    let (enough, fits, most) = split_limits random secret threshold total_shares all done in
    let returned : all
        ≡ shares random bounded secret secret_bytes threshold total_shares enough fits most =
      ok-injective (
        sym done
        ∙ split-eq random bounded secret secret_bytes threshold total_shares enough fits most) in
    let made : All
        (IsMade threshold
          (polys random bounded secret secret_bytes threshold total_shares enough fits most))
        chosen =
      All-map (λ s. get_elem? all (s.index - 1) ≡ some s)
        (IsMade threshold
          (polys random bounded secret secret_bytes threshold total_shares enough fits most))
        chosen
        (λ s h.
          share_eq random bounded secret secret_bytes threshold total_shares enough fits most s
            (ap (λ (t : List Share). get_elem? t (s.index - 1)) (sym returned) ∙ h))
        held in
    combine_chosen threshold
      (polys random bounded secret secret_bytes threshold total_shares enough fits most)
      (polys_short random bounded secret secret_bytes threshold total_shares enough fits most)
      enough chosen made d many
    ∙ ap ok
        (polys-at_zero random bounded secret secret_bytes threshold total_shares enough fits most)
