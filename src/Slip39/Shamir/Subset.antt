-- ===== src/Slip39/Shamir/Subset.antt =====
-- The bytes that `combine` finds in the shares of distinct points.
use piso_chain.Base.{
  ℕ, zero, suc, ◌≤◌, ◌≡◌, refl, sym, ap, ap₂, ◌∙◌, List, [], ◌∷◌, ◌++◌, map, length, All, arith,
  some, get_elem?, length-map, length-append,
}
use mathlib.Core.List.{append_assoc}
use piso_chain.Slip39.Errors.{ok}
use piso_chain.Slip39.Lagrange.{Distinct}
use piso_chain.Slip39.Polynomial.{eval, interpolate-eval}
use piso_chain.Slip39.Gf256.Bytes.{Byte, bytes_field, zero_byte}
use piso_chain.Slip39.Shamir.{Share, combine_subset, combine_bytes, sum_terms, byte_at}
use piso_chain.Slip39.Shamir.Sum.{sum_terms-interpolate}
use piso_chain.Slip39.Shamir.Split.{value, point_value}
use piso_chain.Slip39.Shamir.Shares.{share_at, index-share_at}

get_elem?-append :
    (xs ys : List (List Byte)) (y : List Byte) → get_elem? (xs ++ y ∷ ys) (length xs) ≡ some y
get_elem?-append [] ys y = refl
get_elem?-append (x ∷ xs) ys y = get_elem?-append xs ys y

get_elem?-map {ℓ κ} :
    {A : Type ℓ} {B : Type κ} (f : A → B) (xs : List A) (i : ℕ) (a : A)
    → get_elem? xs i ≡ some a
    → get_elem? (map f xs) i ≡ some (f a)
get_elem?-map f [] i a h = cc
get_elem?-map f (x ∷ xs) zero a h = let e : x ≡ a = cc in ap (λ t. some (f t)) e
get_elem?-map f (x ∷ xs) (suc i) a h = get_elem?-map f xs i a h

-- the value at zero, which the secret's byte is
unfoldable pub at_zero : List Byte → ℕ
at_zero p = (eval bytes_field p zero_byte).0

module _ (threshold : ℕ) where
  unfoldable pub mk : List (List Byte) → Byte → Share
  mk ps x = share_at threshold ps x.0

  stored :
      (before after : List (List Byte)) (p : List Byte) (x : Byte)
      → byte_at (length before) (mk (before ++ p ∷ after) x).bytes ≡ ok (eval bytes_field p x).0
  unfolding byte_at mk share_at value
  stored before after p x =
      let ps : List (List Byte) = before ++ p ∷ after in
      rw
        (
          get_elem?-map (λ q. value q x.0) ps (length before) p (get_elem?-append before after p),
          byte_at,
        )
        (ap (λ (b : Byte). ok (eval bytes_field p b).0) (point_value x))

  -- From any point on, the bytes that are combined are the values at zero.
  combine_bytes-eq :
      (before after : List (List Byte)) (xs : List Byte)
      → Distinct bytes_field xs
      → All (λ p. length p ≤ length xs) after
      → combine_bytes (map (mk (before ++ after)) xs) (length after) (length before)
        ≡ ok (map at_zero after)
  unfolding combine_bytes at_zero
  combine_bytes-eq before [] xs d h = refl
  combine_bytes-eq before (p ∷ after) xs d h =
      let ps : List (List Byte) = before ++ p ∷ after in
      let subset : List Share = map (mk ps) xs in
      let value_eq : sum_terms subset (length before) 0 subset 0 ≡ ok (at_zero p) =
        sum_terms-interpolate (mk ps) (λ x. unfold mk in index-share_at threshold ps x.0)
          (length before) (eval bytes_field p) (stored before after p) xs d
        ∙ ap (λ (b : Byte). ok b.0) (interpolate-eval bytes_field p xs d h.0) in
      let before' : List (List Byte) = before ++ p ∷ [] in
      let shift : before' ++ after ≡ ps = append_assoc before (p ∷ []) after in
      let rest : combine_bytes subset (length after) (suc (length before))
          ≡ ok (map at_zero after) =
        ap₂ (λ qs n. combine_bytes (map (mk qs) xs) (length after) n) (sym shift)
          (omega (arith, length-append before (p ∷ [])))
        ∙ combine_bytes-eq before' after xs d h.1 in
      rw (value_eq, rest) refl

  pub combine_subset-eq :
      (ps : List (List Byte)) (x : Byte) (xs : List Byte)
      → Distinct bytes_field (x ∷ xs)
      → All (λ p. length p ≤ length (x ∷ xs)) ps
      → combine_subset (map (mk ps) (x ∷ xs)) ≡ ok (map at_zero ps)
  unfolding combine_subset mk share_at
  combine_subset-eq ps x xs d h =
      ap (λ n. combine_bytes (map (mk ps) (x ∷ xs)) n 0) (length-map (λ p. value p x.0) ps)
      ∙ combine_bytes-eq [] ps (x ∷ xs) d h
