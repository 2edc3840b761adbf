-- ===== src/Slip39/Shamir/Split.antt =====
-- `split` never raises on bytes within its limits, and what each share holds: the values of one
-- polynomial for each byte of the secret.
use piso_chain.Base.{
  ℕ, zero, suc, ◌+◌, ◌-◌, ◌%◌, ◌<◌, ◌≤◌, ◌≡◌, refl, sym, ap, ap₂, ◌∙◌, List, [], ◌∷◌, ◌++◌, map,
  length, All, arith,
}
use mathlib.Core.List.{append-nil, append_assoc}
use piso_chain.Slip39.Errors.{Result, ok, ◌>>=◌}
use piso_chain.Slip39.Field
use piso_chain.Slip39.Field.{Field}
use piso_chain.Slip39.Polynomial.{eval}
use piso_chain.Slip39.Gf256.{add}
use piso_chain.Slip39.Gf256.Bytes.{Byte, Byte_path, bytes_field}
use piso_chain.Slip39.Shamir.{evaluate, append_values, draw, split_bytes}
use piso_chain.Slip39.Shamir.Sum.{mul-eq_bytes}

abbrev pub value_of : Byte → ℕ
value_of b = b.0

-- A list of bytes with the proofs that they are.
abbrev pub lift : (xs : List ℕ) → All (λ x. x < 256) xs → List Byte
lift [] h = []
lift (x ∷ xs) h = (x, h.0) ∷ lift xs h.1

pub map-lift : (xs : List ℕ) (h : All (λ x. x < 256) xs) → map value_of (lift xs h) ≡ xs
map-lift [] h = refl
map-lift (x ∷ xs) h = ap (λ t. x ∷ t) (map-lift xs h.1)

-- `evaluate` is the polynomial's value, by a running power.
evaluate-eq :
    (x : Byte) (cs : List Byte) (y p : Byte)
    → evaluate x.0 (map value_of cs) y.0 p.0
      ≡ ok (bytes_field.add y (bytes_field.mul p (eval bytes_field cs x))).0
unfolding evaluate eval add
evaluate-eq x [] y p =
    let k : Field = bytes_field in
    ap (λ (b : Byte). ok b.0) (sym (ap (k.add y) (Field.mul-zero k p) ∙ Field.add-zero k y))
evaluate-eq x (c ∷ cs) y p =
    let k : Field = bytes_field in
    let e : Byte = eval k cs x in
    rw (mul-eq_bytes c p, mul-eq_bytes p x)
      (evaluate-eq x cs (k.add y (k.mul c p)) (k.mul p x)
        ∙ ap (λ (b : Byte). ok b.0)
            (k.add_assoc y (k.mul c p) (k.mul (k.mul p x) e)
              ∙ ap (k.add y) (
                  ap₂ k.add (k.mul_comm c p) (k.mul_assoc p x e)
                  ∙ sym (k.mul-add p c (k.mul x e)))))

-- the point of the share number `i`
pub point : ℕ → Byte
point i = (i % 256, omega arith)

pub point_eq : (i : ℕ) → i < 256 → (point i).0 ≡ i
unfolding point
point_eq i h = omega arith

pub point_value : (x : Byte) → point x.0 ≡ x
point_value x = Byte_path (point x.0) x (point_eq x.0 x.1)

unfoldable pub value : List Byte → ℕ → ℕ
value p i = (eval bytes_field p (point i)).0

evaluate-value :
    (i : ℕ) (p : List Byte) → i < 256 → evaluate i (map value_of p) 0 1 ≡ ok (value p i)
unfolding value
evaluate-value i p h =
    let k : Field = bytes_field in
    ap (λ t. evaluate t (map value_of p) 0 1) (sym (point_eq i h))
    ∙ evaluate-eq (point i) p k.zero k.one
    ∙ ap (λ (b : Byte). ok b.0)
        (k.zero-add (k.mul k.one (eval k p (point i))) ∙ k.one-mul (eval k p (point i)))

-- The rows from share `i` on, with the values of the polynomials behind what they held.
unfoldable pub extend : ℕ → List (List ℕ) → List (List Byte) → List (List ℕ)
extend i [] ps = []
extend i (row ∷ rows) ps = (row ++ map (λ p. value p i) ps) ∷ extend (suc i) rows ps

append_values-eq :
    (p : List Byte) (i : ℕ) (rows : List (List ℕ))
    → i + length rows ≤ 256
    → append_values (map value_of p) i rows ≡ ok (extend i rows (p ∷ []))
unfolding append_values extend
append_values-eq p i [] h = refl
append_values-eq p i (row ∷ rows) h =
    rw (evaluate-value i p (omega arith), append_values-eq p (suc i) rows (omega arith)) refl

length-extend :
    (i : ℕ) (rows : List (List ℕ)) (ps : List (List Byte)) → length (extend i rows ps) ≡ length rows
unfolding extend
length-extend i [] ps = refl
length-extend i (row ∷ rows) ps = ap suc (length-extend (suc i) rows ps)

extend-extend :
    (i : ℕ) (rows : List (List ℕ)) (p : List Byte) (ps : List (List Byte))
    → extend i (extend i rows (p ∷ [])) ps ≡ extend i rows (p ∷ ps)
unfolding extend
extend-extend i [] p ps = refl
extend-extend i (row ∷ rows) p ps =
    ap₂ (λ r rs. r ∷ rs) (append_assoc row (value p i ∷ []) (map (λ q. value q i) ps))
      (extend-extend (suc i) rows p ps)

extend-nil : (i : ℕ) (rows : List (List ℕ)) → extend i rows [] ≡ rows
unfolding extend
extend-nil i [] = refl
extend-nil i (row ∷ rows) = ap₂ (λ r rs. r ∷ rs) (append-nil row) (extend-nil (suc i) rows)

module _ (random : ℕ → ℕ) (bounded : (n : ℕ) → random n < 256) (threshold : ℕ) where
  pub draw_bytes : ℕ → ℕ → List Byte
  draw_bytes n zero = []
  draw_bytes n (suc count) = (random n, bounded n) ∷ draw_bytes (suc n) count

  map-draw_bytes : (n count : ℕ) → map value_of (draw_bytes n count) ≡ draw random n count
  unfolding draw draw_bytes
  map-draw_bytes n zero = refl
  map-draw_bytes n (suc count) = ap (λ t. random n ∷ t) (map-draw_bytes (suc n) count)

  pub length-draw_bytes : (n count : ℕ) → length (draw_bytes n count) ≡ count
  unfolding draw_bytes
  length-draw_bytes n zero = refl
  length-draw_bytes n (suc count) = ap suc (length-draw_bytes (suc n) count)

  -- one polynomial for each byte of the secret, the byte first
  unfoldable pub polynomials : ℕ → List Byte → List (List Byte)
  polynomials n [] = []
  polynomials n (b ∷ secret) =
      (b ∷ draw_bytes n (threshold - 1)) ∷ polynomials (n + (threshold - 1)) secret

  pub split_bytes-eq :
      (n : ℕ) (secret : List Byte) (rows : List (List ℕ))
      → length rows ≤ 255
      → split_bytes random threshold n (map value_of secret) rows
        ≡ ok (extend 1 rows (polynomials n secret))
  unfolding split_bytes polynomials
  split_bytes-eq n [] rows h = ap ok (sym (extend-nil 1 rows))
  split_bytes-eq n (b ∷ secret) rows h =
      let p : List Byte = b ∷ draw_bytes n (threshold - 1) in
      let n' : ℕ = n + (threshold - 1) in
      ap
        (λ t. append_values (b.0 ∷ t) 1 rows >>= λ rows'.
          split_bytes random threshold n' (map value_of secret) rows')
        (sym (map-draw_bytes n (threshold - 1)))
      ∙ ap
          (λ (r : Result (List (List ℕ))).
            r >>= λ rows'. split_bytes random threshold n' (map value_of secret) rows')
          (append_values-eq p 1 rows (omega arith))
      ∙ split_bytes-eq n' secret (extend 1 rows (p ∷ []))
          (omega (arith, length-extend 1 rows (p ∷ [])))
      ∙ ap ok (extend-extend 1 rows p (polynomials n' secret))
