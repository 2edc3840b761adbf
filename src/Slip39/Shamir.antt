-- ===== src/Slip39/Shamir.antt =====
-- `Share` and `ShamirSecretSharing` of wallet/slip39/shamir.py. Indices, thresholds and counts are
-- naturals; `random n` is the byte of the n-th call of `os.urandom(1)`.
pub mod Sum
pub mod Split
pub mod Shares
pub mod Subset
pub mod Combine
pub mod Limits
pub mod ShareBytes
use piso_chain.Base.{
  ℕ, suc, zero, ◌+◌, ◌-◌, Option, none, some, List, [], ◌∷◌, ◌++◌, length, take, get_elem?,
  replicate, ◌||◌, ◌==◌, ltb, if◌then◌else◌,
}
use piso_chain.Slip39.Errors.{Result, ok, err, Error, ◌>>=◌}
use piso_chain.Slip39.Gf256.{add, mul, div}

pub record Share : Type 0 where
  pub index : ℕ
  pub bytes : List ℕ
  pub threshold : ℕ

-- `for coeff in poly`: the value of the polynomial at `x`, with `y` and `x_pow` so far
unfoldable pub evaluate : ℕ → List ℕ → ℕ → ℕ → Result ℕ
evaluate x [] y x_pow = ok y
evaluate x (coeff ∷ poly) y x_pow = do
  term ← mul coeff x_pow
  x_pow' ← mul x_pow x
  evaluate x poly (add y term) x_pow'

-- `for i in range(1, total_shares + 1)`, over the rows of `shares_data` from `i` on
unfoldable pub append_values : List ℕ → ℕ → List (List ℕ) → Result (List (List ℕ))
append_values poly i [] = ok []
append_values poly i (row ∷ rows) = do
  y ← evaluate i poly 0 1
  rest ← append_values poly (suc i) rows
  ok ((row ++ y ∷ []) ∷ rest)

-- `[os.urandom(1)[0] for _ in range(count)]`, from the n-th call on
unfoldable pub draw : (ℕ → ℕ) → ℕ → ℕ → List ℕ
draw random n zero = []
draw random n (suc count) = random n ∷ draw random (suc n) count

-- `for b in secret`
unfoldable pub split_bytes : (ℕ → ℕ) → ℕ → ℕ → List ℕ → List (List ℕ) → Result (List (List ℕ))
split_bytes random threshold n [] rows = ok rows
split_bytes random threshold n (b ∷ secret) rows = do
  rows' ← append_values (b ∷ draw random n (threshold - 1)) 1 rows
  split_bytes random threshold (n + (threshold - 1)) secret rows'

unfoldable pub make_shares : ℕ → ℕ → List (List ℕ) → List Share
make_shares threshold i [] = []
make_shares threshold i (row ∷ rows) =
    record { index = i; bytes = row; threshold = threshold } ∷ make_shares threshold (suc i) rows

unfoldable pub split : (ℕ → ℕ) → List ℕ → ℕ → ℕ → Result (List Share)
split random secret threshold total_shares =
    if ltb threshold 1 || ltb total_shares threshold
    then err Error.value_error
    else if ltb 254 total_shares
    then err Error.value_error
    else do
      rows ← split_bytes random threshold 0 secret (replicate total_shares [])
      ok (make_shares threshold 1 rows)

abbrev pub Fraction : Type 0
Fraction = ℕ × ℕ

-- the body of `for j, share_j in enumerate(subset)`
unfoldable pub multiply_by : ℕ → ℕ → ℕ → ℕ → Fraction → Result Fraction
multiply_by xi i j xj (num, den) =
    if i == j then ok (num, den) else do n ← mul num xj; d ← mul den (add xi xj); ok (n, d)

unfoldable pub lagrange_fraction : ℕ → ℕ → ℕ → List Share → Fraction → Result Fraction
unfolding multiply_by
lagrange_fraction xi i j [] acc = ok acc
lagrange_fraction xi i j (share_j ∷ shares) acc = do
  acc' ← multiply_by xi i j share_j.index acc
  lagrange_fraction xi i (suc j) shares acc'

-- `data[byte_idx]`
unfoldable pub byte_at : ℕ → List ℕ → Result ℕ
byte_at byte_idx bytes = elim (get_elem? bytes byte_idx) [
  | none ↦ err Error.index_error
  | some b ↦ ok b
]

-- `for i, share_i in enumerate(subset)`, over the shares from `i` on
unfoldable pub sum_terms : List Share → ℕ → ℕ → List Share → ℕ → Result ℕ
sum_terms subset byte_idx i [] value = ok value
sum_terms subset byte_idx i (share_i ∷ shares) value = do
  yi ← byte_at byte_idx share_i.bytes
  fraction ← lagrange_fraction share_i.index i 0 subset (1, 1)
  lagrange_weight ← div fraction.0 fraction.1
  term ← mul yi lagrange_weight
  sum_terms subset byte_idx (suc i) shares (add value term)

-- `for byte_idx in range(secret_len)`: the rounds left and `byte_idx`
unfoldable pub combine_bytes : List Share → ℕ → ℕ → Result (List ℕ)
combine_bytes subset zero byte_idx = ok []
combine_bytes subset (suc rounds) byte_idx = do
  value ← sum_terms subset byte_idx 0 subset 0
  rest ← combine_bytes subset rounds (suc byte_idx)
  ok (value ∷ rest)

-- from `secret_len = len(subset[0].data)`
unfoldable pub combine_subset : List Share → Result (List ℕ)
combine_subset [] = err Error.index_error
combine_subset (share ∷ shares) = combine_bytes (share ∷ shares) (length share.bytes) 0

unfoldable pub combine : List Share → Result (List ℕ)
combine [] = err Error.value_error
combine (share ∷ shares) =
    if ltb (length (share ∷ shares)) share.threshold
    then err Error.value_error
    else combine_subset (take share.threshold (share ∷ shares))
