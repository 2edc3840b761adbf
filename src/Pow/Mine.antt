-- ===== src/Pow/Mine.antt =====
-- What `mine` reports.
use native.Mathlib.Decide.{dec_le}
use piso_chain.Base.{ℕ, zero, suc, ◌+◌, ◌<◌, ◌≤◌, ◌≡◌, refl, Bool, true, false, Text, arith, leb}
use piso_chain.Int.{ℤ, ◌≤ℤ◌}
use piso_chain.Bytes.{Bytes, from_bytes}
use piso_chain.Pow.{
  Hashing, Result, ok, err, ◌>>=◌, Report, success, failure, report_success, compute_hash,
  difficulty_to_target, verify_proof, mine_from, mine,
}
use piso_chain.Pow.Target.{difficulty_to_target_antitone}

module _ (hashing : Hashing) (algo challenge_hash miner_address : Text) (difficulty_bits : ℤ) where
  abbrev pub verified : ℕ → Result Bool
  verified nonce = verify_proof hashing algo challenge_hash nonce miner_address difficulty_bits

  -- A success has the first nonce from the start on that is verified, among those allowed, and the count
  -- of hashes up to it; a failure has them all refused; an error is that of the first hash that raises,
  -- after nonces that are refused.
  abbrev pub MineResult : ℕ → ℕ → ℕ → Result Report → Type 0
  MineResult start before rounds (ok (success r)) =
      (start ≤ r.nonce)
      × (r.nonce < start + rounds)
      × (r.hashes_computed + start ≡ before + r.nonce + 1)
      × (verified r.nonce ≡ ok true)
      × ((n : ℕ) → start ≤ n → n < r.nonce → verified n ≡ ok false)
  MineResult start before rounds (ok (failure r)) =
      (r.hashes_computed ≡ before + rounds)
      × ((n : ℕ) → start ≤ n → n < start + rounds → verified n ≡ ok false)
  MineResult start before rounds (err e) =
      (n : ℕ) × (start ≤ n)
      × (n < start + rounds)
      × (verified n ≡ err e)
      × ((m : ℕ) → start ≤ m → m < n → verified m ≡ ok false)

  -- A refused nonce in front
  refused_first :
      (start before rounds : ℕ) (r : Result Report)
      → verified start ≡ ok false
      → MineResult (start + 1) (before + 1) rounds r
      → MineResult start before (suc rounds) r
  refused_first start before rounds (ok (success r)) v (a, b, n, t, f) =
      (omega arith, omega arith, omega arith, t, λ m p q. earlier m p q)
    where
      earlier : (m : ℕ) → start ≤ m → m < r.nonce → verified m ≡ ok false
      earlier m p q = elim (dec_le (start + 1) m) [
        | yes h ↦ f m h q
        | no h ↦ (let same : m ≡ start = omega arith in rw same v)
      ]
  refused_first start before rounds (ok (failure r)) v (a, f) =
      (omega arith, λ m p q. earlier m p q)
    where
      earlier : (m : ℕ) → start ≤ m → m < start + suc rounds → verified m ≡ ok false
      earlier m p q = elim (dec_le (start + 1) m) [
        | yes h ↦ f m h (omega arith)
        | no h ↦ (let same : m ≡ start = omega arith in rw same v)
      ]
  refused_first start before rounds (err e) v (n, a, b, x, f) =
      (n, omega arith, omega arith, x, λ m p q. earlier m p q)
    where
      earlier : (m : ℕ) → start ≤ m → m < n → verified m ≡ ok false
      earlier m p q = elim (dec_le (start + 1) m) [
        | yes h ↦ f m h q
        | no h ↦ (let same : m ≡ start = omega arith in rw same v)
      ]

  abbrev tested : Result Bytes → Result Bool
  tested h = h >>= λ h_bytes. ok (leb (from_bytes h_bytes) (difficulty_to_target difficulty_bits))

  mine_from_result :
      (rounds before start : ℕ)
      → MineResult start before rounds
          (mine_from hashing algo challenge_hash miner_address difficulty_bits rounds before start)
  unfolding mine_from
  mine_from_result zero before start = (omega arith, λ n p q. absurd (omega arith))
  mine_from_result (suc rounds) before start =
      step (compute_hash hashing challenge_hash miner_address start algo)
        (unfold verify_proof in refl)
        (λ v.
          refused_first start before rounds
            (mine_from hashing algo challenge_hash miner_address difficulty_bits rounds (before + 1)
              (start + 1))
            v (mine_from_result rounds (before + 1) (start + 1)))
    where
      next : Result Report
      next =
          mine_from hashing algo challenge_hash miner_address difficulty_bits rounds (before + 1)
            (start + 1)

      decided :
          (h_bytes : Bytes) (met : Bool)
          → verified start ≡ ok met
          → (verified start ≡ ok false → MineResult start before (suc rounds) next)
          → MineResult start before (suc rounds) (elim met [
            | true ↦ ok (
                report_success h_bytes
                  (difficulty_to_target difficulty_bits)
                  start
                  difficulty_bits
                  (before + 1))
            | false ↦ next
          ])
      decided h_bytes true v k =
          (omega arith, omega arith, omega arith, v, λ n p q. absurd (omega arith))
      decided h_bytes false v k = k v

      step :
          (h : Result Bytes)
          → verified start ≡ tested h
          → (verified start ≡ ok false → MineResult start before (suc rounds) next)
          → MineResult start before (suc rounds) (
              h >>= λ h_bytes.
              elim (leb (from_bytes h_bytes) (difficulty_to_target difficulty_bits)) [
                | true ↦ ok (
                    report_success h_bytes
                      (difficulty_to_target difficulty_bits)
                      start
                      difficulty_bits
                      (before + 1))
                | false ↦ next
              ])
      step (ok h_bytes) v k =
          decided h_bytes (leb (from_bytes h_bytes) (difficulty_to_target difficulty_bits)) v k
      step (err e) v k = (start, omega arith, omega arith, v, λ m p q. absurd (omega arith))

  -- Within its limit `mine` ends with the first nonce from the start on that `verify_proof` accepts, and
  -- the number of nonces tried; if the limit has none, with a failure and the limit, all of its nonces
  -- being refused; and it raises only what `verify_proof` raises for the first nonce that is not refused.
  pub mine_result :
      (start_nonce max_iterations : ℕ)
      → MineResult start_nonce 0 max_iterations (
          mine hashing algo challenge_hash miner_address difficulty_bits start_nonce max_iterations)
  unfolding mine
  mine_result start_nonce max_iterations = mine_from_result max_iterations 0 start_nonce

-- A proof that is accepted is accepted at every lower difficulty.
pub verify_proof_antitone :
    (hashing : Hashing) (algo challenge_hash : Text) (nonce : ℕ) (miner_address : Text) (d d' : ℤ)
    → d ≤ℤ d'
    → verify_proof hashing algo challenge_hash nonce miner_address d' ≡ ok true
    → verify_proof hashing algo challenge_hash nonce miner_address d ≡ ok true
unfolding verify_proof
verify_proof_antitone hashing algo challenge_hash nonce miner_address d d' h v =
    of_hash (compute_hash hashing challenge_hash miner_address nonce algo) v
  where
    of_hash :
        (r : Result Bytes)
        → (r >>= λ b. ok (leb (from_bytes b) (difficulty_to_target d'))) ≡ ok true
        → (r >>= λ b. ok (leb (from_bytes b) (difficulty_to_target d))) ≡ ok true
    of_hash (ok b) v = ground (arith, difficulty_to_target_antitone d d' h)
    of_hash (err e) v = cc
