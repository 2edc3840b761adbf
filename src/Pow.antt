-- ===== src/Pow.antt =====
-- core/pow.py. The hashes are a parameter, `Hashing`; the times and rates of the report are left out.
pub mod Target
pub mod Mine
mod Tests
use piso_chain.Base.{
  ℕ, zero, suc, ◌+◌, ◌-◌, ◌*◌, ◌/◌, ◌^◌, ◌<◌, ◌≤◌, Bool, true, false, ◌&&◌, ◌||◌, Option, none,
  some, List, [], ◌∷◌, ◌++◌, length, replicate, Text, text_eq, ltb, leb, ◌==◌, if◌then◌else◌,
}
use piso_chain.Int.{ℤ, pos, negsuc}
use piso_chain.Bytes.{Bytes, from_bytes, to_bytes}
use piso_chain.Text.{codes, without_0x}
use piso_chain.Text.Numbers.{to_digits}
use piso_chain.Text.Hex.{hex, fromhex}

abbrev pub max_uint256 : ℕ
max_uint256 = 2 ^ 256 - 1

unfoldable pub difficulty_to_target : ℤ → ℕ
difficulty_to_target (negsuc n) = max_uint256
difficulty_to_target (pos difficulty_bits) =
    if difficulty_bits == 0
    then max_uint256
    else if leb 256 difficulty_bits
    then 0
    else max_uint256 / 2 ^ difficulty_bits

-- what `compute_hash` raises: ValueError, OverflowError, or an error of Web3
pub data Error : Type 0 where
  value_error overflow_error web3_error : Error

pub data Result {ℓ} (A : Type ℓ) : Type ℓ where
  ok : A → Result A
  err : Error → Result A

infixl 5 ◌>>=◌
abbrev pub ◌>>=◌ {ℓ κ} : {A : Type ℓ} {B : Type κ} → Result A → (A → Result B) → Result B
ok a >>= f = f a
err e >>= f = err e

abbrev pub or_raise {ℓ} : {A : Type ℓ} → Error → Option A → Result A
or_raise e none = err e
or_raise e (some a) = ok a

-- Whether web3 is installed, `Web3.to_checksum_address`, the packed Keccak hash of a challenge, an
-- address and a nonce, and SHA-256
pub record Hashing : Type 0 where
  pub has_web3 : Bool
  pub to_checksum_address : Text → Option Text
  pub solidity_keccak : Bytes → Text → ℕ → Option Bytes
  pub sha256 : Bytes → Bytes

-- `s.zfill(width)`: the zeros stand behind a sign
unfoldable pub zfill : ℕ → Text → Text
zfill width [] = replicate width b'0'
zfill width (c ∷ t) =
    let zeros = replicate (width - length (c ∷ t)) b'0' in
    if c == b'+' || c == b'-' then c ∷ (zeros ++ t) else zeros ++ c ∷ t

module _ (hashing : Hashing) where
  -- the branch of SHA-256
  unfoldable pub fallback_hash : Bytes → Text → ℕ → Result Bytes
  fallback_hash ch_bytes miner_address nonce = do
    miner_bytes ← or_raise Error.value_error (fromhex (zfill 40 (without_0x miner_address)))
    nonce_bytes ← or_raise Error.overflow_error (to_bytes 32 nonce)
    ok (hashing.sha256 (ch_bytes ++ (miner_bytes ++ nonce_bytes)))

  -- from the test on `algo`
  unfoldable pub hash_with : Text → Bytes → Text → ℕ → Result Bytes
  hash_with algo ch_bytes miner_address nonce =
      if text_eq algo (codes "keccak256") && hashing.has_web3
      then (do
        miner_clean ← or_raise Error.web3_error (hashing.to_checksum_address miner_address)
        or_raise Error.web3_error (hashing.solidity_keccak ch_bytes miner_clean nonce))
      else fallback_hash ch_bytes miner_address nonce

  unfoldable pub compute_hash : Text → Text → ℕ → Text → Result Bytes
  compute_hash challenge_hash_hex miner_address nonce algo = do
    ch_bytes ← or_raise Error.value_error (fromhex (zfill 64 (without_0x challenge_hash_hex)))
    hash_with algo ch_bytes miner_address nonce

-- the entries of the reports of `mine`, but for the times
pub record Success : Type 0 where
  pub nonce : ℕ
  pub hash : Text
  pub hash_int : Text
  pub target_int : Text
  pub difficulty_bits : ℤ
  pub hashes_computed : ℕ

pub record Failure : Type 0 where
  pub difficulty_bits : ℤ
  pub hashes_computed : ℕ

pub data Report : Type 0 where
  success : Success → Report
  failure : Failure → Report

-- `hex(n)`
abbrev pub hex_number : ℕ → Text
hex_number n = codes "0x" ++ to_digits 16 n

abbrev report_success : Bytes → ℕ → ℕ → ℤ → ℕ → Report
report_success h_bytes target nonce difficulty_bits hashes_count = Report.success (record {
  nonce = nonce;
  hash = codes "0x" ++ hex h_bytes;
  hash_int = hex_number (from_bytes h_bytes);
  target_int = hex_number target;
  difficulty_bits = difficulty_bits;
  hashes_computed = hashes_count;
})

module _ (hashing : Hashing) (algo : Text) where
  unfoldable pub verify_proof : Text → ℕ → Text → ℤ → Result Bool
  verify_proof challenge_hash nonce miner_address difficulty_bits = do
    h_bytes ← compute_hash hashing challenge_hash miner_address nonce algo
    ok (leb (from_bytes h_bytes) (difficulty_to_target difficulty_bits))

  -- `while hashes_count < max_iterations`: the rounds left, `hashes_count` and `nonce`
  unfoldable pub mine_from : Text → Text → ℤ → ℕ → ℕ → ℕ → Result Report
  mine_from challenge_hash miner_address difficulty_bits zero hashes_count nonce = ok (
      Report.failure (record { difficulty_bits = difficulty_bits; hashes_computed = hashes_count }))
  mine_from challenge_hash miner_address difficulty_bits (suc rounds) hashes_count nonce = do
    h_bytes ← compute_hash hashing challenge_hash miner_address nonce algo
    let target = difficulty_to_target difficulty_bits
    elim (leb (from_bytes h_bytes) target) [
      | true ↦ ok (report_success h_bytes target nonce difficulty_bits (hashes_count + 1))
      | false ↦
          mine_from challenge_hash miner_address difficulty_bits rounds (hashes_count + 1)
            (nonce + 1)
    ]

  unfoldable pub mine : Text → Text → ℤ → ℕ → ℕ → Result Report
  mine challenge_hash miner_address difficulty_bits start_nonce max_iterations =
      mine_from challenge_hash miner_address difficulty_bits max_iterations 0 start_nonce
