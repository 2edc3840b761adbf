-- ===== src/Multisig.antt =====
-- wallet/multisig/multisig.py. Signature recovery, the check of an address and SHA-256 are the parameter
-- `Keys`.
pub mod Signers
pub mod Verify
mod Tests
use piso_chain.Base.{
  ℕ, zero, suc, ◌+◌, ◌-◌, Bool, true, false, ◌||◌, not, Option, none, some, List, [], ◌∷◌, ◌++◌,
  length, drop, map, Text, text_eq, text_key, ltb, leb, ◌==◌, if◌then◌else◌,
}
use piso_chain.Bytes.{Bytes}
use piso_chain.Text.{codes, lower}
use piso_chain.Text.Numbers.{to_digits}
use piso_chain.Text.Hex.{hex}
use piso_chain.Dict.{Dict, insert}

-- `to_checksum_address` of eth_utils, `none` where it raises ValueError; the checksum address of the key
-- that a signature recovers from a hash, `none` where that raises; SHA-256
pub record Keys : Type 0 where
  pub to_checksum_address : Text → Option Text
  pub recovered_address : Bytes → Bytes → Option Text
  pub sha256 : Text → Bytes

pub record MultisigTransaction : Type 0 where
  pub tx_hash : Bytes
  pub target_address : Text
  pub amount : ℕ
  pub payload : Bytes
  pub signatures : Dict Text Bytes

-- `MultisigTransaction(tx_hash, target_address, value, data)`
unfoldable pub init_transaction : Bytes → Text → ℕ → Bytes → MultisigTransaction
init_transaction tx_hash target_address amount payload = record {
  tx_hash = tx_hash;
  target_address = target_address;
  amount = amount;
  payload = payload;
  signatures = [];
}

unfoldable pub add_signature : MultisigTransaction → Text → Bytes → MultisigTransaction
add_signature tx signer_address signature = record tx {
  signatures = insert (lower signer_address) signature tx.signatures;
}

pub record MultisigWallet : Type 0 where
  pub owners : List Text
  pub threshold : ℕ
  pub address : Text

infixl 5 ◌>>=◌
-- `none` is a ValueError.
abbrev pub ◌>>=◌ {ℓ κ} : {A : Type ℓ} {B : Type κ} → Option A → (A → Option B) → Option B
none >>= f = none
some a >>= f = f a

-- `x in items`, for texts
unfoldable pub member : Text → List Text → Bool
member x [] = false
member x (y ∷ items) = if text_eq x y then true else member x items

-- the order of strings
unfoldable pub before : Text → Text → Bool
before [] u = true
before (c ∷ t) [] = false
before (c ∷ t) (d ∷ u) = if c == d then before t u else ltb c d

unfoldable pub insert_sorted : Text → List Text → List Text
insert_sorted x [] = x ∷ []
insert_sorted x (y ∷ items) = if before x y then x ∷ y ∷ items else y ∷ insert_sorted x items

-- `sorted(items)`
unfoldable pub sorted : List Text → List Text
sorted [] = []
sorted (x ∷ items) = insert_sorted x (sorted items)

unfoldable pub concat : List Text → Text
concat [] = []
concat (t ∷ texts) = t ++ concat texts

module _ (keys : Keys) where
  -- `[to_checksum_address(o) for o in owners]`
  unfoldable pub checksum_addresses : List Text → Option (List Text)
  checksum_addresses [] = some []
  checksum_addresses (o ∷ owners) = do
    first ← keys.to_checksum_address o
    rest ← checksum_addresses owners
    some (first ∷ rest)

  -- `address`, of the checksum addresses of the owners
  unfoldable pub multisig_address : List Text → ℕ → Option Text
  multisig_address owners threshold =
      let sorted_owners = sorted (map lower owners) in
      let payload = concat sorted_owners ++ b'-' ∷ to_digits 10 threshold in
      let digest = keys.sha256 payload in
      keys.to_checksum_address (codes "0x" ++ hex (drop (length digest - 20) digest))

  unfoldable pub init_wallet : List Text → ℕ → Option MultisigWallet
  init_wallet owners threshold =
      if ltb threshold 1 || ltb (length owners) threshold then none else (do
        addresses ← checksum_addresses owners
        address ← multisig_address addresses threshold
        some (record { owners = addresses; threshold = threshold; address = address }))

  -- from the `try` on: the signers and the count with a signature of `signer`
  unfoldable pub count_signature : Bytes → Text → Bytes → ℕ → List Text → ℕ × List Text
  count_signature tx_hash signer sig_bytes valid_signatures verified_signers =
      elim (keys.recovered_address sig_bytes tx_hash) [
        | none ↦ (valid_signatures, verified_signers)
        | some recovered ↦
            if text_eq recovered signer
            then (valid_signatures + 1, signer ∷ verified_signers)
            else (valid_signatures, verified_signers)
      ]

  -- the body of the loop, from the tests on the signer
  unfoldable pub check_signature : List Text → Bytes → Text → Bytes → ℕ → List Text → ℕ × List Text
  check_signature owners tx_hash signer sig_bytes valid_signatures verified_signers =
      if not (member signer owners)
      then (valid_signatures, verified_signers)
      else if member signer verified_signers
      then (valid_signatures, verified_signers)
      else count_signature tx_hash signer sig_bytes valid_signatures verified_signers

  -- `for signer_addr_lower, sig_bytes in tx.signatures.items()`
  unfoldable pub count_signatures : List Text → Bytes → Dict Text Bytes → ℕ → List Text → Option ℕ
  count_signatures owners tx_hash [] valid_signatures verified_signers = some valid_signatures
  count_signatures owners tx_hash ((signer_addr_lower, sig_bytes) ∷ items) valid_signatures
        verified_signers =
      do
        signer ← keys.to_checksum_address signer_addr_lower
        let next = check_signature owners tx_hash signer sig_bytes valid_signatures verified_signers
        count_signatures owners tx_hash items next.0 next.1

  unfoldable pub verify_transaction : MultisigWallet → MultisigTransaction → Option Bool
  verify_transaction wallet tx = do
    valid_signatures ← count_signatures wallet.owners tx.tx_hash tx.signatures 0 []
    some (leb wallet.threshold valid_signatures)
