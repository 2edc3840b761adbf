-- ===== src/Recovery.antt =====
-- wallet/recovery/recovery.py: accounts back from a mnemonic or a keystore. The recovery from share texts is
-- in Slip39.ShareText.
pub mod Backup
mod Tests
use piso_chain.Base.{ℕ, Text}
use piso_chain.Bytes.{Bytes}
use piso_chain.Text.{codes}
use piso_chain.Outcome.{Result, ok, err, ◌>>=◌}
use piso_chain.Derivation.{build_path}
use piso_chain.HdWallet
use piso_chain.HdWallet.{Crypto, HdNode, from_seed, derive_path}
use piso_chain.Mnemonic
use piso_chain.Mnemonic.{to_seed}
use piso_chain.Keystore
use piso_chain.Keystore.{Cipher, KeystoreData, decrypt_keystore}
use piso_chain.Accounts
use piso_chain.Accounts.{EthKeys, Account, init_account, from_hdnode}

-- What the parts raise.
pub data Error : Type 0 where
  of_mnemonic : Mnemonic.Error → Error
  of_node : HdWallet.Error → Error
  of_keystore : Keystore.Error → Error
  of_account : Accounts.Error → Error

abbrev pub mnemonic_outcome : {A : Type 0} → Mnemonic.Result A → Result Error A
mnemonic_outcome (Mnemonic.ok a) = ok a
mnemonic_outcome (Mnemonic.err e) = err (of_mnemonic e)

abbrev pub node_outcome : {A : Type 0} → HdWallet.Result A → Result Error A
node_outcome (HdWallet.ok a) = ok a
node_outcome (HdWallet.err e) = err (of_node e)

abbrev pub with_error : {E A : Type 0} → (E → Error) → Result E A → Result Error A
with_error f (ok a) = ok a
with_error f (err e) = err (f e)

-- `sha256` and `pbkdf2` are those of the mnemonics.
unfoldable pub recover_from_mnemonic :
    (Bytes → Bytes)
    → (Text → Text → Bytes)
    → Crypto
    → EthKeys
    → Text
    → Text
    → ℕ
    → ℕ
    → ℕ
    → Result Error Account
recover_from_mnemonic sha256 pbkdf2 crypto keys mnemonic passphrase coin_type account_idx
      address_idx =
    do
      seed ← mnemonic_outcome (to_seed sha256 pbkdf2 mnemonic passphrase)
      master ← node_outcome (from_seed crypto seed (codes "secp256k1"))
      let path = build_path coin_type account_idx 0 address_idx
      child ← node_outcome (derive_path crypto master path)
      with_error of_account (from_hdnode keys child)

unfoldable pub recover_from_keystore : Cipher → EthKeys → KeystoreData → Text → Result Error Account
recover_from_keystore cipher keys keystore_json password = do
  pk_bytes ← with_error of_keystore (decrypt_keystore cipher keystore_json password)
  with_error of_account (init_account keys pk_bytes (codes "secp256k1"))
