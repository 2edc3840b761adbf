-- ===== src/Accounts.antt =====
-- wallet/account/account.py. The key library and hashlib are the parameter `EthKeys`.
pub mod Signer
pub mod ValidatorKey
pub mod Verify
pub mod Roles
mod Tests
use piso_chain.Base.{
  ℕ, Bool, true, false, not, Option, none, some, List, [], ◌∷◌, ◌++◌, length, take, Text, text_eq,
  ◌==◌, if◌then◌else◌,
}
use piso_chain.Bytes.{Bytes}
use piso_chain.Text.{codes, lower, without_0x}
use piso_chain.Text.Hex.{hex, fromhex}
use piso_chain.Outcome.{Result, ok, err, ◌>>=◌, or_raise}
use piso_chain.HdWallet.{HdNode}

-- The public key of a private key, `none` where eth_keys refuses it; its `to_hex` and checksum address;
-- the signature of a hash, and the public key that a signature recovers from a hash, `none` where that
-- raises; the digests
pub record EthKeys : Type 0 where
  pub public_key : Bytes → Option Bytes
  pub key_to_hex : Bytes → Text
  pub checksum_address : Bytes → Text
  pub sign_msg_hash : Bytes → Bytes → Bytes
  pub recovered_key : Bytes → Bytes → Option Bytes
  pub sha256 : Bytes → Bytes
  pub sha512 : Bytes → Bytes

-- What eth_keys raises, the AttributeError of `hashlib.ripemd160`, which hashlib lacks, the ValueErrors of the module, and those of `fromhex`.
pub data Error : Type 0 where
  key_refused no_ripemd160 unsupported_curve hash_length not_hex : Error

-- An account of either curve, with the public key of its curve.
pub record Account : Type 0 where
  pub private_key_bytes : Bytes
  pub curve : Text
  pub public_key : Bytes
  pub address : Text

abbrev pub secp256k1 : Text
secp256k1 = codes "secp256k1"

abbrev pub ed25519 : Text
ed25519 = codes "ed25519"

-- `private_key_hex`
unfoldable pub private_key_hex : Account → Text
private_key_hex account = codes "0x" ++ hex account.private_key_bytes

-- `recovered == expected`, false where the recovery raised
abbrev pub is_key : Option Bytes → Bytes → Bool
is_key none public_key = false
is_key (some recovered) public_key = text_eq recovered public_key

module _ (keys : EthKeys) where
  unfoldable pub init_account : Bytes → Text → Result Error Account
  init_account private_key_bytes curve_name =
      let curve = lower curve_name in
      if text_eq curve secp256k1
      then (do
        public_key ← or_raise key_refused (keys.public_key private_key_bytes)
        ok (record {
          private_key_bytes = private_key_bytes;
          curve = curve;
          public_key = public_key;
          address = keys.checksum_address public_key;
        }))
      else if text_eq curve ed25519
      then err no_ripemd160
      else err unsupported_curve

  unfoldable pub public_key_hex : Account → Text
  public_key_hex account =
      if text_eq account.curve secp256k1
      then codes "0x" ++ keys.key_to_hex account.public_key
      else codes "0x" ++ hex account.public_key

  unfoldable pub from_hdnode : HdNode → Result Error Account
  from_hdnode node = init_account node.private_key node.curve

  unfoldable pub from_hex : Text → Text → Result Error Account
  from_hex private_key_text curve = do
    pk_bytes ← or_raise not_hex (fromhex (without_0x private_key_text))
    init_account pk_bytes curve

  unfoldable pub sign_hash : Account → Bytes → Result Error Bytes
  sign_hash account message_hash =
      if not (length message_hash == 32)
      then err hash_length
      else if text_eq account.curve secp256k1
      then ok (keys.sign_msg_hash account.private_key_bytes message_hash)
      else ok (take 64 (keys.sha512 (account.private_key_bytes ++ message_hash)))

  unfoldable pub verify_signature : Account → Bytes → Bytes → Bool
  verify_signature account message_hash signature_bytes =
      if text_eq account.curve secp256k1
      then is_key (keys.recovered_key signature_bytes message_hash) account.public_key
      else true
