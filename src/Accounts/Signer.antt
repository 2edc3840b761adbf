-- ===== src/Accounts/Signer.antt =====
-- wallet/crypto/signer.py: the two implementations of `Signer`. A key that is generated is an argument.
use piso_chain.Base.{
  Bool, not, Option, none, some, [], ◌∷◌, ◌++◌, length, take, Text, text_eq, ◌==◌, if◌then◌else◌,
}
use piso_chain.Bytes.{Bytes}
use piso_chain.Text.{codes}
use piso_chain.Outcome.{Result, ok, err, ◌>>=◌, or_raise}
use piso_chain.Accounts.{EthKeys, Error, key_refused, no_ripemd160, is_key}

pub record Secp256k1Signer : Type 0 where
  pub private_key : Bytes
  pub public_key : Bytes

pub record Ed25519Signer : Type 0 where
  pub private_key : Bytes
  pub public_key : Bytes

-- `private_key or self.generate_key()`
abbrev pub or_generated : Option Bytes → Bytes → Bytes
or_generated none generated = generated
or_generated (some []) generated = generated
or_generated (some (b ∷ key)) generated = b ∷ key

module _ (keys : EthKeys) where
  unfoldable pub init_secp256k1 : Option Bytes → Bytes → Result Error Secp256k1Signer
  init_secp256k1 private_key generated = do
    let key = or_generated private_key generated
    public_key ← or_raise key_refused (keys.public_key key)
    ok (record { private_key = key; public_key = public_key })

  -- `msg_hash`
  unfoldable pub message_digest : Bytes → Bytes
  message_digest message = if not (length message == 32) then keys.sha256 message else message

  unfoldable pub secp256k1_sign : Secp256k1Signer → Bytes → Bytes
  secp256k1_sign signer message = keys.sign_msg_hash signer.private_key (message_digest message)

  -- A public key that the key library refuses is no key that a signature recovers.
  unfoldable pub secp256k1_verify : Bytes → Bytes → Bytes → Bool
  secp256k1_verify message signature public_key =
      is_key (keys.recovered_key signature (message_digest message)) public_key

  unfoldable pub secp256k1_address : Secp256k1Signer → Text
  secp256k1_address signer = keys.checksum_address signer.public_key

  unfoldable pub init_ed25519 : Option Bytes → Bytes → Ed25519Signer
  init_ed25519 private_key generated =
      let key = or_generated private_key generated in
      record { private_key = key; public_key = keys.sha256 (codes "ed25519:" ++ key) }

  unfoldable pub ed25519_sign : Ed25519Signer → Bytes → Bytes
  ed25519_sign signer message = take 64 (keys.sha512 (signer.private_key ++ message))

  unfoldable pub ed25519_verify : Ed25519Signer → Bytes → Bytes → Bytes → Bool
  ed25519_verify signer message signature public_key =
      text_eq signature (take 64 (keys.sha512 (signer.private_key ++ message)))

-- `hashlib.ripemd160` is no attribute of hashlib, so there is no address.
unfoldable pub ed25519_address : Ed25519Signer → Result Error Text
ed25519_address signer = err no_ripemd160
