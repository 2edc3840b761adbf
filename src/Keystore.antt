-- ===== src/Keystore.antt =====
-- wallet/encryption/keystore.py. The random salt, nonce and id are arguments, and PBKDF2, SHA-256 and AES
-- are the parameter `Cipher`.
pub mod RoundTrip
pub mod Tests
use piso_chain.Base.{
  ℕ, zero, suc, ◌+◌, ◌-◌, Bool, true, false, Option, none, some, List, [], ◌∷◌, ◌++◌, take, drop,
  replicate, length, Text, text_eq, ◌==◌, if◌then◌else◌,
}
use piso_chain.Bytes.{Bytes}
use piso_chain.Text.{codes, lower, without_0x}
use piso_chain.Text.Hex.{hex, fromhex}
use piso_chain.Outcome.{Result, ok, err, ◌>>=◌, or_raise}

-- PBKDF2 of a password, a salt and a number of rounds, of 32 bytes; SHA-256; AES in GCM, which encrypts
-- under a key and a nonce to a text and a tag, and decrypts these, `none` where the tag does not fit; AES
-- in CTR, which decrypts
pub record Cipher : Type 0 where
  pub pbkdf2 : Text → Bytes → ℕ → Bytes
  pub sha256 : Bytes → Bytes
  pub gcm_encrypt : Bytes → Bytes → Bytes → Bytes × Bytes
  pub gcm_decrypt : Bytes → Bytes → Bytes → Bytes → Option Bytes
  pub ctr_decrypt : Bytes → Bytes → Bytes → Bytes

-- The ValueErrors, by where they come from, and the KeyError of a key.
pub data Error : Type 0 where
  missing_crypto invalid_mac not_hex invalid_tag : Error
  key_error : Text → Error

-- The object "crypto" with those inside it: each key may be missing.
pub record CryptoObject : Type 0 where
  pub cipher : Option Text
  pub ciphertext : Option Text
  pub iv : Option Text
  pub mac : Option Text
  pub tag : Option Text
  pub salt : Option Text
  pub c : Option ℕ

-- A keystore: `crypto` under its two spellings, `none` where it is missing or empty.
pub record KeystoreData : Type 0 where
  pub version : ℕ
  pub id : Text
  pub address : Text
  pub crypto : Option CryptoObject
  pub upper_crypto : Option CryptoObject

-- `zeroize_buffer`
unfoldable pub zeroize_buffer : Bytes → Bytes
zeroize_buffer [] = []
zeroize_buffer (b ∷ buf) = 0 ∷ zeroize_buffer buf

abbrev pub kdf_rounds : ℕ
kdf_rounds = 262144

abbrev pub or_default {ℓ} : {A : Type ℓ} → A → Option A → A
or_default default none = default
or_default default (some a) = a

-- `a or b`, of an object and another
abbrev pub either : Option CryptoObject → Option CryptoObject → Option CryptoObject
either none other = other
either (some crypto) other = some crypto

unfoldable pub starts_with : Text → Text → Bool
starts_with [] t = true
starts_with (c ∷ part) [] = false
starts_with (c ∷ part) (d ∷ t) = if c == d then starts_with part t else false

-- `part in t`
unfoldable pub occurs_in : Text → Text → Bool
occurs_in part [] = starts_with part []
occurs_in part (c ∷ t) =
    let rest = occurs_in part t in if starts_with part (c ∷ t) then true else rest

-- `bytes.fromhex(crypto[key])`
abbrev pub bytes_at : Text → Option Text → Result Error Bytes
bytes_at key value = do
  hex_text ← or_raise (key_error key) value
  or_raise not_hex (fromhex hex_text)

-- `bytes.fromhex(tag_hex) if tag_hex else b""`
unfoldable pub tag_bytes : Option Text → Result Error Bytes
tag_bytes none = ok []
tag_bytes (some []) = ok []
tag_bytes (some (c ∷ t)) = or_raise not_hex (fromhex (c ∷ t))

-- `if not hmac.compare_digest(…): raise`
abbrev pub if_mac_fits : Bool → Result Error Bytes → Result Error Bytes
if_mac_fits true rest = rest
if_mac_fits false rest = err invalid_mac

module _ (cipher : Cipher) where
  -- the hexadecimal SHA-256 of the second half of the derived key and the ciphertext
  unfoldable pub mac_of : Bytes → Bytes → Text
  mac_of derived_key ciphertext = hex (cipher.sha256 (take 16 (drop 16 derived_key) ++ ciphertext))

  unfoldable pub encrypt_private_key : Bytes → Bytes → Text → Bytes → Text → Text → KeystoreData
  encrypt_private_key salt iv id private_key_bytes password address =
      let derived_key = cipher.pbkdf2 password salt kdf_rounds in
      let (ciphertext, tag) = cipher.gcm_encrypt (take 16 derived_key) iv private_key_bytes in
      record {
        version = 3;
        id = id;
        address = lower (without_0x address);
        crypto = some (record {
          cipher = some (codes "aes-256-gcm");
          ciphertext = some (hex ciphertext);
          iv = some (hex iv);
          mac = some (mac_of derived_key ciphertext);
          tag = some (hex tag);
          salt = some (hex salt);
          c = some kdf_rounds;
        });
        upper_crypto = none;
      }

  -- from the test on the cipher's name
  unfoldable pub decrypt_with : Text → Bytes → Bytes → Bytes → Option Text → Result Error Bytes
  decrypt_with cipher_name derived_key iv_bytes ciphertext_bytes tag_hex =
      if occurs_in (codes "gcm") cipher_name
      then (do
        tag ← tag_bytes tag_hex
        or_raise invalid_tag
            (cipher.gcm_decrypt (take 16 derived_key) iv_bytes ciphertext_bytes tag))
      else ok (cipher.ctr_decrypt (take 16 derived_key) (take 8 iv_bytes) ciphertext_bytes)

  unfoldable pub decrypt_keystore : KeystoreData → Text → Result Error Bytes
  decrypt_keystore keystore_json password = do
    crypto ← or_raise missing_crypto (either keystore_json.crypto keystore_json.upper_crypto)
    let cipher_name = lower (or_default [] crypto.cipher)
    ciphertext_bytes ← bytes_at (codes "ciphertext") crypto.ciphertext
    iv_bytes ← bytes_at (codes "iv") crypto.iv
    mac_expected ← or_raise (key_error (codes "mac")) crypto.mac
    salt_bytes ← bytes_at (codes "salt") crypto.salt
    let derived_key = cipher.pbkdf2 password salt_bytes (or_default kdf_rounds crypto.c)
    if_mac_fits (text_eq (mac_of derived_key ciphertext_bytes) mac_expected)
        (decrypt_with cipher_name derived_key iv_bytes ciphertext_bytes crypto.tag)
