-- ===== src/Keystore/Tests.antt =====
-- A keystore under simple functions for the ciphers: the derived key is the password.
use piso_chain.Base.{◌≡◌, ◌≢◌, refl, none, some, [], ◌∷◌, take, arith, Text}
use piso_chain.Text.{codes, lower, without_0x}
use piso_chain.Outcome.{ok, err}
use piso_chain.Keystore.{
  Cipher, missing_crypto, invalid_mac, kdf_rounds, mac_of, encrypt_private_key, decrypt_keystore,
}
use piso_chain.Keystore.RoundTrip.{Works, decrypt_keystore-encrypt_private_key}

-- GCM that leaves the text as it is, without a tag
abbrev pub cipher : Cipher
cipher = record {
  pbkdf2 = λ password salt rounds. password;
  sha256 = λ data_bytes. take 2 data_bytes;
  gcm_encrypt = λ key nonce data_bytes. (data_bytes, []);
  gcm_decrypt = λ key nonce ciphertext tag. some ciphertext;
  ctr_decrypt = λ key nonce ciphertext. ciphertext;
}

no_crypto :
    decrypt_keystore cipher
      (record { version = 3; id = []; address = []; crypto = none; upper_crypto = none })
      []
    ≡ err missing_crypto
unfolding decrypt_keystore
no_crypto = refl

address_of_keystore :
    (encrypt_private_key cipher [] [] [] (1 ∷ []) (codes "pw") (codes "0xAB")).address ≡ codes "ab"
unfolding encrypt_private_key lower without_0x
address_of_keystore = refl

pub cipher-Works : Works cipher
cipher-Works = record {
  decrypts = λ key nonce data_bytes h. refl;
  gives_bytes = λ key nonce data_bytes h. (h, tt);
}

decrypt_keystore-encrypt_private_key_example :
    let keystore =
      encrypt_private_key cipher
        (3 ∷ [])
        (4 ∷ [])
        []
        (1 ∷ 2 ∷ [])
        (codes "a long password, 32 letters long")
        [] in
    let made = cipher.pbkdf2 (codes "a long password, 32 letters long") (3 ∷ []) kdf_rounds in
    (decrypt_keystore cipher keystore (codes "a long password, 32 letters long") ≡ ok (1 ∷ 2 ∷ []))
    × ((other : Text)
        → mac_of cipher (cipher.pbkdf2 other (3 ∷ []) kdf_rounds) (1 ∷ 2 ∷ [])
          ≢ mac_of cipher made (1 ∷ 2 ∷ [])
        → decrypt_keystore cipher keystore other ≡ err invalid_mac)
decrypt_keystore-encrypt_private_key_example =
    decrypt_keystore-encrypt_private_key cipher cipher-Works (3 ∷ []) (4 ∷ []) [] (omega arith, tt)
      (omega arith, tt) (1 ∷ 2 ∷ []) (codes "a long password, 32 letters long") []
      (omega arith, (omega arith, tt))
