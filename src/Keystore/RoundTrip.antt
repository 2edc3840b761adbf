-- ===== src/Keystore/RoundTrip.antt =====
-- A key out of its keystore: under the password, and under another one.
use piso_chain.Base.{
  ◌≡◌, ◌≢◌, inl, inr, refl, ◌∙◌, Bool-cases, some, [], ◌∷◌, take, Text, text_eq, text_eq_iff,
}
use piso_chain.Bytes.{Bytes, AreBytes}
use piso_chain.Text.{codes, lower}
use piso_chain.Text.Hex.{hex, fromhex-hex}
use piso_chain.Outcome.{ok, err}
use piso_chain.Keystore.{
  Cipher, invalid_mac, if_mac_fits, kdf_rounds, mac_of, starts_with, occurs_in, tag_bytes,
  encrypt_private_key, decrypt_with, decrypt_keystore,
}

-- GCM decrypts what it encrypted, and its ciphertexts and tags are bytes.
pub record Works (cipher : Cipher) : Type 0 where
  pub decrypts :
      (key nonce data_bytes : Bytes)
      → AreBytes data_bytes
      → let (ciphertext, tag) = cipher.gcm_encrypt key nonce data_bytes in
        cipher.gcm_decrypt key nonce ciphertext tag ≡ some data_bytes
  pub gives_bytes :
      (key nonce data_bytes : Bytes)
      → AreBytes data_bytes
      → let (ciphertext, tag) = cipher.gcm_encrypt key nonce data_bytes in
        AreBytes ciphertext × AreBytes tag

tag_bytes-hex : (tag : Bytes) → AreBytes tag → tag_bytes (some (hex tag)) ≡ ok tag
unfolding tag_bytes hex
tag_bytes-hex [] h = refl
tag_bytes-hex (b ∷ tag) h = rw (fromhex-hex (b ∷ tag) h) refl

module _ (cipher : Cipher) (works : Works cipher) (salt iv : Bytes) (id : Text)
    (salt_bytes : AreBytes salt) (iv_bytes : AreBytes iv) where
  -- What decryption under a password comes to.
  decrypt-encrypt_private_key :
      (private_key : Bytes) (password address other : Text)
      → AreBytes private_key
      → let made = cipher.pbkdf2 password salt kdf_rounds in
        let used = cipher.pbkdf2 other salt kdf_rounds in
        let (ciphertext, tag) = cipher.gcm_encrypt (take 16 made) iv private_key in
        decrypt_keystore cipher
          (encrypt_private_key cipher salt iv id private_key password address)
          other
        ≡ if_mac_fits
            (text_eq (mac_of cipher used ciphertext) (mac_of cipher made ciphertext))
            (decrypt_with cipher (codes "aes-256-gcm") used iv ciphertext (some (hex tag)))
  unfolding decrypt_keystore encrypt_private_key lower
  decrypt-encrypt_private_key private_key password address other bytes =
      let key = take 16 (cipher.pbkdf2 password salt kdf_rounds) in
      let (ciphertext_bytes, tag_are) = works.gives_bytes key iv private_key bytes in
      rw
        (
          fromhex-hex (cipher.gcm_encrypt key iv private_key).0 ciphertext_bytes,
          fromhex-hex iv iv_bytes,
          fromhex-hex salt salt_bytes,
        )
        refl

  gcm_decrypts :
      (private_key derived_key : Bytes)
      → AreBytes private_key
      → let (ciphertext, tag) = cipher.gcm_encrypt (take 16 derived_key) iv private_key in
        decrypt_with cipher (codes "aes-256-gcm") derived_key iv ciphertext (some (hex tag))
        ≡ ok private_key
  unfolding decrypt_with occurs_in starts_with
  gcm_decrypts private_key derived_key bytes =
      let key = take 16 derived_key in
      rw
        (
          tag_bytes-hex (cipher.gcm_encrypt key iv private_key).1
              (works.gives_bytes key iv private_key bytes).1,
          works.decrypts key iv private_key bytes,
        )
        refl

  -- A private key comes back from its keystore under the password that it was encrypted with. Under any
  -- password, the decryption is refused for its MAC, unless the MAC under that password's key is the
  -- one that the keystore holds. This holds where AES-GCM decrypts what it encrypts, whatever the hashes.
  pub decrypt_keystore-encrypt_private_key :
      (private_key : Bytes) (password address : Text)
      → AreBytes private_key
      → let keystore = encrypt_private_key cipher salt iv id private_key password address in
        let made = cipher.pbkdf2 password salt kdf_rounds in
        let ciphertext = (cipher.gcm_encrypt (take 16 made) iv private_key).0 in
        (decrypt_keystore cipher keystore password ≡ ok private_key)
        × ((other : Text)
            → mac_of cipher (cipher.pbkdf2 other salt kdf_rounds) ciphertext
              ≢ mac_of cipher made ciphertext
            → decrypt_keystore cipher keystore other ≡ err invalid_mac)
  decrypt_keystore-encrypt_private_key private_key password address bytes =
      let made = cipher.pbkdf2 password salt kdf_rounds in
      let ciphertext = (cipher.gcm_encrypt (take 16 made) iv private_key).0 in
      let mac = mac_of cipher made ciphertext in
      (
        decrypt-encrypt_private_key private_key password address password bytes
            ∙ rw ((text_eq_iff mac mac).1 refl) (gcm_decrypts private_key made bytes),
        λ other differ.
            let mac' = mac_of cipher (cipher.pbkdf2 other salt kdf_rounds) ciphertext in
            decrypt-encrypt_private_key private_key password address other bytes
            ∙ elim (Bool-cases (text_eq mac' mac)) [
              | inl same ↦ absurd (differ ((text_eq_iff mac' mac).0 same))
              | inr other_mac ↦ rw other_mac refl
            ],
      )
