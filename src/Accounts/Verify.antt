-- ===== src/Accounts/Verify.antt =====
-- What an account and the signers sign, they verify.
use piso_chain.Base.{
  ◌≡◌, ◌≢◌, ◌↔◌, refl, sym, ap, ◌∙◌, true, Bool-cases, inl, inr, Option, Option-cases, none, some,
  [], ◌∷◌, ◌++◌, length, take, All-map, Text, text_eq, text_eq_iff, arith, subst, ==_iff, ◌==◌,
}
use piso_chain.Bytes.{Bytes, AreBytes}
use piso_chain.Text.{codes, lower, without_0x}
use piso_chain.Text.Hex.{hex, fromhex-hex, hex-Hex}
use piso_chain.Text.Parts.{Lacks}
use piso_chain.Text.Numbers.{is_hex_digit, Hex}
use piso_chain.Outcome.{ok, AllOk}
use piso_chain.Accounts.{
  EthKeys, Account, secp256k1, ed25519, is_key, private_key_hex, init_account, from_hex, sign_hash,
  verify_signature,
}
use piso_chain.Accounts.Signer.{
  Secp256k1Signer, Ed25519Signer, or_generated, init_secp256k1, message_digest, secp256k1_sign,
  secp256k1_verify, ed25519_sign, ed25519_verify,
}

without_0x-Lacks : (t : Text) → Lacks b'x' t → without_0x t ≡ t
unfolding without_0x
without_0x-Lacks [] h = refl
without_0x-Lacks (c ∷ []) h = refl
without_0x-Lacks (c ∷ d ∷ t) h = ground (arith, h.1.0, without_0x-Lacks (d ∷ t) h.1)

Hex-Lacks : (t : Text) → Hex t → Lacks b'x' t
Hex-Lacks t h = All-map (λ c. is_hex_digit c ≡ true) (λ c. c ≢ b'x') t (λ c k e. ground arith) h

module _ (keys : EthKeys) where
  -- A signature of 32 bytes recovers the public key of the private key that signed them.
  abbrev pub Recovers : Type 0
  Recovers =
      (private_key public_key hash : Bytes)
      → keys.public_key private_key ≡ some public_key
      → length hash ≡ 32
      → keys.recovered_key (keys.sign_msg_hash private_key hash) hash ≡ some public_key

  is_key_iff :
      (r : Option Bytes) (public_key : Bytes) → (is_key r public_key ≡ true) ↔ (r ≡ some public_key)
  is_key_iff none public_key = (λ h. cc, λ h. cc)
  is_key_iff (some recovered) public_key = (
    λ h. ap some ((text_eq_iff recovered public_key).0 h),
    λ h. (text_eq_iff recovered public_key).1 cc,
  )

  -- What `init_account` makes sure of: the curve secp256k1, and the public key of the private key.
  abbrev IsAccount : Account → Type 0
  IsAccount account =
      (account.curve ≡ secp256k1)
      × (keys.public_key account.private_key_bytes ≡ some account.public_key)

  init_account-IsAccount :
      (private_key_bytes : Bytes) (curve : Text)
      → AllOk IsAccount (init_account keys private_key_bytes curve)
  unfolding init_account
  init_account-IsAccount private_key_bytes curve =
      elim (Bool-cases (text_eq (lower curve) secp256k1)) [
        | inl secp ↦ elim (Option-cases (keys.public_key private_key_bytes)) [
          | inl e ↦ rw (secp, e) tt
          | inr (public_key, e) ↦ rw (secp, e) ((text_eq_iff (lower curve) secp256k1).0 secp, e)
        ]
        | inr other ↦ elim (Bool-cases (text_eq (lower curve) ed25519)) [
          | inl ed ↦ rw (other, ed) tt
          | inr neither ↦ rw (other, neither) tt
        ]
      ]

  signed :
      (account : Account) (hash : Bytes)
      → Recovers
      → IsAccount account
      → length hash ≡ 32
      → (signature : Bytes) × (sign_hash keys account hash ≡ ok signature)
        × (verify_signature keys account hash signature ≡ true)
  unfolding sign_hash verify_signature
  signed account hash works (secp, public) len =
      let test : text_eq account.curve secp256k1 ≡ true =
        (text_eq_iff account.curve secp256k1).1 secp in
      let size : (length hash == 32) ≡ true = (==_iff (length hash) 32).1 len in
      (
        keys.sign_msg_hash account.private_key_bytes hash,
        rw (size, test) refl,
        rw (test, works account.private_key_bytes account.public_key hash public len)
            ((text_eq_iff account.public_key account.public_key).1 refl),
      )

  -- An account that was made is one of secp256k1; it signs every hash of 32 bytes, and verifies its
  -- signature, where the key library recovers the public key from a signature; and it verifies exactly
  -- the signatures that recover its public key.
  pub verify_signature-sign_hash :
      (private_key_bytes : Bytes) (curve : Text) (account : Account)
      → Recovers
      → init_account keys private_key_bytes curve ≡ ok account
      → (account.curve ≡ secp256k1)
        × ((hash : Bytes)
            → length hash ≡ 32
            → (signature : Bytes) × (sign_hash keys account hash ≡ ok signature)
              × (verify_signature keys account hash signature ≡ true))
        × ((hash signature : Bytes)
            → (verify_signature keys account hash signature ≡ true)
              ↔ (keys.recovered_key signature hash ≡ some account.public_key))
  verify_signature-sign_hash private_key_bytes curve account works e =
      let made : IsAccount account =
        subst (AllOk IsAccount) e (init_account-IsAccount private_key_bytes curve) in
      let test : text_eq account.curve secp256k1 ≡ true =
        (text_eq_iff account.curve secp256k1).1 made.0 in
      (
        made.0,
        λ hash len. signed account hash works made len,
        λ hash signature.
            (unfold verify_signature in
              rw test (is_key_iff (keys.recovered_key signature hash) account.public_key)),
      )

  abbrev HasKey : Secp256k1Signer → Type 0
  HasKey signer = keys.public_key signer.private_key ≡ some signer.public_key

  init_secp256k1-HasKey :
      (private_key : Option Bytes) (generated : Bytes)
      → AllOk HasKey (init_secp256k1 keys private_key generated)
  unfolding init_secp256k1
  init_secp256k1-HasKey private_key generated =
      elim (Option-cases (keys.public_key (or_generated private_key generated))) [
        | inl e ↦ rw e tt
        | inr (public_key, e) ↦ rw e e
      ]

  message_digest_short : (m : Bytes) → length m ≡ 32 → message_digest keys m ≡ m
  unfolding message_digest
  message_digest_short m len = rw ((==_iff (length m) 32).1 len) refl

  message_digest_other : (m : Bytes) → length m ≢ 32 → message_digest keys m ≡ keys.sha256 m
  unfolding message_digest
  message_digest_other m len = elim (Bool-cases (length m == 32)) [
    | inl same ↦ absurd (len ((==_iff (length m) 32).0 same))
    | inr other ↦ rw other refl
  ]

  length-message_digest :
      (m : Bytes)
      → ((d : Bytes) → length (keys.sha256 d) ≡ 32)
      → length (message_digest keys m) ≡ 32
  unfolding message_digest
  length-message_digest m size = elim (Bool-cases (length m == 32)) [
    | inl same ↦ rw same ((==_iff (length m) 32).0 same)
    | inr other ↦ rw other (size m)
  ]

  -- A signer on secp256k1 verifies what it signs. A signature of a message that is not of 32 bytes is
  -- verified also as one of the message's digest, which is another message.
  pub secp256k1_verify-secp256k1_sign :
      (private_key : Option Bytes) (generated message : Bytes) (signer : Secp256k1Signer)
      → Recovers
      → ((m : Bytes) → length (keys.sha256 m) ≡ 32)
      → init_secp256k1 keys private_key generated ≡ ok signer
      → (secp256k1_verify keys message (secp256k1_sign keys signer message) signer.public_key
          ≡ true)
        × (length message ≢ 32
            → secp256k1_verify keys
                (keys.sha256 message)
                (secp256k1_sign keys signer message)
                signer.public_key
              ≡ true)
  secp256k1_verify-secp256k1_sign private_key generated message signer works size e =
      let key = subst (AllOk HasKey) e (init_secp256k1-HasKey private_key generated) in
      let digest = message_digest keys message in
      let verified : is_key
            (keys.recovered_key (keys.sign_msg_hash signer.private_key digest) digest)
            signer.public_key
          ≡ true =
        (is_key_iff (keys.recovered_key (keys.sign_msg_hash signer.private_key digest) digest)
            signer.public_key).1
          (works signer.private_key signer.public_key digest key
            (length-message_digest message size)) in
      unfold secp256k1_verify secp256k1_sign in
      (
        verified,
        λ len.
            ap
              (λ d.
                is_key (keys.recovered_key (keys.sign_msg_hash signer.private_key digest) d)
                  signer.public_key)
              (message_digest_short (keys.sha256 message) (size message)
                ∙ sym (message_digest_other message len))
            ∙ verified,
      )

  -- A signer on ed25519 verifies what it signs, whatever public key it is given: the check reads the
  -- private key.
  ed25519_verify-ed25519_sign :
      (signer : Ed25519Signer) (message public_key : Bytes)
      → ed25519_verify keys signer message (ed25519_sign keys signer message) public_key ≡ true
  unfolding ed25519_verify ed25519_sign
  ed25519_verify-ed25519_sign signer message public_key =
      let signature = take 64 (keys.sha512 (signer.private_key ++ message)) in
      (text_eq_iff signature signature).1 refl

  abbrev pub Keeps : Bytes → Account → Type 0
  Keeps private_key_bytes account = account.private_key_bytes ≡ private_key_bytes

  pub init_account-Keeps :
      (private_key_bytes : Bytes) (curve : Text)
      → AllOk (Keeps private_key_bytes) (init_account keys private_key_bytes curve)
  unfolding init_account
  init_account-Keeps private_key_bytes curve = elim (Bool-cases (text_eq (lower curve) secp256k1)) [
    | inl secp ↦ elim (Option-cases (keys.public_key private_key_bytes)) [
      | inl e ↦ rw (secp, e) tt
      | inr (key, e) ↦ rw (secp, e) refl
    ]
    | inr other ↦ elim (Bool-cases (text_eq (lower curve) ed25519)) [
      | inl ed ↦ rw (other, ed) tt
      | inr neither ↦ rw (other, neither) tt
    ]
  ]

  -- An account comes back from its private key in hexadecimal and its curve.
  pub from_hex-private_key_hex :
      (private_key_bytes : Bytes) (curve : Text) (account : Account)
      → AreBytes private_key_bytes
      → init_account keys private_key_bytes curve ≡ ok account
      → from_hex keys (private_key_hex account) curve ≡ ok account
  unfolding from_hex private_key_hex
  from_hex-private_key_hex private_key_bytes curve account bytes e =
      let kept =
        subst (AllOk (Keeps private_key_bytes)) e (init_account-Keeps private_key_bytes curve) in
      let digits = hex private_key_bytes in
      let cleaned : without_0x (codes "0x" ++ digits) ≡ digits =
        (unfold without_0x in
          without_0x-Lacks digits (Hex-Lacks digits (hex-Hex private_key_bytes bytes))) in
      ap (λ b. from_hex keys (codes "0x" ++ hex b) curve) kept
      ∙ rw (cleaned, fromhex-hex private_key_bytes bytes) e
