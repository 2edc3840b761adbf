-- ===== src/Accounts/Tests.antt =====
-- Keys whose public key is the private key, and signatures that are the hash under the key.
use piso_chain.Base.{
  ℕ, ◌≡◌, ◌≢◌, ◌⊎◌, ◌↔◌, refl, true, some, [], ◌∷◌, length, replicate, arith, text_eq,
}
use piso_chain.Bytes.{Bytes, AreBytes}
use piso_chain.Text.{codes, lower}
use piso_chain.Outcome.{ok, err}
use piso_chain.Keystore.{decrypt_keystore}
use piso_chain.Keystore.Tests.{cipher, cipher-Works}
use piso_chain.Accounts.{
  EthKeys, Account, secp256k1, init_account, private_key_hex, from_hex, sign_hash, verify_signature,
}
use piso_chain.Accounts.Signer.{Secp256k1Signer, init_secp256k1, secp256k1_sign, secp256k1_verify}
use piso_chain.Accounts.ValidatorKey.{
  KeyRole, ValidatorKey, key_domain_error, role_name, init_validator_key, sign_block_proposal,
  export_keystore,
}
use piso_chain.Accounts.Verify.{
  Recovers, verify_signature-sign_hash, secp256k1_verify-secp256k1_sign, from_hex-private_key_hex,
}
use piso_chain.Accounts.Roles.{private_key_collision, validator_key_result}

-- A signature is the private key before the hash, and the key is what stands before the last 32 bytes.
abbrev keys : EthKeys
keys = record {
  public_key = λ key. some key;
  key_to_hex = λ key. [];
  checksum_address = λ key. codes "0xA";
  sign_msg_hash = λ key hash. key;
  recovered_key = λ signature hash. some signature;
  sha256 = λ m. replicate 32 7;
  sha512 = λ m. m;
}

works : Recovers keys
works private_key public_key hash e len = e

abbrev hash_of_one : Bytes
hash_of_one = replicate 32 1

abbrev account : Account
account = record {
  private_key_bytes = 5 ∷ 6 ∷ [];
  curve = secp256k1;
  public_key = 5 ∷ 6 ∷ [];
  address = codes "0xA";
}

account_made : init_account keys (5 ∷ 6 ∷ []) (codes "SECP256K1") ≡ ok account
unfolding init_account lower text_eq
account_made = refl

verify_signature-sign_hash_example :
    (account.curve ≡ secp256k1)
    × ((hash : Bytes)
        → length hash ≡ 32
        → (signature : Bytes) × (sign_hash keys account hash ≡ ok signature)
          × (verify_signature keys account hash signature ≡ true))
    × ((hash signature : Bytes)
        → (verify_signature keys account hash signature ≡ true)
          ↔ (keys.recovered_key signature hash ≡ some account.public_key))
verify_signature-sign_hash_example =
    verify_signature-sign_hash keys (5 ∷ 6 ∷ []) (codes "SECP256K1") account works account_made

account_parsed : from_hex keys (private_key_hex account) (codes "SECP256K1") ≡ ok account
account_parsed =
    from_hex-private_key_hex keys (5 ∷ 6 ∷ []) (codes "SECP256K1") account
      (omega arith, (omega arith, tt)) account_made

abbrev signer : Secp256k1Signer
signer = record { private_key = 5 ∷ []; public_key = 5 ∷ [] }

secp256k1_verify-secp256k1_sign_example :
    (secp256k1_verify keys (1 ∷ []) (secp256k1_sign keys signer (1 ∷ [])) (5 ∷ []) ≡ true)
    × (length {A = ℕ} (1 ∷ []) ≢ 32
        → secp256k1_verify keys
            (keys.sha256 (1 ∷ []))
            (secp256k1_sign keys signer (1 ∷ []))
            (5 ∷ [])
          ≡ true)
secp256k1_verify-secp256k1_sign_example =
    secp256k1_verify-secp256k1_sign keys (some (5 ∷ [])) [] (1 ∷ []) signer works (λ m. refl)
      (unfold init_secp256k1 in refl)

abbrev validator_key : ValidatorKey
validator_key = record {
  role = KeyRole.treasury;
  private_key_bytes = replicate 32 7;
  address = codes "0xA";
}

validator_key_made : init_validator_key keys (1 ∷ []) KeyRole.treasury ≡ ok validator_key
unfolding init_validator_key
validator_key_made = refl

seven-AreBytes : (n : ℕ) → AreBytes (replicate n 7)
seven-AreBytes ℕ.zero = tt
seven-AreBytes (ℕ.suc n) = (omega arith, seven-AreBytes n)

private_key_collision_example :
    ((KeyRole.treasury ≡ KeyRole.treasury) × (◌≡◌ {A = Bytes} (1 ∷ []) (1 ∷ [])))
    ⊎ ((s t : Bytes) × (s ≢ t) × (keys.sha256 s ≡ keys.sha256 t))
private_key_collision_example =
    private_key_collision keys (1 ∷ []) (1 ∷ []) KeyRole.treasury KeyRole.treasury validator_key
      validator_key validator_key_made validator_key_made refl

validator_key_result_example :
    let exported = export_keystore keys cipher (3 ∷ []) (4 ∷ []) [] validator_key (codes "pw") in
    (KeyRole.treasury ≡ KeyRole.validator
      → (signature : Bytes) × (sign_block_proposal keys validator_key (9 ∷ []) ≡ ok signature))
    × (KeyRole.treasury ≢ KeyRole.validator
        → sign_block_proposal keys validator_key (9 ∷ [])
          ≡ err (key_domain_error KeyRole.validator KeyRole.treasury))
    × (exported.piso_role ≡ role_name KeyRole.treasury)
    × (decrypt_keystore cipher exported.keystore (codes "pw") ≡ ok (replicate 32 7))
validator_key_result_example =
    validator_key_result keys cipher (3 ∷ []) (4 ∷ []) [] (9 ∷ []) (1 ∷ []) KeyRole.treasury
      validator_key (codes "pw") cipher-Works (λ m. seven-AreBytes 32) (omega arith, tt)
      (omega arith, tt) validator_key_made
