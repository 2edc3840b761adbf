-- ===== src/Accounts/Roles.antt =====
-- Keys of the roles: their seeds, what they sign, and their keystores.
use piso_chain.Base.{
  ℕ, ◌≡◌, ◌≢◌, ◌⊎◌, inl, inr, refl, sym, ap, subst, ◌∙◌, true, Bool-cases, Option-cases, ◌++◌,
  length, drop, drop-append, get_or, Text, text_eq, text_eq_iff, ◌==◌, if◌then◌else◌,
}
use piso_chain.Bytes.{Bytes, AreBytes}
use piso_chain.Text.{codes}
use piso_chain.Outcome.{ok, err, AllOk}
use piso_chain.Keystore.{Cipher, decrypt_keystore}
use piso_chain.Keystore.RoundTrip.{Works, decrypt_keystore-encrypt_private_key}
use piso_chain.Accounts.{EthKeys}
use piso_chain.Accounts.ValidatorKey.{
  KeyRole, ValidatorKey, key_domain_error, role_value, role_name, assert_role, init_validator_key,
  sign_block_proposal, export_keystore,
}

-- the sixth letter of a role's text, which no other role has
abbrev letter : KeyRole → ℕ
letter KeyRole.wallet = b'w'
letter KeyRole.validator = b'v'
letter KeyRole.treasury = b't'
letter KeyRole.governance = b'g'

abbrev of_letter : ℕ → KeyRole
of_letter c =
    if c == b'w'
    then KeyRole.wallet
    else if c == b'v'
    then KeyRole.validator
    else if c == b't'
    then KeyRole.treasury
    else KeyRole.governance

of_letter-letter : (role : KeyRole) → of_letter (letter role) ≡ role
of_letter-letter KeyRole.wallet = refl
of_letter-letter KeyRole.validator = refl
of_letter-letter KeyRole.treasury = refl
of_letter-letter KeyRole.governance = refl

sixth : (role : KeyRole) (seed : Bytes) → get_or (role_value role ++ seed) 5 0 ≡ letter role
unfolding role_value
sixth KeyRole.wallet seed = refl
sixth KeyRole.validator seed = refl
sixth KeyRole.treasury seed = refl
sixth KeyRole.governance seed = refl

-- The texts of the roles tell the roles and the seeds apart.
role_value_injective :
    (a b : KeyRole) (s t : Bytes) → role_value a ++ s ≡ role_value b ++ t → (a ≡ b) × (s ≡ t)
role_value_injective a b s t e =
    let letters = sym (sixth a s) ∙ ap (λ u. get_or u 5 0) e ∙ sixth b t in
    let role : a ≡ b = sym (of_letter-letter a) ∙ ap of_letter letters ∙ of_letter-letter b in
    (
      role,
      sym (drop-append (role_value a) s)
          ∙ ap (drop (length (role_value a))) e
          ∙ ap (λ r. drop (length (role_value r)) (role_value b ++ t)) role
          ∙ drop-append (role_value b) t,
    )

-- `assert_role` for the validator's role
asserted :
    (role : KeyRole) (key : ValidatorKey)
    → key.role ≡ role
    → (role ≡ KeyRole.validator → assert_role key KeyRole.validator ≡ ok tt)
      × (role ≢ KeyRole.validator
          → assert_role key KeyRole.validator ≡ err (key_domain_error KeyRole.validator role))
unfolding assert_role
asserted KeyRole.validator key e = (λ h. rw e refl, λ h. absurd (h refl))
asserted KeyRole.wallet key e = (λ h. cc, λ h. rw e refl)
asserted KeyRole.treasury key e = (λ h. cc, λ h. rw e refl)
asserted KeyRole.governance key e = (λ h. cc, λ h. rw e refl)

module _ (keys : EthKeys) where
  abbrev IsKeyOf : KeyRole → Bytes → ValidatorKey → Type 0
  IsKeyOf role raw_seed key =
      (key.role ≡ role) × (key.private_key_bytes ≡ keys.sha256 (role_value role ++ raw_seed))

  init_validator_key-IsKeyOf :
      (raw_seed : Bytes) (role : KeyRole)
      → AllOk (IsKeyOf role raw_seed) (init_validator_key keys raw_seed role)
  unfolding init_validator_key
  init_validator_key-IsKeyOf raw_seed role =
      elim (Option-cases (keys.public_key (keys.sha256 (role_value role ++ raw_seed)))) [
        | inl e ↦ rw e tt
        | inr (public_key, e) ↦ rw e (refl, refl)
      ]

  -- Two keys, of any roles and seeds, have the same private key only if they have the same role and
  -- seed, or SHA-256 takes two different texts to it.
  pub private_key_collision :
      (raw_seed other_seed : Bytes) (role other_role : KeyRole) (key other : ValidatorKey)
      → init_validator_key keys raw_seed role ≡ ok key
      → init_validator_key keys other_seed other_role ≡ ok other
      → key.private_key_bytes ≡ other.private_key_bytes
      → ((role ≡ other_role) × (raw_seed ≡ other_seed))
        ⊎ ((s t : Bytes) × (s ≢ t) × (keys.sha256 s ≡ keys.sha256 t))
  private_key_collision raw_seed other_seed role other_role key other e e' same =
      let made =
        subst (AllOk (IsKeyOf role raw_seed)) e (init_validator_key-IsKeyOf raw_seed role) in
      let made' =
        subst (AllOk (IsKeyOf other_role other_seed)) e'
          (init_validator_key-IsKeyOf other_seed other_role) in
      let s = role_value role ++ raw_seed in
      let t = role_value other_role ++ other_seed in
      elim (Bool-cases (text_eq s t)) [
        | inl eq ↦
            inl (role_value_injective role other_role raw_seed other_seed ((text_eq_iff s t).0 eq))
        | inr differ ↦ inr (
          s,
          t,
          (λ eq. (let b : text_eq s t ≡ true = (text_eq_iff s t).1 eq in cc)),
          sym made.1 ∙ same ∙ made'.1,
        )
      ]

  -- A key that was made signs a block exactly if its role is the validator's, and otherwise raises
  -- KeyDomainError. Its keystore names its role, and gives its private key back under the password,
  -- where AES-GCM decrypts what it encrypts and the digests are bytes.
  pub validator_key_result :
      (cipher : Cipher) (salt iv id block_hash raw_seed : Bytes) (role : KeyRole)
      (key : ValidatorKey) (password : Text)
      → Works cipher
      → ((m : Bytes) → AreBytes (keys.sha256 m))
      → AreBytes salt
      → AreBytes iv
      → init_validator_key keys raw_seed role ≡ ok key
      → let exported = export_keystore keys cipher salt iv id key password in
        (role ≡ KeyRole.validator
          → (signature : Bytes) × (sign_block_proposal keys key block_hash ≡ ok signature))
        × (role ≢ KeyRole.validator
            → sign_block_proposal keys key block_hash
              ≡ err (key_domain_error KeyRole.validator role))
        × (exported.piso_role ≡ role_name role)
        × (decrypt_keystore cipher exported.keystore password ≡ ok key.private_key_bytes)
  validator_key_result cipher salt iv id block_hash raw_seed role key password works digests
        salt_bytes iv_bytes e =
      let made =
        subst (AllOk (IsKeyOf role raw_seed)) e (init_validator_key-IsKeyOf raw_seed role) in
      let (yes_role, other_role) = asserted role key made.0 in
      (
        λ is. (
          keys.sign_msg_hash key.private_key_bytes
              (keys.sha256 (codes "PISO-BLOCK-SIGN:" ++ block_hash)),
          unfold sign_block_proposal in rw (yes_role is) refl,
        ),
        λ not_role. (unfold sign_block_proposal in rw (other_role not_role) refl),
        unfold export_keystore in ap role_name made.0,
        unfold export_keystore in
            (decrypt_keystore-encrypt_private_key cipher works salt iv id salt_bytes iv_bytes
              key.private_key_bytes password key.address
              (subst AreBytes (sym made.1) (digests (role_value role ++ raw_seed)))).0,
      )
