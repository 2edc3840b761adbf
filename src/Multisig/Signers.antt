-- ===== src/Multisig/Signers.antt =====
-- One signature in the loop of `verify_transaction`: which signer it adds.
use piso_chain.Base.{
  ℕ, ◌+◌, ◌≡◌, ◌↔◌, ◌⊎◌, inl, inr, refl, sym, ap, ◌∙◌, true, false, Bool-cases, Option, none, some,
  List, [], ◌∷◌, length, Text, text_eq, text_eq_iff, arith, if◌then◌else◌,
}
use piso_chain.Bytes.{Bytes}
use piso_chain.Dict.{Dict}
use piso_chain.Multisig.{Keys, member, count_signature, check_signature}

-- No text stands twice.
abbrev pub AllDistinct : List Text → Type 0
AllDistinct [] = Unit
AllDistinct (s ∷ texts) = (member s texts ≡ false) × AllDistinct texts

module _ (keys : Keys) (tx_hash : Bytes) where
  -- One of the signatures recovers the signer and stands under an address of the signer.
  abbrev pub SignedBy : Text → Dict Text Bytes → Type 0
  SignedBy s [] = ⊥
  SignedBy s ((signer_addr_lower, sig_bytes) ∷ items) =
      ((keys.to_checksum_address signer_addr_lower ≡ some s)
        × (keys.recovered_address sig_bytes tx_hash ≡ some s))
      ⊎ SignedBy s items

  -- Some signature stands under no address.
  abbrev pub HasNoAddress : Dict Text Bytes → Type 0
  HasNoAddress [] = ⊥
  HasNoAddress ((signer_addr_lower, sig_bytes) ∷ items) =
      (keys.to_checksum_address signer_addr_lower ≡ none) ⊎ HasNoAddress items

  module _ (owners : List Text) where
    -- One signature: what it makes of the count and the signers.
    abbrev pub Stepped : Text → Bytes → ℕ → List Text → ℕ × List Text → Type 0
    Stepped signer sig_bytes n verified (n', verified') =
        AllDistinct verified'
        × (n' ≡ length verified')
        × ((s : Text)
            → (member s verified' ≡ true) ↔ (
                (member s verified ≡ true)
                ⊎ ((member s owners ≡ true)
                    × (s ≡ signer)
                    × (keys.recovered_address sig_bytes tx_hash ≡ some s))))

    module _ (signer : Text) (sig_bytes : Bytes) (n : ℕ) (verified : List Text)
        (distinct : AllDistinct verified) (same : n ≡ length verified) where
      -- Where the signer does not count, nothing changes.
      unchanged :
          ((s : Text)
            → (member s owners ≡ true)
              × (s ≡ signer)
              × (keys.recovered_address sig_bytes tx_hash ≡ some s)
            → member s verified ≡ true)
          → Stepped signer sig_bytes n verified (n, verified)
      unchanged f = (distinct, same, λ s. (λ h. inl h, λ h. elim h [ inl k ↦ k | inr k ↦ f s k ]))

      member-cons :
          (s : Text)
          → (member s (signer ∷ verified) ≡ true) ↔ ((s ≡ signer) ⊎ (member s verified ≡ true))
      unfolding member
      member-cons s = (
        λ h. elim (Bool-cases (text_eq s signer)) [
          | inl eq ↦ inl ((text_eq_iff s signer).0 eq)
          | inr ne ↦ inr (ground arith)
        ],
        λ h. elim h [
          | inl eq ↦ (let b : text_eq s signer ≡ true = (text_eq_iff s signer).1 eq in ground arith)
          | inr k ↦ ground arith
        ],
      )

      -- Where it counts, the signer is added.
      added :
          member signer owners ≡ true
          → member signer verified ≡ false
          → keys.recovered_address sig_bytes tx_hash ≡ some signer
          → Stepped signer sig_bytes n verified (n + 1, signer ∷ verified)
      added owner fresh found = (
        (fresh, distinct),
        omega (arith, same),
        λ s. (
          λ h. elim ((member-cons s).0 h) [
            | inl eq ↦ inr (ap (λ t. member t owners) eq ∙ owner, eq, found ∙ ap some (sym eq))
            | inr k ↦ inl k
          ],
          λ h. elim h [ inl k ↦ (member-cons s).1 (inr k) | inr k ↦ (member-cons s).1 (inl k.1) ],
        ),
      )

      counted :
          (r : Option Text)
          → keys.recovered_address sig_bytes tx_hash ≡ r
          → member signer owners ≡ true
          → member signer verified ≡ false
          → Stepped signer sig_bytes n verified (elim r [
            | none ↦ (n, verified)
            | some recovered ↦
                if text_eq recovered signer then (n + 1, signer ∷ verified) else (n, verified)
          ])
      counted none e owner fresh = unchanged (λ s k. cc)
      counted (some a) e owner fresh = elim (Bool-cases (text_eq a signer)) [
        | inl eq ↦ rw eq (added owner fresh (e ∙ ap some ((text_eq_iff a signer).0 eq)))
        | inr ne ↦ rw ne (
            unchanged (λ s k.
              (let here : some a ≡ some s = sym e ∙ k.2 in
                let is : a ≡ s = cc in
                let b : text_eq a signer ≡ true = (text_eq_iff a signer).1 (is ∙ k.1) in cc)))
      ]

      pub check_signature-Stepped :
          Stepped signer sig_bytes n verified
            (check_signature keys owners tx_hash signer sig_bytes n verified)
      unfolding check_signature count_signature
      check_signature-Stepped = elim (Bool-cases (member signer owners)) [
        | inr stranger ↦ rw stranger (
            unchanged (λ s k.
              let m : member s owners ≡ member signer owners = ap (λ t. member t owners) k.1 in cc))
        | inl owner ↦ elim (Bool-cases (member signer verified)) [
          | inl again ↦
              rw (owner, again) (unchanged (λ s k. ap (λ t. member t verified) k.1 ∙ again))
          | inr fresh ↦
              rw (owner, fresh)
                (counted (keys.recovered_address sig_bytes tx_hash) refl owner fresh)
        ]
      ]
