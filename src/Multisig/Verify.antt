-- ===== src/Multisig/Verify.antt =====
-- What `verify_transaction` counts: the owners with a signature of their own.
use piso_chain.Base.{
  ℕ, ◌≡◌, ◌↔◌, ◌⊎◌, inl, inr, refl, sym, ap, ◌∙◌, Bool, true, Option, none, some, List, [], ◌∷◌,
  length, Text, leb,
}
use piso_chain.Bytes.{Bytes}
use piso_chain.Dict.{Dict}
use piso_chain.Multisig.{
  Keys, MultisigTransaction, MultisigWallet, ◌>>=◌, member, check_signature, count_signatures,
  verify_transaction,
}
use piso_chain.Multisig.Signers.{
  AllDistinct, SignedBy, HasNoAddress, Stepped, check_signature-Stepped,
}

module _ (keys : Keys) (tx_hash : Bytes) (owners : List Text) where
  -- The count is that of distinct texts: those before, and the owners with a signature of their own.
  abbrev Counted : List Text → Dict Text Bytes → Option ℕ → Type 0
  Counted verified items none = HasNoAddress keys tx_hash items
  Counted verified items (some n) =
      (signers : List Text) × AllDistinct signers
      × (n ≡ length signers)
      × ((s : Text)
          → (member s signers ≡ true) ↔ (
              (member s verified ≡ true)
              ⊎ ((member s owners ≡ true) × SignedBy keys tx_hash s items)))

  -- The rest of the loop after one signature
  after_one :
      (addr : Text) (sig_bytes : Bytes) (signer : Text) (n : ℕ) (verified : List Text)
      (items : Dict Text Bytes) (next : ℕ × List Text)
      → keys.to_checksum_address addr ≡ some signer
      → Stepped keys tx_hash owners signer sig_bytes n verified next
      → (r : Option ℕ) → Counted next.1 items r
      → Counted verified ((addr, sig_bytes) ∷ items) r
  after_one addr sig_bytes signer n verified items next e step none h = inr h
  after_one addr sig_bytes signer n verified items next e (d, l, step) (some m)
        (signers, distinct, count, iff) =
      (signers, distinct, count, λ s. (to s, from s))
    where
      to :
          (s : Text)
          → member s signers ≡ true
          → (member s verified ≡ true)
            ⊎ ((member s owners ≡ true) × SignedBy keys tx_hash s ((addr, sig_bytes) ∷ items))
      to s h = elim ((iff s).0 h) [
        | inr k ↦ inr (k.0, inr k.1)
        | inl k ↦ elim ((step s).0 k) [
          | inl v ↦ inl v
          | inr v ↦ inr (v.0, inl (e ∙ ap some (sym v.1), v.2))
        ]
      ]

      from :
          (s : Text)
          → (member s verified ≡ true)
            ⊎ ((member s owners ≡ true) × SignedBy keys tx_hash s ((addr, sig_bytes) ∷ items))
          → member s signers ≡ true
      from s (inl v) = (iff s).1 (inl ((step s).1 (inl v)))
      from s (inr (o, inl (found, signed))) =
          let here : some s ≡ some signer = sym found ∙ e in
          let is : s ≡ signer = cc in (iff s).1 (inl ((step s).1 (inr (o, is, signed))))
      from s (inr (o, inr k)) = (iff s).1 (inr (o, k))

  count_signatures-Counted :
      (items : Dict Text Bytes) (n : ℕ) (verified : List Text)
      → AllDistinct verified
      → n ≡ length verified
      → Counted verified items (count_signatures keys owners tx_hash items n verified)
  unfolding count_signatures
  count_signatures-Counted [] n verified d e =
      (verified, d, e, λ s. (λ h. inl h, λ h. elim h [ inl k ↦ k | inr k ↦ absurd k.1 ]))
  count_signatures-Counted ((addr, sig_bytes) ∷ items) n verified d e =
      first (keys.to_checksum_address addr) refl (λ signer.
        let next : ℕ × List Text =
          check_signature keys owners tx_hash signer sig_bytes n verified in
        let step : Stepped keys tx_hash owners signer sig_bytes n verified next =
          check_signature-Stepped keys tx_hash owners signer sig_bytes n verified d e in
        (step, count_signatures-Counted items next.0 next.1 step.0 step.1))
    where
      first :
          (r : Option Text)
          → keys.to_checksum_address addr ≡ r
          → ((signer : Text)
              → Stepped keys tx_hash owners signer sig_bytes n verified
                  (check_signature keys owners tx_hash signer sig_bytes n verified)
                × Counted
                    (check_signature keys owners tx_hash signer sig_bytes n verified).1
                    items
                    (count_signatures keys owners tx_hash items
                      (check_signature keys owners tx_hash signer sig_bytes n verified).0
                      (check_signature keys owners tx_hash signer sig_bytes n verified).1))
          → Counted verified ((addr, sig_bytes) ∷ items) (
              r >>= λ signer.
              count_signatures keys owners tx_hash items
                (check_signature keys owners tx_hash signer sig_bytes n verified).0
                (check_signature keys owners tx_hash signer sig_bytes n verified).1)
      first none found k = inl found
      first (some signer) found k =
          let next : ℕ × List Text =
            check_signature keys owners tx_hash signer sig_bytes n verified in
          after_one addr sig_bytes signer n verified items next found (k signer).0
            (count_signatures keys owners tx_hash items next.0 next.1) (k signer).1

nobody : (s : Text) → member s [] ≡ true → ⊥
unfolding member
nobody s h = cc

-- What `verify_transaction` ends with: whether the distinct owners with a signature of their own, which
-- `signers` are, reach the threshold; or a ValueError, where a signature stands under no address.
abbrev pub VerifyResult : Keys → MultisigWallet → MultisigTransaction → Option Bool → Type 0
VerifyResult keys wallet tx none = HasNoAddress keys tx.tx_hash tx.signatures
VerifyResult keys wallet tx (some accepted) =
    (signers : List Text) × AllDistinct signers
    × ((s : Text)
        → (member s signers ≡ true)
          ↔ ((member s wallet.owners ≡ true) × SignedBy keys tx.tx_hash s tx.signatures))
    × (accepted ≡ leb wallet.threshold (length signers))

-- A transaction is accepted exactly when the distinct owners of which it has a signature reach the
-- threshold: signatures of others, signatures that recover another key than that of the address they
-- stand under, and further signatures of the same owner do not count. ValueError is raised only where a
-- signature stands under a text that is no address.
pub verify_transaction_result :
    (keys : Keys) (wallet : MultisigWallet) (tx : MultisigTransaction)
    → VerifyResult keys wallet tx (verify_transaction keys wallet tx)
unfolding verify_transaction
verify_transaction_result keys wallet tx =
    finish (count_signatures keys wallet.owners tx.tx_hash tx.signatures 0 [])
      (count_signatures-Counted keys tx.tx_hash wallet.owners tx.signatures 0 [] tt refl)
  where
    finish :
        (r : Option ℕ)
        → Counted keys tx.tx_hash wallet.owners [] tx.signatures r
        → VerifyResult keys wallet tx (r >>= λ n. some (leb wallet.threshold n))
    finish none h = h
    finish (some n) (signers, d, e, iff) = (
      signers,
      d,
      λ s. (
        λ h. elim ((iff s).0 h) [ inl k ↦ absurd (nobody s k) | inr k ↦ k ],
        λ h. (iff s).1 (inr h),
      ),
      ap (leb wallet.threshold) e,
    )
