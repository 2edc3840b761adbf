-- ===== src/Mnemonic/Generate.antt =====
-- Generated mnemonics, and the seeds of mnemonics.
use piso_chain.Base.{
  ℕ, ◌*◌, ◌≡◌, refl, ap, ◌∙◌, true, false, Bool-cases, inl, inr, length, Text, ◌==◌, arith,
}
use piso_chain.Bytes.{Bytes, AreBytes}
use piso_chain.Text.{strip, split}
use piso_chain.Mnemonic.{
  Result, ok, err, Error, ◌>>=◌, is_entropy_length, is_word_count, entropy_to_mnemonic,
  mnemonic_to_entropy, validate, generate,
}
use piso_chain.Mnemonic.RoundTrip.{
  MnemonicResult, entropy_to_mnemonic_result, mnemonic_to_entropy-entropy_to_mnemonic,
}

-- What `generate` ends with.
abbrev pub Generated : (Bytes → Bytes) → ℕ → Result Text → Type 0
Generated sha256 num_words (ok mnemonic) =
    (length (split (strip mnemonic)) ≡ num_words) × (validate sha256 mnemonic ≡ true)
Generated sha256 num_words (err e) = (e ≡ Error.value_error) × (is_word_count num_words ≡ false)

module _ (sha256 : Bytes → Bytes)
    (digest : (data_bytes : Bytes)
      → (length (sha256 data_bytes) ≡ 32) × AreBytes (sha256 data_bytes)) where
  validate-ok :
      (mnemonic : Text) (entropy : Bytes)
      → mnemonic_to_entropy sha256 mnemonic ≡ ok entropy
      → validate sha256 mnemonic ≡ true
  unfolding validate
  validate-ok mnemonic entropy read = rw (validate, read) refl

  written :
      (num_words : ℕ) (entropy : Bytes)
      → AreBytes entropy
      → is_entropy_length (length entropy * 8) ≡ true
      → num_words * 4 ≡ length entropy * 3
      → Generated sha256 num_words (entropy_to_mnemonic sha256 entropy)
  written num_words entropy are_bytes allowed fits =
      of_result (entropy_to_mnemonic sha256 entropy)
        (entropy_to_mnemonic_result sha256 digest entropy are_bytes)
        (mnemonic_to_entropy-entropy_to_mnemonic sha256 digest entropy are_bytes allowed)
    where
      of_result :
          (r : Result Text)
          → MnemonicResult entropy r
          → (r >>= λ mnemonic. mnemonic_to_entropy sha256 mnemonic) ≡ ok entropy
          → Generated sha256 num_words r
      of_result (ok mnemonic) (allowed, count, others) read =
          (omega (arith, count, fits), validate-ok mnemonic entropy read)
      of_result (err e) k read = cc

  -- A mnemonic of 12, 18 or 24 words is generated as asked for and is valid; another number of words is
  -- refused with ValueError. This holds whatever the hash, where its digests are 32 bytes, and where
  -- `os.urandom(n)` gives n bytes.
  pub generate_result :
      (urandom : ℕ → Bytes) (num_words : ℕ)
      → ((n : ℕ) → (length (urandom n) ≡ n) × AreBytes (urandom n))
      → Generated sha256 num_words (generate sha256 urandom num_words)
  unfolding generate
  generate_result urandom num_words drawn = elim (Bool-cases (num_words == 12)) [
    | inl twelve ↦ rw twelve (sized 16 (ground arith) refl)
    | inr n ↦ rw n (elim (Bool-cases (num_words == 18)) [
      | inl eighteen ↦ rw eighteen (sized 24 (ground arith) refl)
      | inr m ↦ rw m (elim (Bool-cases (num_words == 24)) [
        | inl twenty_four ↦ rw twenty_four (sized 32 (ground arith) refl)
        | inr k ↦ rw k (refl, ground arith)
      ])
    ])
  ]
    where
      sized :
          (n : ℕ)
          → num_words * 4 ≡ n * 3
          → is_entropy_length (n * 8) ≡ true
          → Generated sha256 num_words (entropy_to_mnemonic sha256 (urandom n))
      sized n fits allowed =
          let len : length (urandom n) ≡ n = (drawn n).0 in
          written num_words (urandom n) (drawn n).1
            (ap (λ t. is_entropy_length (t * 8)) len ∙ allowed) (omega (arith, fits, len))
