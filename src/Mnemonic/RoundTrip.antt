-- ===== src/Mnemonic/RoundTrip.antt =====
-- Entropy comes back from its words.
use piso_chain.Base.{
  subst, ℕ, suc, ◌+◌, ◌-◌, ◌*◌, ◌/◌, ◌^◌, ◌<◌, ◌≤◌, ◌≡◌, ◌≢◌, refl, ap, ap₂, ◌∙◌, ◌⊎◌, inl, inr,
  true, false, Bool-cases, some, List, [], ◌∷◌, ◌++◌, All, length, take, drop, get_elem?,
  length-take, length-append, take-append, drop-append, Text, arith,
}
use piso_chain.Bytes.{Bytes, AreBytes, from_bytes, from_bytes-lt, to_bytes, to_bytes-from_bytes}
use piso_chain.Bits.{Bits, binary, zfill, value, fixed, length-fixed, value-fixed, zfill-binary}
use piso_chain.Text.{strip, split}
use piso_chain.Mnemonic.{
  Result, ok, err, Error, ◌>>=◌, or_raise, join, words_of, is_entropy_length, is_word_count,
  checksum, if_same, mnemonic_of, entropy_to_mnemonic, entropy_of, mnemonic_to_entropy,
}
use piso_chain.Mnemonic.Words.{split-strip-join}
use piso_chain.Mnemonic.Chunks.{last_word, HaveBits, words_of-HaveBits}

if_same_refl : (bits : Bits) (entropy : Bytes) → if_same bits bits entropy ≡ ok entropy
unfolding if_same
if_same_refl [] entropy = refl
if_same_refl (true ∷ bits) entropy = if_same_refl bits entropy
if_same_refl (false ∷ bits) entropy = if_same_refl bits entropy

-- The words of a mnemonic: their number, and that the last word of the list is not among them.
abbrev Wording : ℕ → Result Text → Type 0
Wording rounds (ok mnemonic) =
    (length (split (strip mnemonic)) ≡ rounds) × All (λ w. w ≢ last_word) (split (strip mnemonic))
Wording rounds (err e) = ⊥

joined-Wording :
    (rounds : ℕ) (bits : Bits) (r : Result (List Text))
    → HaveBits rounds bits r
    → Wording rounds (r >>= λ words. ok (join words))
joined-Wording rounds bits (ok words) h = rw (split-strip-join words h.1) (h.2, h.3)
joined-Wording rounds bits (err e) h = h

-- 128, 192 or 256 bits
abbrev pub IsEntropy : Bytes → Type 0
IsEntropy entropy = (length entropy ≡ 16) ⊎ ((length entropy ≡ 24) ⊎ (length entropy ≡ 32))

-- For the right entropy three words for every four bytes, without the last word of the list
abbrev pub MnemonicResult : Bytes → Result Text → Type 0
MnemonicResult entropy (ok mnemonic) =
    IsEntropy entropy
    × (length (split (strip mnemonic)) * 4 ≡ length entropy * 3)
    × All (λ w. w ≢ last_word) (split (strip mnemonic))
MnemonicResult entropy (err e) = (e ≡ Error.value_error) × (¬ IsEntropy entropy)

module _ (sha256 : Bytes → Bytes)
    (digest : (data_bytes : Bytes)
      → (length (sha256 data_bytes) ≡ 32) × AreBytes (sha256 data_bytes)) where
  -- The checksum is there, and as long as asked for.
  checksum-ok :
      (entropy : Bytes) (len : ℕ)
      → len ≤ 8
      → (bits : Bits) × (checksum sha256 entropy len ≡ ok bits) × (length bits ≡ len)
  unfolding checksum
  checksum-ok entropy len h = of_digest (sha256 entropy) (digest entropy)
    where
      of_digest :
          (d : Bytes)
          → (length d ≡ 32) × AreBytes d
          → (bits : Bits) × ((or_raise Error.index_error (get_elem? d 0) >>= λ first.
                ok (take len (zfill 8 (binary first))))
              ≡ ok bits)
            × (length bits ≡ len)
      of_digest [] k = absurd (omega (arith, k.0))
      of_digest (b ∷ d) k = (
        take len (zfill 8 (binary b)),
        refl,
        length-take len (zfill 8 (binary b))
            ∙ omega (
              arith,
              h,
              ap length (zfill-binary 7 b (omega (arith, k.1.0))),
              length-fixed 8 b [],
            ),
      )

  -- The sizes of entropy, of `w` and one bits, with its checksum and words, fit together.
  abbrev Fit : ℕ → ℕ → ℕ → ℕ → Type 0
  Fit n w sum_len rounds =
      (n * 8 ≡ suc w)
      × (suc w / 32 ≡ sum_len)
      × (suc w + sum_len ≡ rounds * 11)
      × ((suc w + sum_len) / 33 ≡ sum_len)
      × (sum_len ≤ 8)
      × (256 ^ n ≡ 2 ^ suc w)
      × (is_word_count rounds ≡ true)

  module _ (entropy : Bytes) (are_bytes : AreBytes entropy) (w sum_len rounds : ℕ)
      (fit : Fit (length entropy) w sum_len rounds) where
    bits : Bits
    bits = zfill (suc w) (binary (from_bytes entropy))

    small : from_bytes entropy < 2 ^ suc w
    small = subst (λ t. from_bytes entropy < t) fit.5 (from_bytes-lt entropy are_bytes)

    bits-fixed : bits ≡ fixed (suc w) (from_bytes entropy) []
    unfolding bits
    bits-fixed = zfill-binary w (from_bytes entropy) small

    length-bits : length bits ≡ suc w
    length-bits = ap length bits-fixed ∙ length-fixed (suc w) (from_bytes entropy) [] ∙ omega arith

    value-bits : value bits ≡ from_bytes entropy
    value-bits = ap value bits-fixed ∙ value-fixed (suc w) (from_bytes entropy) small

    entropy_of-bits :
        (sum : Bits)
        → checksum sha256 entropy sum_len ≡ ok sum
        → length sum ≡ sum_len
        → entropy_of sha256 (bits ++ sum) ≡ ok entropy
    unfolding entropy_of
    entropy_of-bits sum h k =
        let total : length (bits ++ sum) ≡ suc w + sum_len =
          length-append bits sum ∙ ap₂ (λ a b. a + b) length-bits k in
        let sums : length (bits ++ sum) / 33 ≡ sum_len = ap (λ t. t / 33) total ∙ fit.3 in
        let kept : length (bits ++ sum) - length (bits ++ sum) / 33 ≡ length bits =
          ap₂ (λ a b. a - b) total sums ∙ omega (arith, length-bits) in
        finish (take (length (bits ++ sum) - length (bits ++ sum) / 33) (bits ++ sum))
          (drop (length (bits ++ sum) - length (bits ++ sum) / 33) (bits ++ sum))
          (length (bits ++ sum) / 33) (ap (λ t. take t (bits ++ sum)) kept ∙ take-append bits sum)
          (ap (λ t. drop t (bits ++ sum)) kept ∙ drop-append bits sum) sums
      where
        read : to_bytes (length bits / 8) (value bits) ≡ some entropy
        read =
            ap₂ to_bytes (ap (λ t. t / 8) length-bits ∙ omega (arith, fit.0)) value-bits
            ∙ to_bytes-from_bytes entropy are_bytes

        finish :
            (entropy_bits rest : Bits) (len : ℕ)
            → entropy_bits ≡ bits
            → rest ≡ sum
            → len ≡ sum_len
            → (or_raise Error.overflow_error
                  (to_bytes (length entropy_bits / 8) (value entropy_bits))
                >>= λ eb. checksum sha256 eb len >>= λ c. if_same rest c eb)
              ≡ ok entropy
        finish entropy_bits rest len a b c = rw (a, b, c, read, h) (if_same_refl sum entropy)

    decoded :
        (sum : Bits) (r : Result (List Text))
        → entropy_of sha256 (bits ++ sum) ≡ ok entropy
        → HaveBits rounds (bits ++ sum) r
        → ((r >>= λ words. ok (join words)) >>= λ mnemonic. mnemonic_to_entropy sha256 mnemonic)
          ≡ ok entropy
    unfolding mnemonic_to_entropy
    decoded sum (ok words) h k = rw (split-strip-join words k.1, k.2, fit.6, k.0) h
    decoded sum (err e) h k = absurd k

    round_trip :
        (mnemonic_of sha256 entropy (suc w) >>= λ mnemonic. mnemonic_to_entropy sha256 mnemonic)
        ≡ ok entropy
    unfolding mnemonic_of bits
    round_trip =
        let (sum, found, len) = checksum-ok entropy sum_len fit.4 in
        let total : length (bits ++ sum) ≡ rounds * 11 =
          length-append bits sum ∙ ap₂ (λ a b. a + b) length-bits len ∙ fit.2 in
        let count : (length (bits ++ sum) + 10) / 11 ≡ rounds = omega (arith, total) in
        rw (fit.1, found, count)
          (decoded sum (words_of rounds (bits ++ sum)) (entropy_of-bits sum found len)
            (words_of-HaveBits rounds (bits ++ sum) total))

    described : Wording rounds (mnemonic_of sha256 entropy (suc w))
    unfolding mnemonic_of bits
    described =
        let (sum, found, len) = checksum-ok entropy sum_len fit.4 in
        let total : length (bits ++ sum) ≡ rounds * 11 =
          length-append bits sum ∙ ap₂ (λ a b. a + b) length-bits len ∙ fit.2 in
        let count : (length (bits ++ sum) + 10) / 11 ≡ rounds = omega (arith, total) in
        rw (fit.1, found, count)
          (joined-Wording rounds (bits ++ sum) (words_of rounds (bits ++ sum))
            (words_of-HaveBits rounds (bits ++ sum) total))

  sixteen : (entropy : Bytes) (n : ℕ) → length entropy ≡ n → n ≡ 16 → Fit (length entropy) 127 4 12
  sixteen entropy n e s =
      (omega (arith, e, s), refl, refl, refl, omega arith, ap (λ t. 256 ^ t) (e ∙ s), refl)

  twenty_four :
      (entropy : Bytes) (n : ℕ) → length entropy ≡ n → n ≡ 24 → Fit (length entropy) 191 6 18
  twenty_four entropy n e s =
      (omega (arith, e, s), refl, refl, refl, omega arith, ap (λ t. 256 ^ t) (e ∙ s), refl)

  thirty_two :
      (entropy : Bytes) (n : ℕ) → length entropy ≡ n → n ≡ 32 → Fit (length entropy) 255 8 24
  thirty_two entropy n e s =
      (omega (arith, e, s), refl, refl, refl, omega arith, ap (λ t. 256 ^ t) (e ∙ s), refl)

  -- Entropy of 128, 192 or 256 bits comes back from the mnemonic that is written for it. This holds
  -- whatever the hash, where its digests are 32 bytes.
  pub mnemonic_to_entropy-entropy_to_mnemonic :
      (entropy : Bytes)
      → AreBytes entropy
      → is_entropy_length (length entropy * 8) ≡ true
      → (entropy_to_mnemonic sha256 entropy >>= λ mnemonic. mnemonic_to_entropy sha256 mnemonic)
        ≡ ok entropy
  unfolding entropy_to_mnemonic
  mnemonic_to_entropy-entropy_to_mnemonic entropy are_bytes h =
      rw h (sized (length entropy) refl (ground arith))
    where
      sized :
          (n : ℕ)
          → length entropy ≡ n
          → (n ≡ 16) ⊎ ((n ≡ 24) ⊎ (n ≡ 32))
          → (mnemonic_of sha256 entropy (n * 8) >>= λ mnemonic. mnemonic_to_entropy sha256 mnemonic)
            ≡ ok entropy
      sized n e (inl s) = rw s (round_trip entropy are_bytes 127 4 12 (sixteen entropy n e s))
      sized n e (inr (inl s)) =
          rw s (round_trip entropy are_bytes 191 6 18 (twenty_four entropy n e s))
      sized n e (inr (inr s)) =
          rw s (round_trip entropy are_bytes 255 8 24 (thirty_two entropy n e s))

  -- For entropy of 128, 192 or 256 bits a mnemonic of 12, 18 or 24 words is written, none of them the last
  -- word of the list, "zoo"; any other entropy is refused with ValueError. This holds whatever the hash,
  -- where its digests are 32 bytes.
  pub entropy_to_mnemonic_result :
      (entropy : Bytes)
      → AreBytes entropy
      → MnemonicResult entropy (entropy_to_mnemonic sha256 entropy)
  unfolding entropy_to_mnemonic
  entropy_to_mnemonic_result entropy are_bytes =
      elim (Bool-cases (is_entropy_length (length entropy * 8))) [
        | inr other ↦ rw other (refl, λ h. refused h other)
        | inl allowed ↦ rw allowed (sized (length entropy) refl (ground arith))
      ]
    where
      refused : IsEntropy entropy → is_entropy_length (length entropy * 8) ≡ false → ⊥
      refused h other = ground arith

      result :
          (rounds : ℕ) (r : Result Text)
          → IsEntropy entropy
          → rounds * 4 ≡ length entropy * 3
          → Wording rounds r
          → MnemonicResult entropy r
      result rounds (ok m) i h k = (i, omega (arith, h, k.0), k.1)
      result rounds (err e) i h k = absurd k

      sized :
          (n : ℕ)
          → length entropy ≡ n
          → (n ≡ 16) ⊎ ((n ≡ 24) ⊎ (n ≡ 32))
          → MnemonicResult entropy (mnemonic_of sha256 entropy (n * 8))
      sized n e (inl s) = rw s (
          result 12 (mnemonic_of sha256 entropy 128) (inl (e ∙ s)) (omega (arith, e, s))
            (described entropy are_bytes 127 4 12 (sixteen entropy n e s)))
      sized n e (inr (inl s)) = rw s (
          result 18 (mnemonic_of sha256 entropy 192) (inr (inl (e ∙ s))) (omega (arith, e, s))
            (described entropy are_bytes 191 6 18 (twenty_four entropy n e s)))
      sized n e (inr (inr s)) = rw s (
          result 24 (mnemonic_of sha256 entropy 256) (inr (inr (e ∙ s))) (omega (arith, e, s))
            (described entropy are_bytes 255 8 24 (thirty_two entropy n e s)))
