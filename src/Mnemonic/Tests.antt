-- ===== src/Mnemonic/Tests.antt =====
-- Mnemonics with a digest that begins as the SHA-256 of sixteen zeros does.
use piso_chain.Base.{
  ℕ, zero, suc, some, text_key, ◌*◌, ◌^◌, ◌≡◌, ◌∙◌, refl, [], length, replicate, length-replicate,
  arith,
}
use piso_chain.Bytes.{
  Bytes, AreBytes, from_bytes, from_bytes_onto, to_bytes, bytes_onto, length-bytes_onto,
  bytes_onto-AreBytes,
}
use piso_chain.Bits.{binary, zfill, value, value_onto}
use piso_chain.Text.{codes, strip, split, lstrip, pieces, nonempty}
use piso_chain.Dict.{lookup}
use piso_chain.Mnemonic.{
  ok, err, Error, ◌>>=◌, join, words_of, bits_of, word_index, checksum, mnemonic_of, entropy_of,
  entropy_to_mnemonic, mnemonic_to_entropy, generate,
}
use piso_chain.Mnemonic.Wordlist.{wordlist}
use piso_chain.Mnemonic.Lookup.{lookup-word_index}
use piso_chain.Mnemonic.RoundTrip.{
  MnemonicResult, entropy_to_mnemonic_result, mnemonic_to_entropy-entropy_to_mnemonic,
}
use piso_chain.Mnemonic.Generate.{Generated, generate_result}

abbrev digest : Bytes
digest = bytes_onto 32 (55 * 256 ^ 31) []

abbrev sha256 : Bytes → Bytes
sha256 data_bytes = digest

digest_bytes :
    (data_bytes : Bytes) → (length (sha256 data_bytes) ≡ 32) × AreBytes (sha256 data_bytes)
digest_bytes data_bytes = (
  length-bytes_onto 32 (55 * 256 ^ 31) [] ∙ omega arith,
  bytes_onto-AreBytes 32 (55 * 256 ^ 31) [] tt,
)

abbrev zeros : Bytes
zeros = bytes_onto 16 0 []

zeros_bytes : AreBytes zeros
zeros_bytes = bytes_onto-AreBytes 16 0 [] tt

zeros_allowed : (length zeros ≡ 16)
zeros_allowed = length-bytes_onto 16 0 [] ∙ omega arith

words_of_zeros :
    entropy_to_mnemonic sha256 zeros
    ≡ ok (
        codes
          "abandon abandon abandon abandon abandon abandon abandon abandon abandon abandon abandon about")
unfolding entropy_to_mnemonic mnemonic_of checksum words_of join wordlist binary zfill value
    value_onto bytes_onto from_bytes from_bytes_onto
words_of_zeros = refl

zoo_index : lookup (codes "zoo") word_index ≡ some 2048
unfolding wordlist
zoo_index = lookup-word_index (codes "zoo") 2048 refl

wrong_index : lookup (codes "wrong") word_index ≡ some 2038
unfolding wordlist
wrong_index = lookup-word_index (codes "wrong") 2038 refl

-- The test vector of BIP-39 for entropy of ones only: the list's last word has twelve bits here.
ones_refused :
    mnemonic_to_entropy sha256 (codes "zoo zoo zoo zoo zoo zoo zoo zoo zoo zoo zoo wrong")
    ≡ err Error.overflow_error
unfolding mnemonic_to_entropy split strip lstrip pieces nonempty bits_of entropy_of to_bytes binary
    zfill value value_onto
ones_refused = rw (zoo_index, wrong_index) refl

too_few_words : mnemonic_to_entropy sha256 (codes " zoo  zoo ") ≡ err Error.value_error
unfolding mnemonic_to_entropy split strip lstrip pieces nonempty
too_few_words = refl

entropy_to_mnemonic_result_example : MnemonicResult zeros (entropy_to_mnemonic sha256 zeros)
entropy_to_mnemonic_result_example =
    entropy_to_mnemonic_result sha256 digest_bytes zeros zeros_bytes

mnemonic_to_entropy-entropy_to_mnemonic_example :
    (entropy_to_mnemonic sha256 zeros >>= λ mnemonic. mnemonic_to_entropy sha256 mnemonic)
    ≡ ok zeros
unfolding bytes_onto
mnemonic_to_entropy-entropy_to_mnemonic_example =
    mnemonic_to_entropy-entropy_to_mnemonic sha256 digest_bytes zeros zeros_bytes refl

sevens : (n : ℕ) → AreBytes (replicate n 7)
sevens zero = tt
sevens (suc n) = (omega arith, sevens n)

generate_result_example : Generated sha256 12 (generate sha256 (λ n. replicate n 7) 12)
generate_result_example =
    generate_result sha256 digest_bytes (λ n. replicate n 7) 12
      (λ n. (length-replicate n 7, sevens n))
