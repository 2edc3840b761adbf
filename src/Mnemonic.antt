-- ===== src/Mnemonic.antt =====
-- wallet/mnemonic/bip39.py. A result holds the ValueError, IndexError or OverflowError of the code. The
-- hash is the parameter `sha256`, the bytes of a digest.
pub mod Wordlist
pub mod Lookup
pub mod Words
pub mod Chunks
pub mod RoundTrip
pub mod Generate
mod Tests
use piso_chain.Base.{
  ℕ, zero, suc, ◌+◌, ◌-◌, ◌*◌, ◌/◌, Bool, true, false, ◌||◌, Option, none, some, List, [], ◌∷◌,
  ◌++◌, length, take, drop, get_elem?, Text, text_key, ◌==◌, if◌then◌else◌,
}
use piso_chain.Bytes.{Bytes, from_bytes, to_bytes}
use piso_chain.Bits.{Bits, binary, zfill, value}
use piso_chain.Text.{codes, strip, split}
use piso_chain.Dict.{Dict, lookup, insert}
use piso_chain.Mnemonic.Wordlist.{wordlist}

pub data Error : Type 0 where
  value_error index_error overflow_error : Error

pub data Result {ℓ} (A : Type ℓ) : Type ℓ where
  ok : A → Result A
  err : Error → Result A

infixl 5 ◌>>=◌
abbrev pub ◌>>=◌ {ℓ κ} : {A : Type ℓ} {B : Type κ} → Result A → (A → Result B) → Result B
ok a >>= f = f a
err e >>= f = err e

abbrev pub or_raise {ℓ} : {A : Type ℓ} → Error → Option A → Result A
or_raise e none = err e
or_raise e (some a) = ok a

-- `{word: idx for idx, word in enumerate(words)}`, from the index `idx` on, into `d`
unfoldable pub index_from : ℕ → List Text → Dict Text ℕ → Dict Text ℕ
index_from idx [] d = d
index_from idx (word ∷ words) d = index_from (idx + 1) words (insert word idx d)

unfoldable pub word_index : Dict Text ℕ
word_index = index_from 0 wordlist []

-- `" ".join(words)`
unfoldable pub join : List Text → Text
join [] = []
join (word ∷ []) = word
join (word ∷ next ∷ words) = word ++ b' ' ∷ join (next ∷ words)

-- `for i in range(0, len(full_bits), 11)`: the rounds left and the bits from `i` on
unfoldable pub words_of : ℕ → Bits → Result (List Text)
words_of zero bits = ok []
words_of (suc rounds) bits = do
  word ← or_raise Error.index_error (get_elem? wordlist (value (take 11 bits)))
  words ← words_of rounds (drop 11 bits)
  ok (word ∷ words)

-- `for word in words`: the bits of the words
unfoldable pub bits_of : List Text → Result Bits
bits_of [] = ok []
bits_of (word ∷ words) = do
  idx ← or_raise Error.value_error (lookup word word_index)
  bit_string ← bits_of words
  ok (zfill 11 (binary idx) ++ bit_string)

abbrev pub is_entropy_length : ℕ → Bool
is_entropy_length bit_len = bit_len == 128 || bit_len == 192 || bit_len == 256

abbrev pub is_word_count : ℕ → Bool
is_word_count count = count == 12 || count == 18 || count == 24

-- the test of the checksum
unfoldable pub if_same : Bits → Bits → Bytes → Result Bytes
if_same [] [] entropy_bytes = ok entropy_bytes
if_same [] (c ∷ computed) entropy_bytes = err Error.value_error
if_same (b ∷ bits) [] entropy_bytes = err Error.value_error
if_same (true ∷ bits) (true ∷ computed) entropy_bytes = if_same bits computed entropy_bytes
if_same (true ∷ bits) (false ∷ computed) entropy_bytes = err Error.value_error
if_same (false ∷ bits) (true ∷ computed) entropy_bytes = err Error.value_error
if_same (false ∷ bits) (false ∷ computed) entropy_bytes = if_same bits computed entropy_bytes

module _ (sha256 : Bytes → Bytes) where
  -- `bin(hash_bytes[0])[2:].zfill(8)[:checksum_len]`
  unfoldable pub checksum : Bytes → ℕ → Result Bits
  checksum entropy checksum_len = do
    first ← or_raise Error.index_error (get_elem? (sha256 entropy) 0)
    ok (take checksum_len (zfill 8 (binary first)))

  -- from the computation of the checksum
  unfoldable pub mnemonic_of : Bytes → ℕ → Result Text
  mnemonic_of entropy bit_len = do
    checksum_bits ← checksum entropy (bit_len / 32)
    let full_bits = zfill bit_len (binary (from_bytes entropy)) ++ checksum_bits
    words ← words_of ((length full_bits + 10) / 11) full_bits
    ok (join words)

  unfoldable pub entropy_to_mnemonic : Bytes → Result Text
  entropy_to_mnemonic entropy =
      let bit_len = length entropy * 8 in
      if is_entropy_length bit_len then mnemonic_of entropy bit_len else err Error.value_error

  -- from `total_bits`
  unfoldable pub entropy_of : Bits → Result Bytes
  entropy_of bit_string = do
    let total_bits = length bit_string
    let checksum_len = total_bits / 33
    let entropy_bits = take (total_bits - checksum_len) bit_string
    entropy_bytes ←
        or_raise Error.overflow_error (to_bytes (length entropy_bits / 8) (value entropy_bits))
    computed_checksum_bits ← checksum entropy_bytes checksum_len
    if_same (drop (total_bits - checksum_len) bit_string) computed_checksum_bits entropy_bytes

  unfoldable pub mnemonic_to_entropy : Text → Result Bytes
  mnemonic_to_entropy mnemonic =
      let words = split (strip mnemonic) in
      if is_word_count (length words)
      then (do bit_string ← bits_of words; entropy_of bit_string)
      else err Error.value_error

  unfoldable pub validate : Text → Bool
  validate mnemonic = elim (mnemonic_to_entropy mnemonic) [ ok entropy ↦ true | err e ↦ false ]

  -- `os.urandom(n)` is `urandom n`.
  unfoldable pub generate : (ℕ → Bytes) → ℕ → Result Text
  generate urandom num_words =
      if num_words == 12
      then entropy_to_mnemonic (urandom (128 / 8))
      else if num_words == 18
      then entropy_to_mnemonic (urandom (192 / 8))
      else if num_words == 24
      then entropy_to_mnemonic (urandom (256 / 8))
      else err Error.value_error

  -- `pbkdf2 password salt` are the 64 bytes of 2048 rounds of HMAC-SHA512.
  unfoldable pub to_seed : (Text → Text → Bytes) → Text → Text → Result Bytes
  to_seed pbkdf2 mnemonic passphrase =
      if validate mnemonic
      then ok (pbkdf2 (strip mnemonic) (codes "mnemonic" ++ passphrase))
      else err Error.value_error
