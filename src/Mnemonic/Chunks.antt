-- ===== src/Mnemonic/Chunks.antt =====
-- Bits as words, eleven at a time, and back.
use piso_chain.Base.{
  subst, ℕ, zero, suc, ◌*◌, ◌^◌, ◌<◌, ◌≡◌, ◌≢◌, refl, sym, ap, ◌∙◌, Bool, true, false, ◌&&◌, not,
  some, List, [], ◌∷◌, ◌++◌, All, length, take, drop, get_elem?, length-take, length-drop,
  take-append-drop, Text, text_key, arith,
}
use piso_chain.Bits.{Bits, binary, zfill, value, value-lt, zfill-binary-value}
use piso_chain.Text.{is_space, codes}
use piso_chain.Text.Parts.{NoSpaces}
use piso_chain.Dict.{lookup}
use piso_chain.Mnemonic.{Result, ok, err, ◌>>=◌, word_index, words_of, bits_of}
use piso_chain.Mnemonic.Wordlist.{wordlist}
use piso_chain.Mnemonic.Lookup.{length-wordlist, lookup-word_index}
use piso_chain.Mnemonic.Words.{IsWord}

letters : Text → Bool
letters [] = true
letters (c ∷ t) = not (is_space c) && letters t

is_word : Text → Bool
unfolding letters
is_word [] = false
is_word (c ∷ t) = letters (c ∷ t)

all_words : List Text → Bool
unfolding is_word
all_words [] = true
all_words (w ∷ words) = is_word w && all_words words

wordlist_words : all_words wordlist ≡ true
unfolding all_words wordlist
wordlist_words = refl

letters-NoSpaces : (t : Text) → letters t ≡ true → NoSpaces t
unfolding letters
letters-NoSpaces [] h = tt
letters-NoSpaces (c ∷ t) h = (ground arith, letters-NoSpaces t (ground arith))

is_word-IsWord : (t : Text) → is_word t ≡ true → IsWord t
unfolding is_word
is_word-IsWord [] h = cc
is_word-IsWord (c ∷ t) h = (λ e. cc, letters-NoSpaces (c ∷ t) h)

IsWord-get_elem? :
    (words : List Text) (i : ℕ) (w : Text)
    → all_words words ≡ true
    → get_elem? words i ≡ some w
    → IsWord w
unfolding all_words
IsWord-get_elem? [] i w h e = cc
IsWord-get_elem? (v ∷ words) zero w h e =
    let same : v ≡ w = cc in rw⁻¹ same (is_word-IsWord v (ground arith))
IsWord-get_elem? (v ∷ words) (suc i) w h e = IsWord-get_elem? words i w (ground arith) e

get_elem?-lt :
    (words : List Text) (i : ℕ) → i < length words → (w : Text) × (get_elem? words i ≡ some w)
get_elem?-lt [] i h = absurd (omega (arith, h))
get_elem?-lt (v ∷ words) zero h = (v, refl)
get_elem?-lt (v ∷ words) (suc i) h = get_elem?-lt words i (omega (arith, h))

bits_of-cons :
    (w : Text) (words : List Text) (idx : ℕ) (bits : Bits)
    → lookup w word_index ≡ some idx
    → bits_of words ≡ ok bits
    → bits_of (w ∷ words) ≡ ok (zfill 11 (binary idx) ++ bits)
unfolding bits_of
bits_of-cons w words idx bits h k = rw (h, k) refl

-- the word at the place 2048, which eleven bits do not reach
abbrev pub last_word : Text
last_word = codes "zoo"

last_word_place : get_elem? wordlist 2048 ≡ some last_word
unfolding wordlist
last_word_place = refl

some-injective : (a b : ℕ) → some a ≡ some b → a ≡ b
some-injective a b h = cc

ne-last_word : (w : Text) (i : ℕ) → lookup w word_index ≡ some i → i < 2048 → w ≢ last_word
ne-last_word w i h small e =
    let found : some 2048 ≡ some i =
      sym (lookup-word_index last_word 2048 last_word_place)
      ∙ ap (λ t. lookup t word_index) (sym e)
      ∙ h in
    let same : 2048 ≡ i = some-injective 2048 i found in omega (arith, same, small)

-- The words of bits are the list's, one for eleven bits, and have the bits.
abbrev pub HaveBits : ℕ → Bits → Result (List Text) → Type 0
HaveBits rounds bits (ok words) =
    (bits_of words ≡ ok bits)
    × All IsWord words
    × (length words ≡ rounds)
    × All (λ w. w ≢ last_word) words
HaveBits rounds bits (err e) = ⊥

pub words_of-HaveBits :
    (rounds : ℕ) (bits : Bits)
    → length bits ≡ rounds * 11
    → HaveBits rounds bits (words_of rounds bits)
unfolding words_of
words_of-HaveBits zero [] h = unfold bits_of in (refl, tt, refl, tt)
words_of-HaveBits zero (b ∷ bits) h = absurd (omega (arith, h))
words_of-HaveBits (suc rounds) bits h =
    let front : Bits = take 11 bits in
    let eleven : length front ≡ 11 = length-take 11 bits ∙ omega (arith, h) in
    let small : value front < 2 ^ 11 = subst (λ n. value front < 2 ^ n) eleven (value-lt front) in
    let (w, e) = get_elem?-lt wordlist (value front) (rw length-wordlist (omega (arith, small))) in
    rw e (
      add w front (words_of rounds (drop 11 bits)) (take-append-drop 11 bits)
        (IsWord-get_elem? wordlist (value front) w wordlist_words e)
        (lookup-word_index w (value front) e) (zfill-binary-value 10 front eleven) small
        (words_of-HaveBits rounds (drop 11 bits) (length-drop 11 bits ∙ omega (arith, h))))
  where
    add :
        (w : Text) (front : Bits) (rest : Result (List Text))
        → front ++ drop 11 bits ≡ bits
        → IsWord w
        → lookup w word_index ≡ some (value front)
        → zfill 11 (binary (value front)) ≡ front
        → value front < 2048
        → HaveBits rounds (drop 11 bits) rest
        → HaveBits (suc rounds) bits (rest >>= λ words. ok (w ∷ words))
    add w front (ok words) whole word found written low k = (
      bits_of-cons w words (value front) (drop 11 bits) found k.0
          ∙ ap (λ t. ok (t ++ drop 11 bits)) written
          ∙ ap ok whole,
      (word, k.1),
      omega (arith, k.2),
      (ne-last_word w (value front) found low, k.3),
    )
    add w front (err e) whole word found written low k = k
