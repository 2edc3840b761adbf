-- ===== src/Mnemonic/Lookup.antt =====
-- `WORD_INDEX` of wallet/mnemonic/wordlists.py, and what it finds.
use piso_chain.Base.{
  ℕ, All-map, some, get_elem?, text_key, zero, suc, ◌+◌, ◌≡◌, ◌≢◌, refl, sym, ap, ◌∙◌, Bool, true,
  false, ◌&&◌, List, [], ◌∷◌, All, Text, text_eq_iff, length, ltb, ◌==◌, if◌then◌else◌, arith,
}
use piso_chain.Dict.{Dict, lookup, insert}
use piso_chain.Dict.Laws.{lookup-insert, beq_refl}
use piso_chain.Mnemonic.{index_from, word_index}
use piso_chain.Mnemonic.Wordlist.{wordlist}

-- Alphabetical order, strictly.
unfoldable before : Text → Text → Bool
before [] [] = false
before [] (d ∷ u) = true
before (c ∷ t) [] = false
before (c ∷ t) (d ∷ u) = if c == d then before t u else ltb c d

unfoldable increasing : Text → List Text → Bool
increasing w [] = true
increasing w (v ∷ words) = before w v && increasing v words

sorted : List Text → Bool
unfolding increasing before
sorted [] = true
sorted (w ∷ words) = increasing w words

wordlist-sorted : sorted wordlist ≡ true
unfolding sorted wordlist
wordlist-sorted = refl

before_irrefl : (w v : Text) → before w v ≡ true → v ≢ w
unfolding before
before_irrefl w v h e = self w (ap (before w) (sym e) ∙ h)
  where
    self : (w : Text) → before w w ≡ true → ⊥
    self [] h = cc
    self (c ∷ t) h = self t (ground arith)

before_trans : (a b c : Text) → before a b ≡ true → before b c ≡ true → before a c ≡ true
unfolding before
before_trans [] [] c h k = k
before_trans [] (y ∷ b) [] h k = k
before_trans [] (y ∷ b) (z ∷ c) h k = refl
before_trans (x ∷ a) [] c h k = cc
before_trans (x ∷ a) (y ∷ b) [] h k = k
before_trans (x ∷ a) (y ∷ b) (z ∷ c) h k = ground (arith, before_trans a b c)

increasing-All :
    (u w : Text) (words : List Text)
    → increasing w words ≡ true
    → ((v : Text) → before w v ≡ true → before u v ≡ true)
    → All (λ v. before u v ≡ true) words
unfolding increasing
increasing-All u w [] h f = tt
increasing-All u w (v ∷ words) h f =
    let first : before w v ≡ true = ground arith in
    (f v first, increasing-All u v words (ground arith) (λ x k. f x (before_trans w v x first k)))

lookup-index_from_absent :
    (w : Text) (idx : ℕ) (words : List Text) (d : Dict Text ℕ)
    → All (λ v. v ≢ w) words
    → lookup w (index_from idx words d) ≡ lookup w d
unfolding index_from
lookup-index_from_absent w idx [] d h = refl
lookup-index_from_absent w idx (v ∷ words) d h =
    lookup-index_from_absent w (idx + 1) words (insert v idx d) h.1
    ∙ lookup-insert v w idx d
    ∙ ground (arith, text_eq_iff v w, h.0)

lookup-index_from :
    (w : Text) (idx i : ℕ) (words : List Text) (d : Dict Text ℕ)
    → sorted words ≡ true
    → get_elem? words i ≡ some w
    → lookup w (index_from idx words d) ≡ some (idx + i)
unfolding index_from sorted
lookup-index_from w idx i [] d s h = cc
lookup-index_from w idx zero (v ∷ words) d s h =
    let same : v ≡ w = cc in
    let later : All (λ u. u ≢ v) words =
      All-map (λ u. before v u ≡ true) (λ u. u ≢ v) words (λ u k. before_irrefl v u k)
        (increasing-All v v words s (λ x k. k)) in
    rw⁻¹ same (
      lookup-index_from_absent v (idx + 1) words (insert v idx d) later
      ∙ lookup-insert v v idx d
      ∙ (rw (beq_refl v) (ap some (omega arith))))
lookup-index_from w idx (suc i) (v ∷ words) d s h =
    lookup-index_from w (idx + 1) i words (insert v idx d) (tail words s) h ∙ ap some (omega arith)
  where
    tail : (words : List Text) → increasing v words ≡ true → sorted words ≡ true
    tail [] s = refl
    tail (u ∷ words) s = unfold increasing in ground arith

-- One word more than a word list of BIP-39 has.
pub length-wordlist : length wordlist ≡ 2049
unfolding wordlist
length-wordlist = refl

-- The index of the word at a place of the list is the place.
pub lookup-word_index :
    (w : Text) (i : ℕ) → get_elem? wordlist i ≡ some w → lookup w word_index ≡ some i
unfolding word_index
lookup-word_index w i h =
    lookup-index_from w 0 i wordlist [] wordlist-sorted h ∙ ap some (omega arith)
