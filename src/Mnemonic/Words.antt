-- ===== src/Mnemonic/Words.antt =====
-- Words joined by blanks and split again.
use piso_chain.Base.{◌≡◌, ◌≢◌, refl, sym, ap, ◌∙◌, false, List, [], ◌∷◌, ◌++◌, All, Text, arith}
use mathlib.Core.List.{append-nil, reverse, reverse_aux, reverse-reverse}
use piso_chain.Text.{is_space, lstrip, strip, split, pieces, nonempty}
use piso_chain.Text.Parts.{NoSpaces, lstrip-eq}
use piso_chain.Mnemonic.{join}

-- A word: not empty, and without spaces.
abbrev pub IsWord : Text → Type 0
IsWord w = (w ≢ []) × NoSpaces w

pieces-append :
    (word rest : Text) → NoSpaces word → pieces (word ++ b' ' ∷ rest) ≡ word ∷ pieces rest
unfolding pieces
pieces-append [] rest h = ground arith
pieces-append (c ∷ word) rest h = ground (arith, pieces-append word rest h.1)

pieces_last : (word : Text) → NoSpaces word → pieces word ≡ word ∷ []
unfolding pieces
pieces_last [] h = refl
pieces_last (c ∷ word) h = ground (arith, pieces_last word h.1)

nonempty_first :
    (word : Text) (words : List Text) → word ≢ [] → nonempty (word ∷ words) ≡ word ∷ nonempty words
unfolding nonempty
nonempty_first [] words h = absurd (h refl)
nonempty_first (c ∷ word) words h = refl

pub split-join : (words : List Text) → All IsWord words → split (join words) ≡ words
unfolding split join
split-join [] h = unfold pieces nonempty in refl
split-join (word ∷ []) h =
    ap nonempty (pieces_last word h.0.1) ∙ nonempty_first word [] h.0.0 ∙ unfold nonempty in refl
split-join (word ∷ next ∷ words) h =
    ap nonempty (pieces-append word (join (next ∷ words)) h.0.1)
    ∙ nonempty_first word (pieces (join (next ∷ words))) h.0.0
    ∙ ap (λ t. word ∷ t) (split-join (next ∷ words) h.1)

-- The text ends in a character that is no space.
abbrev EndsInWord : Text → Type 0
EndsInWord [] = ⊥
EndsInWord (c ∷ []) = is_space c ≡ false
EndsInWord (c ∷ d ∷ t) = EndsInWord (d ∷ t)

lstrip-reverse_aux : (t out : Text) → EndsInWord t → lstrip (reverse_aux t out) ≡ reverse_aux t out
lstrip-reverse_aux [] out h = absurd h
lstrip-reverse_aux (c ∷ []) out h = lstrip-eq c out h
lstrip-reverse_aux (c ∷ d ∷ t) out h = lstrip-reverse_aux (d ∷ t) (c ∷ out) h

EndsInWord-append : (t u : Text) → EndsInWord u → EndsInWord (t ++ u)
EndsInWord-append [] u h = h
EndsInWord-append (c ∷ []) [] h = absurd h
EndsInWord-append (c ∷ []) (d ∷ u) h = h
EndsInWord-append (c ∷ d ∷ t) u h = EndsInWord-append (d ∷ t) u h

EndsInWord-word : (w : Text) → IsWord w → EndsInWord w
EndsInWord-word [] h = h.0 refl
EndsInWord-word (c ∷ []) h = h.1.0
EndsInWord-word (c ∷ d ∷ t) h = EndsInWord-word (d ∷ t) (λ e. cc, h.1.1)

EndsInWord-join :
    (word : Text) (words : List Text) → All IsWord (word ∷ words) → EndsInWord (join (word ∷ words))
unfolding join
EndsInWord-join word [] h = EndsInWord-word word h.0
EndsInWord-join word (next ∷ words) h =
    EndsInWord-append word (b' ' ∷ join (next ∷ words))
      (behind (join (next ∷ words)) (EndsInWord-join next words h.1))
  where
    behind : (t : Text) → EndsInWord t → EndsInWord (b' ' ∷ t)
    behind [] h = absurd h
    behind (c ∷ t) h = h

lstrip-append : (w t : Text) → IsWord w → lstrip (w ++ t) ≡ w ++ t
lstrip-append [] t h = absurd (h.0 refl)
lstrip-append (c ∷ w) t h = lstrip-eq c (w ++ t) h.1.0

lstrip-join :
    (word : Text) (words : List Text)
    → All IsWord (word ∷ words)
    → lstrip (join (word ∷ words)) ≡ join (word ∷ words)
unfolding join
lstrip-join word [] h =
    ap lstrip (sym (append-nil word)) ∙ lstrip-append word [] h.0 ∙ append-nil word
lstrip-join word (next ∷ words) h = lstrip-append word (b' ' ∷ join (next ∷ words)) h.0

-- A joined text has nothing to strip.
strip-join : (words : List Text) → All IsWord words → strip (join words) ≡ join words
unfolding strip
strip-join [] h = unfold join lstrip in refl
strip-join (word ∷ words) h =
    let t : Text = join (word ∷ words) in
    ap (λ u. reverse (lstrip (reverse u))) (lstrip-join word words h)
    ∙ ap reverse (lstrip-reverse_aux t [] (EndsInWord-join word words h))
    ∙ reverse-reverse t

-- Words that are joined by blanks are found again.
pub split-strip-join : (words : List Text) → All IsWord words → split (strip (join words)) ≡ words
split-strip-join words h = ap split (strip-join words h) ∙ split-join words h
