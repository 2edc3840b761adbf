-- ===== src/Text/Parts.antt =====
-- `strip` and `split` on text without spaces and separators.
use mathlib.Core.List.{reverse, reverse_aux, reverse-reverse}
use piso_chain.Base.{ℕ, ◌≡◌, ◌≢◌, refl, ap, ◌∙◌, false, [], ◌∷◌, ◌++◌, All, arith, Text}
use piso_chain.Text.{is_space, lstrip, strip, split_on}

pub lstrip-eq : (c : ℕ) (t : Text) → is_space c ≡ false → lstrip (c ∷ t) ≡ c ∷ t
unfolding lstrip
lstrip-eq c t h = ground arith

abbrev pub NoSpaces : Text → Type 0
NoSpaces = All (λ c. is_space c ≡ false)

lstrip_none : (t : Text) → NoSpaces t → lstrip t ≡ t
lstrip_none [] h = unfold lstrip in refl
lstrip_none (c ∷ t) h = lstrip-eq c t h.0

All-reverse_aux : (P : ℕ → Type 0) (t out : Text) → All P t → All P out → All P (reverse_aux t out)
All-reverse_aux P [] out h k = k
All-reverse_aux P (c ∷ t) out h k = All-reverse_aux P t (c ∷ out) h.1 (h.0, k)

All-reverse : (P : ℕ → Type 0) (t : Text) → All P t → All P (reverse t)
All-reverse P t h = All-reverse_aux P t [] h tt

pub strip-eq : (t : Text) → NoSpaces t → strip t ≡ t
unfolding strip
strip-eq t h =
    ap (λ u. reverse (lstrip (reverse u))) (lstrip_none t h)
    ∙ ap reverse (lstrip_none (reverse t) (All-reverse (λ c. is_space c ≡ false) t h))
    ∙ reverse-reverse t

abbrev pub Lacks : ℕ → Text → Type 0
Lacks separator = All (λ c. c ≢ separator)

-- A part without the separator, before a separator, is split off.
pub split_on-append :
    (separator : ℕ) (part rest : Text)
    → Lacks separator part
    → split_on separator (part ++ separator ∷ rest) ≡ part ∷ split_on separator rest
unfolding split_on
split_on-append separator [] rest h = ground arith
split_on-append separator (c ∷ part) rest h =
    ground (arith, split_on-append separator part rest h.1)

pub split_on-last :
    (separator : ℕ) (part : Text) → Lacks separator part → split_on separator part ≡ part ∷ []
unfolding split_on
split_on-last separator [] h = refl
split_on-last separator (c ∷ part) h = ground (arith, split_on-last separator part h.1)
