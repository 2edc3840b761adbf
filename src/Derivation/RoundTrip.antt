-- ===== src/Derivation/RoundTrip.antt =====
-- `parse` reads the paths that `build_path` writes.
use piso_chain.Base.{
  ℕ, ◌≡◌, ◌≢◌, refl, ap, ◌∙◌, true, false, some, List, [], ◌∷◌, ◌++◌, All, All-map, All-append,
  arith, Text, text_eq,
}
use piso_chain.Int.{ℤ, pos, ◌+ℤ◌}
use mathlib.Core.List.{append_assoc}
use piso_chain.Text.{is_space, codes, strip, split_on, lstrip}
use piso_chain.Text.Parts.{NoSpaces, strip-eq, Lacks, split_on-append, split_on-last}
use piso_chain.Text.Numbers.{
  parse_int, to_digits, parse_int-to_digits, to_digits-Hex, Hex, Hex-NoSpaces, is_hex_digit,
  scan_signed, scan, digit_value,
}
use piso_chain.Derivation.{
  hardened_offset, ◌>>=◌, split_last, is_hardened_mark, parse_part, parse_parts, parse_from_root,
  parse, build_path,
}

split_last-append : (c q : ℕ) (t : Text) → split_last c (t ++ q ∷ []) ≡ (c ∷ t, q)
unfolding split_last
split_last-append c q [] = refl
split_last-append c q (d ∷ t) = rw (split_last-append d q t)

All-split_last : (P : ℕ → Type 0) (c : ℕ) (t : Text) → P c → All P t → P (split_last c t).1
unfolding split_last
All-split_last P c [] p h = p
All-split_last P c (d ∷ t) p h = All-split_last P d t h.0 h.1

not_mark : (c : ℕ) → is_hex_digit c ≡ true → is_hardened_mark c ≡ false
not_mark c h = ground arith

parse_int_nil : (v : ℤ) → parse_int 10 [] ≢ some v
unfolding parse_int strip lstrip
parse_int_nil v e = cc

-- A number with a quote behind it is a hardened index.
hardened_part :
    (t : Text) (v : ℤ) (ps : List Text)
    → parse_int 10 t ≡ some v
    → parse_parts ((t ++ b'\'' ∷ []) ∷ ps)
      ≡ (parse_parts ps >>= λ rest. some ((v +ℤ hardened_offset) ∷ rest))
unfolding parse_parts parse_part
hardened_part [] v ps e = absurd (parse_int_nil v e)
hardened_part (c ∷ t) v ps e = rw (split_last-append c b'\'' t) (rw e refl)

plain_part :
    (t : Text) (v : ℤ) (ps : List Text)
    → Hex t
    → parse_int 10 t ≡ some v
    → parse_parts (t ∷ ps) ≡ (parse_parts ps >>= λ rest. some (v ∷ rest))
unfolding parse_parts parse_part
plain_part [] v ps h e = absurd (parse_int_nil v e)
plain_part (c ∷ t) v ps h e =
    rw (not_mark (split_last c t).1 (All-split_last (λ x. is_hex_digit x ≡ true) c t h.0 h.1))
      (rw e refl)

number : (n : ℕ) → parse_int 10 (to_digits 10 n) ≡ some (pos n)
number n = parse_int-to_digits 10 n (omega arith) (omega arith)

digits : (n : ℕ) → Hex (to_digits 10 n)
digits n = to_digits-Hex 10 n (omega arith) (omega arith)

Hex-Lacks : (t : Text) → Hex t → Lacks b'/' t
Hex-Lacks t h = All-map (λ c. is_hex_digit c ≡ true) (λ c. c ≢ b'/') t (λ c e. ground arith) h

quoted : (n : ℕ) → Text
quoted n = to_digits 10 n ++ b'\'' ∷ []

quoted-Lacks : (n : ℕ) → Lacks b'/' (quoted n)
unfolding quoted
quoted-Lacks n =
    All-append (λ c. c ≢ b'/') (to_digits 10 n) (b'\'' ∷ []) (Hex-Lacks (to_digits 10 n) (digits n))
      (omega arith, tt)

forty_four : parse_int 10 (codes "44") ≡ some (pos 44)
unfolding parse_int strip lstrip scan_signed scan digit_value
forty_four = refl

quoted_part :
    (n : ℕ) (ps : List Text)
    → parse_parts (quoted n ∷ ps)
      ≡ (parse_parts ps >>= λ rest. some ((pos n +ℤ hardened_offset) ∷ rest))
unfolding quoted
quoted_part n ps = hardened_part (to_digits 10 n) (pos n) ps (number n)

quoted-NoSpaces : (n : ℕ) → NoSpaces (quoted n)
unfolding quoted
quoted-NoSpaces n =
    All-append (λ c. is_space c ≡ false) (to_digits 10 n) (b'\'' ∷ [])
      (Hex-NoSpaces (to_digits 10 n) (digits n)) (refl, tt)

from_root : (ps : List Text) → parse_from_root (codes "m" ∷ ps) ≡ parse_parts ps
unfolding parse_from_root text_eq
from_root ps = refl

module _ (coin_type account change address_index : ℕ) where
  -- the parts of a path, joined by slashes
  joined : Text
  joined =
      codes "m"
      ++ b'/'
        ∷ (codes "44'"
            ++ b'/'
              ∷ (quoted coin_type
                  ++ b'/'
                    ∷ (quoted account
                        ++ b'/' ∷ (to_digits 10 change ++ b'/' ∷ to_digits 10 address_index))))

  build_path-joined : build_path coin_type account change address_index ≡ joined
  unfolding build_path joined quoted
  build_path-joined = simp append_assoc

  split-joined :
      split_on b'/' joined
      ≡ codes "m"
        ∷ codes "44'"
        ∷ quoted coin_type
        ∷ quoted account
        ∷ to_digits 10 change
        ∷ to_digits 10 address_index
        ∷ []
  unfolding joined
  split-joined =
      let last : Text = to_digits 10 address_index in
      let from_change : Text = to_digits 10 change ++ b'/' ∷ last in
      let from_account : Text = quoted account ++ b'/' ∷ from_change in
      let from_coin : Text = quoted coin_type ++ b'/' ∷ from_account in
      split_on-append b'/' (codes "m") (codes "44'" ++ b'/' ∷ from_coin) (omega arith, tt)
      ∙ ap (λ t. codes "m" ∷ t)
          (split_on-append b'/' (codes "44'") from_coin
              (omega arith, (omega arith, (omega arith, tt)))
            ∙ ap (λ t. codes "44'" ∷ t)
                (split_on-append b'/' (quoted coin_type) from_account (quoted-Lacks coin_type)
                  ∙ ap (λ t. quoted coin_type ∷ t)
                      (split_on-append b'/' (quoted account) from_change (quoted-Lacks account)
                        ∙ ap (λ t. quoted account ∷ t)
                            (split_on-append b'/' (to_digits 10 change) last
                                (Hex-Lacks (to_digits 10 change) (digits change))
                              ∙ ap (λ t. to_digits 10 change ∷ t)
                                  (split_on-last b'/' last
                                    (Hex-Lacks last (digits address_index)))))))

  joined-NoSpaces : NoSpaces joined
  unfolding joined
  joined-NoSpaces =
      let spaceless : ℕ → Type 0 = λ c. is_space c ≡ false in
      let last : Text = to_digits 10 address_index in
      let from_change : Text = to_digits 10 change ++ b'/' ∷ last in
      let from_account : Text = quoted account ++ b'/' ∷ from_change in
      (
        refl,
        (
          refl,
          (
            refl,
            (
              refl,
              (
                refl,
                (
                  refl,
                  All-append spaceless (quoted coin_type) (b'/' ∷ from_account)
                      (quoted-NoSpaces coin_type)
                      (
                        refl,
                        All-append spaceless (quoted account) (b'/' ∷ from_change)
                            (quoted-NoSpaces account)
                            (
                              refl,
                              All-append spaceless (to_digits 10 change) (b'/' ∷ last)
                                  (Hex-NoSpaces (to_digits 10 change) (digits change))
                                  (refl, Hex-NoSpaces last (digits address_index)),
                            ),
                      ),
                ),
              ),
            ),
          ),
        ),
      )

  -- A path that `build_path` writes is parsed into its five indices, the first three hardened.
  pub parse-build_path :
      parse (build_path coin_type account change address_index)
      ≡ some (
          (pos 44 +ℤ hardened_offset)
          ∷ (pos coin_type +ℤ hardened_offset)
          ∷ (pos account +ℤ hardened_offset)
          ∷ pos change
          ∷ pos address_index
          ∷ [])
  unfolding parse
  parse-build_path = rw build_path-joined (
      rw (strip-eq joined joined-NoSpaces) (
        rw split-joined (
          rw from_root (
            rw
              (hardened_part (codes "44") (pos 44)
                (quoted coin_type
                  ∷ quoted account
                  ∷ to_digits 10 change
                  ∷ to_digits 10 address_index
                  ∷ [])
                forty_four)
              (rw
                (
                  quoted_part coin_type,
                  quoted_part account,
                  plain_part (to_digits 10 change) (pos change) (to_digits 10 address_index ∷ [])
                      (digits change) (number change),
                  plain_part (to_digits 10 address_index) (pos address_index) []
                      (digits address_index) (number address_index),
                )
                (unfold parse_parts in refl))))))
