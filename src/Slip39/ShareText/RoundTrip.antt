-- ===== src/Slip39/ShareText/RoundTrip.antt =====
-- A share comes back from its text, and a secret from the texts of its shares.
use piso_chain.Base.{
  ℕ, zero, suc, ◌-◌, ◌<◌, ◌≤◌, ◌≡◌, ◌≢◌, refl, ap, ◌∙◌, true, false, some, List, [], ◌∷◌, ◌++◌, All,
  All-map, All-append, length, replicate, Text, map, arith, get_elem?,
}
use piso_chain.Int.{pos}
use piso_chain.Text.{split_on, is_space}
use piso_chain.Text.Parts.{NoSpaces, strip-eq, Lacks, split_on-append, split_on-last}
use piso_chain.Text.Numbers.{
  to_digits, parse_int, scan, scan_nil, digit_char, scan-digit, scan-to_digits, to_digits-Hex, Hex,
  Hex-NoSpaces, is_hex_digit, parse_int-Hex,
}
use piso_chain.Text.Hex.{hex, fromhex-hex, hex-Hex}
use piso_chain.Slip39.Errors.{ok, ◌>>=◌}
use piso_chain.Slip39.Shamir.{Share, split, combine}
use piso_chain.Slip39.Shamir.Combine.{DistinctIndices, combine-split}
use piso_chain.Slip39.Shamir.ShareBytes.{split-IsBytes}
use piso_chain.Slip39.ShareText.{
  two_digits, to_hex, from_parts, from_hex, shares_from_hex, recover_from_shamir_shares,
}

zeros-Hex : (k : ℕ) (t : Text) → Hex t → Hex (replicate k b'0' ++ t)
zeros-Hex zero t h = h
zeros-Hex (suc k) t h = (refl, zeros-Hex k t h)

-- Behind a digit the digits are read as at the front.
scan-after_digit :
    (c : ℕ) (t : Text) → is_hex_digit c ≡ true → scan 16 0 true (c ∷ t) ≡ scan 16 0 false (c ∷ t)
unfolding scan
scan-after_digit c t h = ground arith

scan_zero :
    (t : Text) (n : ℕ) → Hex t → scan 16 0 false t ≡ some n → scan 16 0 false (b'0' ∷ t) ≡ some n
scan_zero [] n h e = absurd (scan_nil 16 n e)
scan_zero (c ∷ t) n h e =
    unfold digit_char in
    scan-digit 16 0 0 false (c ∷ t) (omega arith) (omega arith) ∙ scan-after_digit c t h.0 ∙ e

-- Leading zeros change no number.
scan-zeros :
    (k : ℕ) (t : Text) (n : ℕ)
    → Hex t
    → scan 16 0 false t ≡ some n
    → scan 16 0 false (replicate k b'0' ++ t) ≡ some n
scan-zeros zero t n h e = e
scan-zeros (suc k) t n h e =
    scan_zero (replicate k b'0' ++ t) n (zeros-Hex k t h) (scan-zeros k t n h e)

two_digits-Hex : (n : ℕ) → Hex (two_digits n)
unfolding two_digits
two_digits-Hex n =
    zeros-Hex (2 - length (to_digits 16 n)) (to_digits 16 n)
      (to_digits-Hex 16 n (omega arith) (omega arith))

-- `int(f"{n:02x}", 16)` is `n`.
parse_int-two_digits : (n : ℕ) → parse_int 16 (two_digits n) ≡ some (pos n)
parse_int-two_digits n = parse_int-Hex 16 (two_digits n) n (two_digits-Hex n) (
    unfold two_digits in
    scan-zeros (2 - length (to_digits 16 n)) (to_digits 16 n) n
      (to_digits-Hex 16 n (omega arith) (omega arith))
      (scan-to_digits 16 n (omega arith) (omega arith)))

Hex-Lacks : (t : Text) → Hex t → Lacks b'-' t
Hex-Lacks t h = All-map (λ c. is_hex_digit c ≡ true) (λ c. c ≢ b'-') t (λ c e. ground arith) h

abbrev IsBytes : Share → Type 0
IsBytes s = All (λ b. b < 256) s.bytes

to_hex-NoSpaces : (s : Share) → IsBytes s → NoSpaces (to_hex s)
unfolding to_hex
to_hex-NoSpaces s h =
    All-append (λ c. is_space c ≡ false) (two_digits s.index)
      (b'-' ∷ (two_digits s.threshold ++ b'-' ∷ hex s.bytes))
      (Hex-NoSpaces (two_digits s.index) (two_digits-Hex s.index))
      (
        refl,
        All-append (λ c. is_space c ≡ false) (two_digits s.threshold) (b'-' ∷ hex s.bytes)
            (Hex-NoSpaces (two_digits s.threshold) (two_digits-Hex s.threshold))
            (refl, Hex-NoSpaces (hex s.bytes) (hex-Hex s.bytes h)),
      )

split_on-to_hex :
    (s : Share)
    → IsBytes s
    → split_on b'-' (to_hex s) ≡ two_digits s.index ∷ two_digits s.threshold ∷ hex s.bytes ∷ []
unfolding to_hex
split_on-to_hex s h =
    split_on-append b'-' (two_digits s.index) (two_digits s.threshold ++ b'-' ∷ hex s.bytes)
      (Hex-Lacks (two_digits s.index) (two_digits-Hex s.index))
    ∙ ap (λ t. two_digits s.index ∷ t)
        (split_on-append b'-' (two_digits s.threshold) (hex s.bytes)
            (Hex-Lacks (two_digits s.threshold) (two_digits-Hex s.threshold))
          ∙ ap (λ t. two_digits s.threshold ∷ t)
              (split_on-last b'-' (hex s.bytes) (Hex-Lacks (hex s.bytes) (hex-Hex s.bytes h))))

-- A share whose data are bytes is read back from the text it is written as, whatever its index and
-- threshold.
pub from_hex-to_hex : (s : Share) → All (λ b. b < 256) s.bytes → from_hex (to_hex s) ≡ ok s
unfolding from_hex from_parts
from_hex-to_hex s h =
    ap (λ t. from_parts (split_on b'-' t)) (strip-eq (to_hex s) (to_hex-NoSpaces s h))
    ∙ ap from_parts (split_on-to_hex s h)
    ∙ rw (parse_int-two_digits s.index, parse_int-two_digits s.threshold, fromhex-hex s.bytes h)
        refl

shares_from_hex-map : (ss : List Share) → All IsBytes ss → shares_from_hex (map to_hex ss) ≡ ok ss
unfolding shares_from_hex
shares_from_hex-map [] h = refl
shares_from_hex-map (s ∷ ss) h = rw (from_hex-to_hex s h.0, shares_from_hex-map ss h.1) refl

-- A secret of bytes that is split into at most 254 shares comes back from the texts of any of them:
-- from the texts of shares with different indices, each one that `split` returned at its index's place,
-- in any order, and at least as many as the threshold.
pub recover_from_shamir_shares-split :
    (random : ℕ → ℕ) (secret : List ℕ) (threshold total_shares : ℕ) (all chosen : List Share)
    → ((n : ℕ) → random n < 256)
    → All (λ b. b < 256) secret
    → split random secret threshold total_shares ≡ ok all
    → All (λ s. get_elem? all (s.index - 1) ≡ some s) chosen
    → DistinctIndices chosen
    → threshold ≤ length chosen
    → recover_from_shamir_shares (map to_hex chosen) ≡ ok secret
unfolding recover_from_shamir_shares
recover_from_shamir_shares-split random secret threshold total_shares all chosen bounded bytes done
      held d many =
    ap (λ r. r >>= λ shares. combine shares)
      (shares_from_hex-map chosen (
        All-map (λ s. get_elem? all (s.index - 1) ≡ some s) IsBytes chosen
          (λ s h. split-IsBytes random secret threshold total_shares all s bounded bytes done h)
          held))
    ∙ combine-split random secret threshold total_shares all chosen bounded bytes done held d many
