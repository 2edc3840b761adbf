-- ===== src/Slip39/Tests.antt =====
-- Runs of `split`, `combine` and the share texts, and their theorems at a concrete secret.
use piso_chain.Base.{
  ℕ, ◌-◌, some, ◌+◌, ◌%◌, ◌<◌, ◌≡◌, refl, arith, List, [], ◌∷◌, map, All, get_elem?,
}
use piso_chain.Text.{codes, strip, split_on, lstrip}
use piso_chain.Text.Numbers.{parse_int, to_digits, digit_char, scan_signed, scan, digit_value}
use piso_chain.Text.Hex.{hex, fromhex}
use piso_chain.Slip39.Errors.{ok, err, Error}
use piso_chain.Slip39.Gf256.{add, mul, div, tables, exp, log, log_checked}
use piso_chain.Slip39.Gf256.Operations.{Closed, AddLaws, MulLaws, field_laws}
use piso_chain.Slip39.Shamir.{
  Share, split, combine, split_bytes, append_values, evaluate, draw, make_shares, combine_subset,
  combine_bytes, sum_terms, lagrange_fraction, multiply_by, byte_at,
}
use piso_chain.Slip39.Shamir.Combine.{DistinctIndices, combine-split}
use piso_chain.Slip39.Shamir.Limits.{SplitResult, split_result}
use piso_chain.Slip39.ShareText.{
  two_digits, part_number, part_bytes, from_parts, to_hex, from_hex, recover_from_shamir_shares,
}
use piso_chain.Slip39.ShareText.RoundTrip.{from_hex-to_hex, recover_from_shamir_shares-split}

abbrev secret : List ℕ
secret = 83 ∷ 7 ∷ 255 ∷ []

abbrev random : ℕ → ℕ
random n = (n + 41) % 256

random_bytes : (n : ℕ) → random n < 256
random_bytes n = omega arith

secret_bytes : All (λ b. b < 256) secret
secret_bytes = (omega arith, (omega arith, (omega arith, tt)))

-- two of three
abbrev first : Share
first = record { index = 1; bytes = 122 ∷ 45 ∷ 212 ∷ []; threshold = 2 }

abbrev second : Share
second = record { index = 2; bytes = 1 ∷ 83 ∷ 169 ∷ []; threshold = 2 }

abbrev third : Share
third = record { index = 3; bytes = 40 ∷ 121 ∷ 130 ∷ []; threshold = 2 }

split_in_three : split random secret 2 3 ≡ ok (first ∷ second ∷ third ∷ [])
unfolding split split_bytes append_values evaluate draw make_shares mul add log_checked exp log
    tables
split_in_three = refl

-- the third share and the first, in that order
chosen_held :
    All (λ s. get_elem? (first ∷ second ∷ third ∷ []) (s.index - 1) ≡ some s) (third ∷ first ∷ [])
chosen_held = (refl, (refl, tt))

chosen_distinct : DistinctIndices (third ∷ first ∷ [])
chosen_distinct = ((λ e. omega (arith, e), tt), (tt, tt))

text_of_share : to_hex third ≡ codes "03-02-287982"
unfolding to_hex two_digits to_digits hex digit_char
text_of_share = refl

share_of_text : from_hex (codes " 3-0x02-28 7982\n") ≡ ok third
unfolding from_hex from_parts strip lstrip split_on parse_int scan_signed scan digit_value fromhex
    part_number part_bytes
share_of_text = refl

too_few : combine (third ∷ []) ≡ err Error.value_error
unfolding combine
too_few = refl

same_share_twice : combine (third ∷ third ∷ []) ≡ err Error.zero_division
unfolding combine combine_subset combine_bytes sum_terms lagrange_fraction multiply_by byte_at mul
    div add
same_share_twice = refl

field_laws_example : Closed 90 17 × AddLaws 90 17 254 × MulLaws 90 17 254
field_laws_example = field_laws 90 17 254 (omega arith) (omega arith) (omega arith)

split_result_example : SplitResult 2 3 3 (split random secret 2 3)
split_result_example = split_result random random_bytes secret secret_bytes 2 3

combine-split_example : combine (third ∷ first ∷ []) ≡ ok secret
combine-split_example =
    combine-split random secret 2 3 (first ∷ second ∷ third ∷ []) (third ∷ first ∷ []) random_bytes
      secret_bytes split_in_three chosen_held chosen_distinct (omega arith)

share_from_text : from_hex (to_hex second) ≡ ok second
share_from_text = from_hex-to_hex second (omega arith, (omega arith, (omega arith, tt)))

recover_from_shamir_shares-split_example :
    recover_from_shamir_shares (map to_hex (third ∷ first ∷ [])) ≡ ok secret
recover_from_shamir_shares-split_example =
    recover_from_shamir_shares-split random secret 2 3 (first ∷ second ∷ third ∷ [])
      (third ∷ first ∷ []) random_bytes secret_bytes split_in_three chosen_held chosen_distinct
      (omega arith)
