-- ===== src/Derivation/Tests.antt =====
-- Paths that are parsed, and the round trip at a concrete account.
use piso_chain.Base.{ℕ, text_eq, ◌≡◌, refl, none, some, [], ◌∷◌}
use piso_chain.Int.{pos, negsuc, ◌+ℤ◌, ◌-ℤ◌}
use piso_chain.Text.{codes, strip, lstrip, split_on}
use piso_chain.Text.Numbers.{parse_int, scan_signed, scan, digit_value}
use piso_chain.Derivation.{
  hardened_offset, parse, build_path, parse_from_root, parse_parts, parse_part, split_last,
}
use piso_chain.Derivation.RoundTrip.{parse-build_path}

apostrophe : (let c : ℕ = b'\'' in c) ≡ 39
apostrophe = refl

-- Empty parts are passed over, and `h` hardens as an apostrophe does.
other_marks : parse (codes " m//44h/7H/-3") ≡ some (pos 0x8000002C ∷ pos 0x80000007 ∷ negsuc 2 ∷ [])
unfolding text_eq parse parse_from_root parse_parts parse_part split_last strip lstrip split_on
    parse_int scan_signed scan digit_value ◌+ℤ◌ ◌-ℤ◌
other_marks = refl

no_root : parse (codes "44'/0") ≡ none
unfolding text_eq parse parse_from_root strip lstrip split_on
no_root = refl

no_number : parse (codes "m/4x") ≡ none
unfolding text_eq parse parse_from_root parse_parts parse_part split_last strip lstrip split_on
    parse_int scan_signed scan digit_value
no_number = refl

parse-build_path_example :
    parse (build_path 2026 0 1 17)
    ≡ some (
        (pos 44 +ℤ hardened_offset)
        ∷ (pos 2026 +ℤ hardened_offset)
        ∷ (pos 0 +ℤ hardened_offset)
        ∷ pos 1
        ∷ pos 17
        ∷ [])
parse-build_path_example = parse-build_path 2026 0 1 17
