-- ===== src/Derivation.antt =====
-- wallet/derivation/path.py: `DerivationPath.parse` and `BIP44Derivation.build_path`. A result `none` is
-- the ValueError of the code, or of `int`.
pub mod RoundTrip
mod Tests
use mathlib.Core.List.{reverse}
use piso_chain.Base.{
  ℕ, ◌^◌, Bool, true, false, ◌||◌, ◌&&◌, Option, none, some, List, [], ◌∷◌, ◌++◌, ◌==◌,
  if◌then◌else◌, Text, text_eq,
}
use piso_chain.Int.{ℤ, pos, ◌+ℤ◌}
use piso_chain.Text.{codes, strip, split_on}
use piso_chain.Text.Numbers.{parse_int, to_digits}

abbrev pub hardened_offset : ℤ
hardened_offset = pos 0x80000000

infixl 5 ◌>>=◌
abbrev ◌>>=◌ : {A B : Type 0} → Option A → (A → Option B) → Option B
none >>= f = none
some a >>= f = f a

-- `part[:-1]`, with its last character, where there is one
unfoldable pub split_last : ℕ → Text → Text × ℕ
split_last c [] = ([], c)
split_last c (d ∷ t) = let (front, last) = split_last d t in (c ∷ front, last)

abbrev pub is_hardened_mark : ℕ → Bool
is_hardened_mark c = c == b'\'' || c == b'h' || c == b'H'

-- the body of the loop, on a part that is not empty
unfoldable pub parse_part : ℕ → Text → Option ℤ
unfolding split_last
parse_part c t =
    let (front, last) = split_last c t in
    if is_hardened_mark last
    then (do val ← parse_int 10 front; some (val +ℤ hardened_offset))
    else parse_int 10 (c ∷ t)

-- `for part in parts[1:]`
unfoldable pub parse_parts : List Text → Option (List ℤ)
parse_parts [] = some []
parse_parts ([] ∷ parts) = parse_parts parts
parse_parts ((c ∷ part) ∷ parts) = do
  val ← parse_part c part
  rest ← parse_parts parts
  some (val ∷ rest)

-- from the test on `parts[0]`
unfoldable pub parse_from_root : List Text → Option (List ℤ)
parse_from_root [] = none
parse_from_root (root ∷ parts) = if text_eq root (codes "m") then parse_parts parts else none

unfoldable pub parse : Text → Option (List ℤ)
unfolding parse_from_root
parse path_str = parse_from_root (split_on b'/' (strip path_str))

-- `f"m/44'/{coin_type}'/{account}'/{change}/{address_index}"`
unfoldable pub build_path : ℕ → ℕ → ℕ → ℕ → Text
build_path coin_type account change address_index =
    codes "m"
    ++ b'/'
      ∷ (codes "44'"
          ++ b'/'
            ∷ (to_digits 10 coin_type
                ++ b'\''
                  ∷ b'/'
                  ∷ (to_digits 10 account
                      ++ b'\''
                        ∷ b'/'
                        ∷ (to_digits 10 change ++ b'/' ∷ to_digits 10 address_index))))
