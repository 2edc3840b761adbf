-- ===== src/Text.antt =====
-- Python's text operations on code points, for the ASCII text that the program handles.
pub mod Parts
pub mod Numbers
pub mod Hex
use Prim.Native.String.{String}
use Prim.Native.Char.{code}
use mathlib.Core.List.{reverse}
use piso_chain.Base.{
  ℕ, ◌+◌, ◌-◌, ◌≡◌, refl, Bool, ◌&&◌, ◌||◌, List, [], ◌∷◌, map, arith, leb, ◌==◌, if◌then◌else◌,
  Text,
}

-- The code points of a literal.
abbrev pub codes : String → Text
codes String.[] = []
codes (String.◌∷◌ c s) = code c ∷ codes s

abbrev pub is_upper : ℕ → Bool
is_upper c = leb b'A' c && leb c b'Z'

abbrev pub lower_char : ℕ → ℕ
lower_char c = if is_upper c then c + 32 else c

-- `s.lower()`
unfoldable pub lower : Text → Text
lower = map lower_char

pub lower_idem : (t : Text) → lower (lower t) ≡ lower t
unfolding lower
lower_idem [] = refl
lower_idem (c ∷ t) = ground (arith, lower_idem t)

-- `s.replace("0x", "")`
unfoldable pub without_0x : Text → Text
without_0x [] = []
without_0x (c ∷ []) = c ∷ []
without_0x (c ∷ d ∷ t) =
    let inside = without_0x (d ∷ t) in
    let behind = without_0x t in if c == b'0' && d == b'x' then behind else c ∷ inside

-- `s.upper()`
unfoldable pub upper : Text → Text
upper [] = []
upper (c ∷ t) = (if leb b'a' c && leb c b'z' then c - 32 else c) ∷ upper t

-- ASCII white space: tab, line feed, vertical tab, form feed, carriage return, the four separators and
-- the blank
abbrev pub is_space : ℕ → Bool
is_space c = (leb 9 c && leb c 13) || (leb 28 c && leb c 32)

-- `s.lstrip()`
unfoldable pub lstrip : Text → Text
lstrip [] = []
lstrip (c ∷ t) = if is_space c then lstrip t else c ∷ t

-- `s.strip()`
unfoldable pub strip : Text → Text
strip t = reverse (lstrip (reverse (lstrip t)))

abbrev add_to_first : ℕ → List Text → List Text
add_to_first c [] = (c ∷ []) ∷ []
add_to_first c (part ∷ parts) = (c ∷ part) ∷ parts

-- `s.split(separator)` for a separator of one character
unfoldable pub split_on : ℕ → Text → List Text
split_on separator [] = [] ∷ []
split_on separator (c ∷ t) =
    let rest = split_on separator t in if c == separator then [] ∷ rest else add_to_first c rest

-- the pieces of a text between any two spaces, with empty ones
unfoldable pub pieces : Text → List Text
pieces [] = [] ∷ []
pieces (c ∷ t) = let rest = pieces t in if is_space c then [] ∷ rest else add_to_first c rest

unfoldable pub nonempty : List Text → List Text
nonempty [] = []
nonempty ([] ∷ parts) = nonempty parts
nonempty ((c ∷ part) ∷ parts) = (c ∷ part) ∷ nonempty parts

-- `s.split()`
unfoldable pub split : Text → List Text
split t = nonempty (pieces t)
