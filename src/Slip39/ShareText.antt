-- ===== src/Slip39/ShareText.antt =====
-- `Share.to_hex` and `Share.from_hex` of wallet/slip39/shamir.py, and the recovery from such texts,
-- `WalletRecovery.recover_from_shamir_shares` of wallet/recovery/recovery.py.
pub mod RoundTrip
use piso_chain.Base.{ℕ, ◌-◌, Option, none, some, List, [], ◌∷◌, ◌++◌, length, replicate, Text, map}
use piso_chain.Int.{ℤ, pos, negsuc}
use piso_chain.Text.{strip, split_on}
use piso_chain.Text.Numbers.{to_digits, parse_int}
use piso_chain.Text.Hex.{hex, fromhex}
use piso_chain.Slip39.Errors.{Result, ok, err, Error, ◌>>=◌}
use piso_chain.Slip39.Shamir.{Share, combine}

-- `f"{n:02x}"`
unfoldable pub two_digits : ℕ → Text
two_digits n = let t = to_digits 16 n in replicate (2 - length t) b'0' ++ t

unfoldable pub to_hex : Share → Text
unfolding two_digits
to_hex s = two_digits s.index ++ b'-' ∷ (two_digits s.threshold ++ b'-' ∷ hex s.bytes)

-- `int(part, 16)`. A part has no minus sign, since that is the separator.
unfoldable pub part_number : Option ℤ → Result ℕ
part_number (some (pos n)) = ok n
part_number (some (negsuc n)) = err Error.value_error
part_number none = err Error.value_error

unfoldable pub part_bytes : Option (List ℕ) → Result (List ℕ)
part_bytes (some bytes) = ok bytes
part_bytes none = err Error.value_error

-- from the test on `len(parts)`
unfoldable pub from_parts : List Text → Result Share
unfolding part_number part_bytes
from_parts (first ∷ second ∷ third ∷ []) = do
  idx ← part_number (parse_int 16 first)
  thresh ← part_number (parse_int 16 second)
  bytes ← part_bytes (fromhex third)
  ok (record { index = idx; bytes = bytes; threshold = thresh })
from_parts _ = err Error.value_error

unfoldable pub from_hex : Text → Result Share
unfolding from_parts
from_hex share_hex = from_parts (split_on b'-' (strip share_hex))

-- `[Share.from_hex(s) for s in share_hex_list]`
unfoldable pub shares_from_hex : List Text → Result (List Share)
shares_from_hex [] = ok []
shares_from_hex (t ∷ texts) = do s ← from_hex t; rest ← shares_from_hex texts; ok (s ∷ rest)

unfoldable pub recover_from_shamir_shares : List Text → Result (List ℕ)
recover_from_shamir_shares texts = do shares ← shares_from_hex texts; combine shares
