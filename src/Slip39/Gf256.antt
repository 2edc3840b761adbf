-- ===== src/Slip39/Gf256.antt =====
-- `GF256` of wallet/slip39/shamir.py. `_init_tables` fills the class's tables on first use and then
-- leaves them alone, so the operations read the filled tables, `tables`.
pub mod Entries
pub mod Doubling
pub mod Laws
pub mod Bytes
pub mod Operations
use Prim.Native.Nat.{bit_and}
use piso_chain.Base.{
  ℕ, zero, suc, ◌+◌, ◌-◌, ◌*◌, ◌%◌, ◌<◌, ◌≡◌, Bool, true, false, ◌||◌, not, List, [], ◌∷◌, get_or,
  set, replicate, bit_xor, ◌==◌, ltb, if◌then◌else◌, refl,
}
use piso_chain.Slip39.Errors.{Result, ok, err, Error, ◌>>=◌}

pub record Tables : Type 0 where
  pub exp : List ℕ
  pub log : List ℕ

-- `EXP = [0] * 512`, `LOG = [0] * 256`
abbrev pub blank : Tables
blank = record { exp = replicate 512 0; log = replicate 256 0 }

-- `x <<= 1`, and `x ^= 0x11D` if that sets the bit 0x100
unfoldable pub double : ℕ → ℕ
double x = let y = x * 2 in if bit_and y 0x100 == 0 then y else bit_xor y 0x11D

-- `for i in range(255)`: the rounds left, `i` and `x`
fill : ℕ → ℕ → ℕ → Tables → Tables
unfolding double
fill zero i x t = t
fill (suc rounds) i x t =
    fill rounds (suc i) (double x) (record { exp = set t.exp i x; log = set t.log x i })

-- `for i in range(255, 512)`
repeat : ℕ → ℕ → List ℕ → List ℕ
repeat zero i exp = exp
repeat (suc rounds) i exp = repeat rounds (suc i) (set exp i (get_or exp (i - 255) 0))

unfoldable pub init_tables : Tables → Tables
unfolding fill repeat
init_tables t =
    if get_or t.exp 1 0 == 0
    then (let filled = fill 255 0 1 t in record filled { exp = repeat 257 255 filled.exp })
    else t

unfoldable pub tables : Tables
unfolding init_tables
tables = init_tables blank

unfoldable pub exp : ℕ → ℕ
exp i = get_or tables.exp i 0

unfoldable pub log : ℕ → ℕ
log a = get_or tables.log a 0

-- `LOG[a]`, which raises IndexError beyond a byte
unfoldable pub log_checked : ℕ → Result ℕ
log_checked a = if ltb a 256 then ok (log a) else err Error.index_error

unfoldable pub add : ℕ → ℕ → ℕ
add a b = bit_xor a b

unfoldable pub mul : ℕ → ℕ → Result ℕ
unfolding log_checked
mul a b =
    if a == 0 || b == 0 then ok 0 else do la ← log_checked a; lb ← log_checked b; ok (exp (la + lb))

-- Python's `%` of a negative number is counted from 255.
unfoldable pub div : ℕ → ℕ → Result ℕ
unfolding log_checked
div a b =
    if b == 0
    then err Error.zero_division
    else if a == 0
    then ok 0
    else do la ← log_checked a; lb ← log_checked b; ok (exp ((la + 255 - lb) % 255))

-- A second call of `_init_tables` changes nothing.
pub init_tables_idem : init_tables tables ≡ tables
unfolding tables
init_tables_idem = refl
