-- ===== src/Slip39/Gf256/Entries.antt =====
-- What the filled tables hold, by evaluation over all of their entries.
use piso_chain.Base.{
  ℕ, ◌+◌, ◌%◌, ◌<◌, ◌≡◌, Bool, true, ◌&&◌, List, get_or, ◌==◌, ==_iff, ltb, arith, refl, all_below,
  all_below_sound,
}
use piso_chain.Slip39.Gf256.{Tables, tables, exp, log, double}

abbrev next_test : List ℕ → ℕ → Bool
next_test e i = get_or e (i + 1) 0 == double (get_or e i 0)

abbrev period_test : List ℕ → ℕ → Bool
period_test e i = get_or e (i + 255) 0 == get_or e i 0

abbrev byte_test : List ℕ → ℕ → Bool
byte_test e i = ltb (get_or e i 0) 256 && ltb 0 (get_or e i 0)

-- at `a + 1`, a byte that is not zero
abbrev inverse_test : Tables → ℕ → Bool
inverse_test t a = let l = get_or t.log (a + 1) 0 in ltb l 255 && get_or t.exp l 0 == a + 1

abbrev log_test : Tables → ℕ → Bool
log_test t i = get_or t.log (get_or t.exp i 0) 0 == i % 255

all_tests : Tables → Bool
all_tests t =
    all_below 511 (next_test t.exp)
    && all_below 257 (period_test t.exp)
    && all_below 512 (byte_test t.exp)
    && all_below 255 (inverse_test t)
    && all_below 510 (log_test t)

tables_pass : all_tests tables ≡ true
unfolding all_tests all_below tables double
tables_pass = refl

-- The parts of the test, with the loops over the entries kept shut.
parts :
    (t : Tables)
    → all_tests t ≡ true
    → (all_below 511 (next_test t.exp) ≡ true)
      × (all_below 257 (period_test t.exp) ≡ true)
      × (all_below 512 (byte_test t.exp) ≡ true)
      × (all_below 255 (inverse_test t) ≡ true)
      × (all_below 510 (log_test t) ≡ true)
unfolding all_tests
parts t h = ground arith

pub exp-suc : (i : ℕ) → i < 511 → exp (i + 1) ≡ double (exp i)
unfolding exp
exp-suc i h =
    (==_iff (get_or tables.exp (i + 1) 0) (double (get_or tables.exp i 0))).0
      (all_below_sound 511 (next_test tables.exp) i (parts tables tables_pass).0 h)

pub exp_period : (i : ℕ) → i < 257 → exp (i + 255) ≡ exp i
unfolding exp
exp_period i h =
    (==_iff (get_or tables.exp (i + 255) 0) (get_or tables.exp i 0)).0
      (all_below_sound 257 (period_test tables.exp) i (parts tables tables_pass).1 h)

byte_of_test : (x : ℕ) → (ltb x 256 && ltb 0 x) ≡ true → (x < 256) × (0 < x)
byte_of_test x h = ground arith

pub exp-byte : (i : ℕ) → i < 512 → (exp i < 256) × (0 < exp i)
unfolding exp
exp-byte i h =
    byte_of_test (get_or tables.exp i 0)
      (all_below_sound 512 (byte_test tables.exp) i (parts tables tables_pass).2 h)

inverse_of_test : (l e a : ℕ) → (ltb l 255 && e == a + 1) ≡ true → (l < 255) × (e ≡ a + 1)
inverse_of_test l e a h = ground arith

-- Every byte but zero is a power, and its logarithm is below 255.
pub exp-log : (a : ℕ) → a < 255 → (log (a + 1) < 255) × (exp (log (a + 1)) ≡ a + 1)
unfolding exp log
exp-log a h =
    inverse_of_test (get_or tables.log (a + 1) 0)
      (get_or tables.exp (get_or tables.log (a + 1) 0) 0) a
      (all_below_sound 255 (inverse_test tables) a (parts tables tables_pass).3 h)

pub log-exp : (i : ℕ) → i < 510 → log (exp i) ≡ i % 255
unfolding exp log
log-exp i h =
    (==_iff (get_or tables.log (get_or tables.exp i 0) 0) (i % 255)).0
      (all_below_sound 510 (log_test tables) i (parts tables tables_pass).4 h)
