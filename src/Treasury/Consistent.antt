-- ===== src/Treasury/Consistent.antt =====
-- The invariant of the treasury engine, over every order of finalizations and rollbacks.
pub mod Finalize
pub mod Undone
pub mod Reach
use piso_chain.Base.{
  ℕ, ◌≡◌, refl, Bool, true, false, none, some, arith, if◌then◌else◌, Text, text_eq, text_eq_iff,
  text_key, nat_key, Option-cases, inl, inr, [], ◌∷◌, sym,
}
use piso_chain.Text.{lower}
use piso_chain.Int.{ℤ, pos, ◌+ℤ◌, ◌-ℤ◌, ◌≤ℤ◌, int_laws}
use piso_chain.Dict.{lookup, contains, get_default, insert, erase}
use piso_chain.Dict.Laws.{beq_refl, contains-insert}
use piso_chain.Dict.Total.{total, total-insert, total-erase}
use piso_chain.Dict.Values.{
  AllValues, AllValues-insert, AllValues-erase, AllValues-lookup, AllValues-get_default,
  AllValues-map, total_nonneg,
}
use piso_chain.Treasury.{
  Engine, Snapshot, Rollback, key_error, init, balance, treasury_address, finalize_block_reward,
  rollback_block_reorg, roll_back,
}
use piso_chain.Treasury.Effects.{
  after, payout, recorded, balance-finalize, history-finalize, distributed-finalize,
  contains-finalize,
}
use piso_chain.Treasury.Reward.{payout_bounds}
use piso_chain.Treasury.Undo.{undone, rollback-eq-undone, balance-undone}

-- What the recorded block still owes to `a` if it is rolled back.
abbrev pub credit_to : Text → Snapshot → ℤ
credit_to a s = if text_eq s.miner a then s.treasury_payout_wei +ℤ s.tx_fees_wei else pos 0

abbrev pub payout_of : Snapshot → ℤ
payout_of s = s.treasury_payout_wei

-- A snapshot of a block of a miner other than the treasury, with fees of zero or more.
pub record IsFine (e : Engine) (s : Snapshot) : Type 0 where
  pub payout_nonneg : pos 0 ≤ℤ s.treasury_payout_wei
  pub fees_nonneg : pos 0 ≤ℤ s.tx_fees_wei
  pub other : text_eq s.miner treasury_address ≡ false
  pub known : contains s.miner e.balances ≡ true

pub record IsConsistent (supply : ℤ) (e : Engine) : Type 0 where
  pub conserved : balance e treasury_address +ℤ e.total_distributed_wei ≡ supply
  pub treasury_nonneg : pos 0 ≤ℤ balance e treasury_address
  pub treasury_known : contains treasury_address e.balances ≡ true
  pub fine : AllValues (IsFine e) e.block_history
  pub covered :
      (a : Text)
      → text_eq a treasury_address ≡ false
      → total (credit_to a) e.block_history ≤ℤ balance e a
  pub paid : total payout_of e.block_history ≤ℤ e.total_distributed_wei

pub credit_nonneg : (a : Text) {e : Engine} (s : Snapshot) → IsFine e s → pos 0 ≤ℤ credit_to a s
credit_nonneg a s h = grind (int_laws, h.payout_nonneg, h.fees_nonneg)

abbrev pub blank : Snapshot
blank = record {
  block_number = 0;
  miner = [];
  treasury_payout_wei = pos 0;
  tx_fees_wei = pos 0;
  remaining_treasury_wei = pos 0;
  total_distributed_wei = pos 0;
  timestamp = 0;
}

pub credit-blank : (a : Text) → credit_to a blank ≡ pos 0
credit-blank a = grind int_laws

pub IsConsistent-init : (n : ℕ) → IsConsistent (balance (init n) treasury_address) (init n)
unfolding init balance get_default contains total
IsConsistent-init n = record {
  conserved = omega int_laws;
  treasury_nonneg = rw (beq_refl {K = Text} treasury_address) (omega arith);
  treasury_known = rw (beq_refl {K = Text} treasury_address);
  fine = tt;
  covered = λ a h. ground arith;
  paid = omega arith;
}
