-- ===== src/Treasury/Effects.antt =====
-- What one call of `finalize_block_reward` or `rollback_block_reorg` does to the balances.
use piso_chain.Base.{
  ◌||◌, refl, ℕ, ◌≡◌, arith, if◌then◌else◌, Text, text_eq, text_eq_iff, text_key, nat_key,
}
use piso_chain.Text.{lower}
use piso_chain.Int.{ℤ, ◌+ℤ◌, ◌-ℤ◌, min_ℤ}
use piso_chain.Dict.{insert, contains}
use piso_chain.Dict.Laws.{get_default-insert, contains-insert}
use piso_chain.Treasury.{
  Snapshot, Engine, balance, treasury_address, calculate_block_reward, finalize_block_reward,
}

-- What leaves the treasury.
abbrev pub payout : Engine → ℕ → ℤ
payout e n = min_ℤ (calculate_block_reward e n) (balance e treasury_address)

module _ (now : ℕ) (e : Engine) (n : ℕ) (m : Text) (fees : ℤ) where
  abbrev pub after : Engine
  after = (finalize_block_reward now e n m fees).0

  -- the balance of `a` when the treasury has paid and the miner has not yet been credited
  abbrev pub debited : Text → ℤ
  debited a = if text_eq treasury_address a then balance e a -ℤ payout e n else balance e a

  pub balance-finalize :
      (a : Text)
      → balance after a
        ≡ (if text_eq (lower m) a then debited a +ℤ (payout e n +ℤ fees) else debited a)
  unfolding finalize_block_reward balance
  balance-finalize a =
      simp get_default-insert
        (ground (arith, text_eq_iff (lower m) a, text_eq_iff treasury_address a))

  -- the snapshot that the call records
  abbrev pub recorded : Snapshot
  recorded = record {
    block_number = n;
    miner = lower m;
    treasury_payout_wei = payout e n;
    tx_fees_wei = fees;
    remaining_treasury_wei = balance after treasury_address;
    total_distributed_wei = e.total_distributed_wei +ℤ payout e n;
    timestamp = now;
  }

  pub history-finalize : after.block_history ≡ insert n recorded e.block_history
  unfolding finalize_block_reward balance
  history-finalize = refl

  pub distributed-finalize : after.total_distributed_wei ≡ e.total_distributed_wei +ℤ payout e n
  unfolding finalize_block_reward balance
  distributed-finalize = refl

  -- No address is ever forgotten, and the treasury and the miner are known afterwards.
  pub contains-finalize :
      (a : Text)
      → contains a after.balances
        ≡ (text_eq (lower m) a || text_eq treasury_address a || contains a e.balances)
  unfolding finalize_block_reward balance
  contains-finalize a = simp contains-insert (ground arith)
