-- ===== src/Treasury/Supply.antt =====
-- The sum of all balances, the treasury's included.
use piso_chain.Base.{ℕ, ◌≡◌, refl, ◌∙◌, true, some, Text, text_key, nat_key}
use piso_chain.Text.{lower}
use piso_chain.Int.{ℤ, pos, ◌+ℤ◌, ◌-ℤ◌, int_laws}
use piso_chain.Dict.{Dict, get_default, insert, lookup, contains}
use piso_chain.Dict.Total.{total, total-insert}
use piso_chain.Treasury.{
  Engine, Snapshot, balance, treasury_address, finalize_block_reward, rollback_block_reorg,
}
use piso_chain.Treasury.Effects.{payout}
use piso_chain.Treasury.Undo.{restored, deducted, rollback-eq-undone}

abbrev amount : ℤ → ℤ
amount x = x

-- the sum of `balances.values()`
pub circulating : Engine → ℤ
circulating e = total amount e.balances

-- A new balance moves the sum by the change.
total-insert_change :
    (a : Text) (x : ℤ) (d : Dict Text ℤ)
    → total amount (insert a (get_default (pos 0) a d +ℤ x) d) ≡ total amount d +ℤ x
total-insert_change a x d =
    grind (int_laws, total-insert amount (pos 0) a (get_default (pos 0) a d +ℤ x) d refl)

circulating-finalize :
    (now : ℕ) (e : Engine) (n : ℕ) (m : Text) (fees : ℤ)
    → circulating (finalize_block_reward now e n m fees).0 ≡ circulating e +ℤ fees
unfolding circulating finalize_block_reward balance
circulating-finalize now e n m fees =
    total-insert_change (lower m) (payout e n +ℤ fees)
      (insert treasury_address (balance e treasury_address -ℤ payout e n) e.balances)
    ∙ grind (
      int_laws,
      total-insert amount (pos 0) treasury_address (balance e treasury_address -ℤ payout e n)
          e.balances refl,
    )

circulating-rollback :
    (e : Engine) (n : ℕ) (s : Snapshot)
    → lookup n e.block_history ≡ some s
    → contains treasury_address e.balances ≡ true
    → contains s.miner e.balances ≡ true
    → circulating (rollback_block_reorg e n).0 ≡ circulating e -ℤ s.tx_fees_wei
unfolding circulating deducted restored
circulating-rollback e n s found tk mk = rw (rollback-eq-undone e n s found tk mk) (
    total-insert_change s.miner (pos 0 -ℤ (s.treasury_payout_wei +ℤ s.tx_fees_wei))
      (restored e n s found tk mk)
    ∙ grind (int_laws, total-insert_change treasury_address s.treasury_payout_wei e.balances))

-- Neither change of state mints or burns: finalizing a block moves the sum of all balances by the fees
-- alone, also where the miner is the treasury itself, and a rollback that finds its block, its miner
-- and the treasury takes the fees of the block back out of the sum.
pub circulating_changes :
    (e : Engine) (n : ℕ)
    → ((now : ℕ) (m : Text) (fees : ℤ)
        → circulating (finalize_block_reward now e n m fees).0 ≡ circulating e +ℤ fees)
      × ((s : Snapshot)
          → lookup n e.block_history ≡ some s
          → contains treasury_address e.balances ≡ true
          → contains s.miner e.balances ≡ true
          → circulating (rollback_block_reorg e n).0 ≡ circulating e -ℤ s.tx_fees_wei)
circulating_changes e n = (
  λ now m fees. circulating-finalize now e n m fees,
  λ s found tk mk. circulating-rollback e n s found tk mk,
)
