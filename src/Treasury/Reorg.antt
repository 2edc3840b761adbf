-- ===== src/Treasury/Reorg.antt =====
-- `rollback_block_reorg` is the inverse of `finalize_block_reward`.
use piso_chain.Base.{
  ℕ, ◌≡◌, ◌≢◌, refl, ◌∙◌, true, false, some, arith, Text, text_key, nat_key, ◌==◌,
}
use piso_chain.Text.{lower}
use piso_chain.Int.{ℤ, int_laws}
use piso_chain.Dict.{lookup, contains, erase}
use piso_chain.Dict.Laws.{lookup-insert, lookup-erase_ne, beq_refl}
use piso_chain.Treasury.{
  Engine, Rollback, rolled_back, balance, treasury_address, rollback_block_reorg,
  finalize_block_reward,
}
use piso_chain.Treasury.Effects.{
  after, recorded, balance-finalize, history-finalize, distributed-finalize, contains-finalize,
}
use piso_chain.Treasury.Undo.{undone, rollback-eq-undone, balance-undone}

-- The two engines show the same balances and totals, and the same history except at block `n`.
pub record SameExcept (n : ℕ) (e f : Engine) : Type 0 where
  pub balances : (a : Text) → balance e a ≡ balance f a
  pub distributed : e.total_distributed_wei ≡ f.total_distributed_wei
  pub history : (j : ℕ) → j ≢ n → lookup j e.block_history ≡ lookup j f.block_history

abbrev pub IsRolledBack : Rollback → Type 0
IsRolledBack (rolled_back n treasury distributed) = Unit
IsRolledBack _ = ⊥

module _ (now : ℕ) (e : Engine) (n : ℕ) (m : Text) (fees : ℤ) where
  found : lookup n (after now e n m fees).block_history ≡ some (recorded now e n m fees)
  found = rw (history-finalize now e n m fees) (rw (lookup-insert, beq_refl {K = ℕ} n) refl)

  treasury_known : contains treasury_address (after now e n m fees).balances ≡ true
  treasury_known =
      contains-finalize now e n m fees treasury_address
      ∙ rw (beq_refl {K = Text} treasury_address) (ground arith)

  miner_known : contains (recorded now e n m fees).miner (after now e n m fees).balances ≡ true
  miner_known =
      contains-finalize now e n m fees (lower m) ∙ rw (beq_refl {K = Text} (lower m)) (ground arith)

  undo_balance :
      (a : Text)
      → balance
          (undone
            (after now e n m fees)
            n
            (recorded now e n m fees)
            found
            treasury_known
            miner_known)
          a
        ≡ balance e a
  undo_balance a =
      balance-undone (after now e n m fees) n (recorded now e n m fees) found treasury_known
        miner_known a
      ∙ rw (balance-finalize now e n m fees a) (grind int_laws)

  undo_history :
      (j : ℕ)
      → (n == j) ≡ false
      → lookup j (erase n (after now e n m fees).block_history) ≡ lookup j e.block_history
  undo_history j ne =
      lookup-erase_ne n j (after now e n m fees).block_history ne
      ∙ rw (history-finalize now e n m fees) (rw lookup-insert (rw ne))

  -- Rolling back the block that was just finalized answers with a rollback, never an error, and gives
  -- back every balance, the total distributed and the history of every other block.
  pub rollback-finalize :
      let (e', answer) = rollback_block_reorg (finalize_block_reward now e n m fees).0 n in
      SameExcept n e' e × IsRolledBack answer
  rollback-finalize =
      rw
        (rollback-eq-undone (after now e n m fees) n (recorded now e n m fees) found treasury_known
          miner_known)
        (
          record {
            balances = undo_balance;
            distributed = rw (distributed-finalize now e n m fees) (omega int_laws);
            history = λ j ne. undo_history j (ground arith);
          },
          tt,
        )

  pub history-rollback-finalize :
      (rollback_block_reorg (finalize_block_reward now e n m fees).0 n).0.block_history
      ≡ erase n (finalize_block_reward now e n m fees).0.block_history
  history-rollback-finalize = rw (
      rollback-eq-undone (after now e n m fees) n (recorded now e n m fees) found treasury_known
        miner_known)
