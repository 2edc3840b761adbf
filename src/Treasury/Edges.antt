-- ===== src/Treasury/Edges.antt =====
-- Two uses of the engine that its bookkeeping does not expect.
use piso_chain.Base.{ℕ, ◌≡◌, ◌∙◌, none, Text, text_key, nat_key}
use piso_chain.Text.{lower}
use piso_chain.Int.{ℤ, ◌+ℤ◌, int_laws}
use piso_chain.Dict.{lookup}
use piso_chain.Dict.Laws.{beq_refl, erase-insert_new, insert-insert}
use piso_chain.Treasury.{
  Engine, not_found, balance, treasury_address, finalize_block_reward, rollback_block_reorg,
}
use piso_chain.Treasury.Effects.{
  payout, recorded, balance-finalize, distributed-finalize, history-finalize,
}
use piso_chain.Treasury.Reorg.{rollback-finalize, history-rollback-finalize}
use piso_chain.Treasury.Consistent.Undone.{rollback_missing}

self_mining :
    (now : ℕ) (e : Engine) (n : ℕ) (m : Text) (fees : ℤ)
    → lower m ≡ treasury_address
    → let e' = (finalize_block_reward now e n m fees).0 in
      (balance e' treasury_address ≡ balance e treasury_address +ℤ fees)
      × (e'.total_distributed_wei ≡ e.total_distributed_wei +ℤ payout e n)
self_mining now e n m fees h = (
  rw (balance-finalize now e n m fees treasury_address)
      (rw (h, beq_refl {K = Text} treasury_address) (omega int_laws)),
  distributed-finalize now e n m fees,
)

refinalized :
    (now later n : ℕ) (e : Engine) (m w : Text) (fees tips : ℤ)
    → lookup n e.block_history ≡ none
    → let once = (finalize_block_reward now e n m fees).0 in
      let twice = (finalize_block_reward later once n w tips).0 in
      let back = (rollback_block_reorg twice n).0 in
      (rollback_block_reorg back n ≡ (back, not_found n))
      × (back.total_distributed_wei ≡ e.total_distributed_wei +ℤ payout e n)
refinalized now later n e m w fees tips h =
    let once = (finalize_block_reward now e n m fees).0 in
    let twice = (finalize_block_reward later once n w tips).0 in
    (
      rollback_missing (rollback_block_reorg twice n).0 n (
          rw (history-rollback-finalize later once n w tips) (
            rw (history-finalize later once n w tips, history-finalize now e n m fees)
              (rw insert-insert
                (rw (erase-insert_new n (recorded later once n w tips) e.block_history h) h)))),
      (rollback-finalize later once n w tips).0.distributed ∙ distributed-finalize now e n m fees,
    )

-- A block whose miner is the treasury itself leaves the treasury with the fees more and nothing less,
-- yet its payout is counted as distributed. A height that is finalized twice keeps only its second
-- snapshot: after one rollback a second one finds nothing and changes nothing, and what was counted for
-- the first block of the height stays counted.
pub accounting_edges :
    (e : Engine) (n : ℕ)
    → ((now : ℕ) (m : Text) (fees : ℤ)
        → lower m ≡ treasury_address
        → let e' = (finalize_block_reward now e n m fees).0 in
          (balance e' treasury_address ≡ balance e treasury_address +ℤ fees)
          × (e'.total_distributed_wei ≡ e.total_distributed_wei +ℤ payout e n))
      × ((now later : ℕ) (m w : Text) (fees tips : ℤ)
          → lookup n e.block_history ≡ none
          → let once = (finalize_block_reward now e n m fees).0 in
            let twice = (finalize_block_reward later once n w tips).0 in
            let back = (rollback_block_reorg twice n).0 in
            (rollback_block_reorg back n ≡ (back, not_found n))
            × (back.total_distributed_wei ≡ e.total_distributed_wei +ℤ payout e n))
accounting_edges e n = (
  λ now m fees h. self_mining now e n m fees h,
  λ now later m w fees tips h. refinalized now later n e m w fees tips h,
)
