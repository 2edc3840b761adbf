-- ===== src/Treasury/Consistent/Reach.antt =====
-- Every engine that finalizations and rollbacks reach, in any order and with any repetition.
use piso_chain.Base.{
  ℕ, ◌*◌, ◌^◌, ◌≡◌, false, Text, text_eq, Bool-cases, inl, inr, text_key, text_eq_iff,
}
use piso_chain.Text.{lower}
use piso_chain.Int.{ℤ, pos, ◌+ℤ◌, ◌≤ℤ◌, int_laws}
use piso_chain.Dict.Laws.{beq_refl}
use piso_chain.Dict.Values.{AllValues-map, total_nonneg}
use piso_chain.Dict.{get_default}
use piso_chain.Treasury.{
  Engine, init, balance, treasury_address, finalize_block_reward, rollback_block_reorg,
}
use piso_chain.Treasury.Consistent.{
  IsConsistent, IsFine, IsConsistent-init, credit_to, payout_of, credit_nonneg,
}
use piso_chain.Treasury.Consistent.Finalize.{finalize-IsConsistent}
use piso_chain.Treasury.Consistent.Undone.{rollback-IsConsistent, IsKeyError}

-- A call on the engine: a block of a miner other than the treasury with fees of zero or more is
-- finalized, or a block of any number is rolled back.
pub data Step (e : Engine) : Engine → Type 0 where
  finalized :
      (now n : ℕ) (m : Text) (fees : ℤ)
      → pos 0 ≤ℤ fees
      → text_eq (lower m) treasury_address ≡ false
      → Step e (finalize_block_reward now e n m fees).0
  reorged : (n : ℕ) → Step e (rollback_block_reorg e n).0

pub data Reach (s : Engine) : Engine → Type 0 where
  here : Reach s s
  next : {e f : Engine} → Reach s e → Step e f → Reach s f

Step-IsConsistent :
    {supply : ℤ} {e f : Engine} → Step e f → IsConsistent supply e → IsConsistent supply f
Step-IsConsistent {e = e} (finalized now n m fees p q) h =
    finalize-IsConsistent now e n m fees h p q
Step-IsConsistent {e = e} (reorged n) h = (rollback-IsConsistent e n h).0

Reach-IsConsistent :
    {supply : ℤ} {s e : Engine} → IsConsistent supply s → Reach s e → IsConsistent supply e
Reach-IsConsistent h here = h
Reach-IsConsistent h (next r st) = Step-IsConsistent st (Reach-IsConsistent h r)

init_supply : (n : ℕ) → balance (init n) treasury_address ≡ pos (n * 10 ^ 18)
unfolding init balance get_default
init_supply n = rw (beq_refl {K = Text} treasury_address)

balance_nonneg : {supply : ℤ} (e : Engine) (a : Text) → IsConsistent supply e → pos 0 ≤ℤ balance e a
balance_nonneg e a h = elim (Bool-cases (text_eq a treasury_address)) [
  | inl same ↦ rw ((text_eq_iff a treasury_address).0 same) h.treasury_nonneg
  | inr other ↦ omega (
    int_laws,
    h.covered a other,
    total_nonneg (credit_to a) e.block_history (
        AllValues-map (IsFine e) (λ s. pos 0 ≤ℤ credit_to a s) e.block_history
          (λ s f. credit_nonneg a s f) h.fine),
  )
]

distributed_nonneg :
    {supply : ℤ} (e : Engine) → IsConsistent supply e → pos 0 ≤ℤ e.total_distributed_wei
distributed_nonneg e h = omega (
  int_laws,
  h.paid,
  total_nonneg payout_of e.block_history (
      AllValues-map (IsFine e) (λ s. pos 0 ≤ℤ payout_of s) e.block_history (λ s f. f.payout_nonneg)
        h.fine),
)

-- From a new engine, through any rollbacks and any finalizations of blocks that other miners than the
-- treasury mined for fees of zero or more: what the treasury holds and what it has distributed add up to
-- the initial supply, so no more than the supply is ever distributed; no balance is negative.
pub supply_conserved :
    (n : ℕ) {e : Engine}
    → Reach (init n) e
    → (balance e treasury_address +ℤ e.total_distributed_wei ≡ pos (n * 10 ^ 18))
      × (pos 0 ≤ℤ e.total_distributed_wei)
      × (e.total_distributed_wei ≤ℤ pos (n * 10 ^ 18))
      × ((a : Text) → pos 0 ≤ℤ balance e a)
supply_conserved n {e} r =
    let h = Reach-IsConsistent (IsConsistent-init n) r in
    let conserved : balance e treasury_address +ℤ e.total_distributed_wei ≡ pos (n * 10 ^ 18) =
      rw (← init_supply n) h.conserved in
    (
      conserved,
      distributed_nonneg e h,
      grind (int_laws, conserved, h.treasury_nonneg),
      λ a. balance_nonneg e a h,
    )

-- From a new engine, through any rollbacks and any finalizations of blocks that other miners than the
-- treasury mined for fees of zero or more, a rollback never meets a missing key.
pub rollback_total :
    (n k : ℕ) {e : Engine} → Reach (init n) e → ¬ IsKeyError (rollback_block_reorg e k).1
rollback_total n k {e} r =
    (rollback-IsConsistent e k (Reach-IsConsistent (IsConsistent-init n) r)).1
