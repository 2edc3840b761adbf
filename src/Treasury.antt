-- ===== src/Treasury.antt =====
-- core/treasury_mining.py: `PISOTreasuryMiningEngine`.
pub mod Effects
pub mod Undo
pub mod Supply
pub mod Reward
pub mod Reorg
pub mod Consistent
pub mod Edges
mod Tests
use piso_chain.Base.{
  ℕ, ◌+◌, ◌*◌, ◌/◌, ◌^◌, Bool, Option, none, some, [], ◌∷◌, leb, if◌then◌else◌, Text, text_key,
  nat_key,
}
use piso_chain.Text.{codes, lower}
use piso_chain.Int.{ℤ, pos, ◌+ℤ◌, ◌-ℤ◌, min_ℤ, eqb_ℤ}
use piso_chain.Dict.{Dict, lookup, get_default, insert, erase}

abbrev pub treasury_address : Text
treasury_address = codes "0x0000000000000000000000000000000000001004"

abbrev pub initial_block_reward : ℕ
initial_block_reward = 5000 * 10 ^ 18

abbrev pub halving_interval : ℕ
halving_interval = 5_000_000

-- An entry of `block_history`.
pub record Snapshot : Type 0 where
  pub block_number : ℕ
  pub miner : Text
  pub treasury_payout_wei : ℤ
  pub tx_fees_wei : ℤ
  pub remaining_treasury_wei : ℤ
  pub total_distributed_wei : ℤ
  pub timestamp : ℕ

pub record Engine : Type 0 where
  pub treasury_balance_wei : ℤ
  pub balances : Dict Text ℤ
  pub block_history : Dict ℕ Snapshot
  pub total_distributed_wei : ℤ

-- `__init__`, from `int(initial_treasury_piso)`
unfoldable pub init : ℕ → Engine
init initial_treasury_piso =
    let wei = pos (initial_treasury_piso * 10 ^ 18) in
    record {
      treasury_balance_wei = wei;
      balances = (treasury_address, wei) ∷ [];
      block_history = [];
      total_distributed_wei = pos 0;
    }

-- `self.balances.get(address, 0)`
unfoldable pub balance : Engine → Text → ℤ
balance e address = get_default (pos 0) address e.balances

unfoldable pub calculate_block_reward : Engine → ℕ → ℤ
calculate_block_reward e block_number =
    let halvings = block_number / halving_interval in
    if leb 64 halvings
    then pos 0
    else let current_treasury = balance e treasury_address in
      if eqb_ℤ current_treasury (pos 0)
      then pos 0
      else min_ℤ (pos (initial_block_reward / 2 ^ halvings)) current_treasury

-- The answer of `finalize_block_reward`, in wei: the division of each figure by 10 ** 18 is left out.
pub record Finalized : Type 0 where
  pub block_number : ℕ
  pub miner : Text
  pub treasury_payout : ℤ
  pub tx_fees : ℤ
  pub total_reward : ℤ
  pub remaining_treasury : ℤ
  pub is_treasury_depleted : Bool

unfoldable pub finalize_block_reward : ℕ → Engine → ℕ → Text → ℤ → Engine × Finalized
finalize_block_reward now e block_number miner_address tx_fees_wei =
    let miner_addr = lower miner_address in
    let treasury_reward = calculate_block_reward e block_number in
    let current_treasury = balance e treasury_address in
    let actual_treasury_payout = min_ℤ treasury_reward current_treasury in
    let debited = insert treasury_address (current_treasury -ℤ actual_treasury_payout) e.balances in
    let miner_balance = get_default (pos 0) miner_addr debited in
    let total_miner_credit = actual_treasury_payout +ℤ tx_fees_wei in
    let credited = insert miner_addr (miner_balance +ℤ total_miner_credit) debited in
    let distributed = e.total_distributed_wei +ℤ actual_treasury_payout in
    let remaining = get_default (pos 0) treasury_address credited in
    let snapshot : Snapshot = record {
      block_number = block_number;
      miner = miner_addr;
      treasury_payout_wei = actual_treasury_payout;
      tx_fees_wei = tx_fees_wei;
      remaining_treasury_wei = remaining;
      total_distributed_wei = distributed;
      timestamp = now;
    } in
    (
      record e {
        balances = credited;
        block_history = insert block_number snapshot e.block_history;
        total_distributed_wei = distributed;
      },
      record {
        block_number = block_number;
        miner = miner_addr;
        treasury_payout = actual_treasury_payout;
        tx_fees = tx_fees_wei;
        total_reward = total_miner_credit;
        remaining_treasury = remaining;
        is_treasury_depleted = eqb_ℤ remaining (pos 0);
      },
    )

-- The answer of `rollback_block_reorg`. `key_error` is the exception of `self.balances[...]` at a
-- missing key, which leaves what was written before it.
pub data Rollback : Type 0 where
  not_found : ℕ → Rollback
  key_error : Text → Rollback
  rolled_back : ℕ → ℤ → ℤ → Rollback

-- `self.balances[address] += delta`
unfoldable pub add_to : Text → ℤ → Dict Text ℤ → Option (Dict Text ℤ)
add_to address delta balances = elim (lookup address balances) [
  | none ↦ none
  | some old ↦ some (insert address (old +ℤ delta) balances)
]

-- The lines of `rollback_block_reorg` from "Deduct from miner", on the engine that they begin with.
deduct_from_miner : ℕ → Snapshot → Engine → Option (Dict Text ℤ) → Engine × Rollback
deduct_from_miner orphaned snapshot e none = (e, key_error snapshot.miner)
deduct_from_miner orphaned snapshot e (some deducted) =
    let distributed = e.total_distributed_wei -ℤ snapshot.treasury_payout_wei in
    (
      record e { balances = deducted; total_distributed_wei = distributed },
      rolled_back orphaned (get_default (pos 0) treasury_address deducted) distributed,
    )

-- From "Restore treasury balance".
restore_treasury : ℕ → Snapshot → Engine → Option (Dict Text ℤ) → Engine × Rollback
unfolding deduct_from_miner
restore_treasury orphaned snapshot e none = (e, key_error treasury_address)
restore_treasury orphaned snapshot e (some restored) =
    let taken = snapshot.treasury_payout_wei +ℤ snapshot.tx_fees_wei in
    deduct_from_miner orphaned snapshot (record e { balances = restored })
      (add_to snapshot.miner (pos 0 -ℤ taken) restored)

-- From the test on `block_history`.
roll_back : ℕ → Engine → Option Snapshot → Engine × Rollback
unfolding restore_treasury
roll_back orphaned e none = (e, not_found orphaned)
roll_back orphaned e (some snapshot) =
    restore_treasury orphaned snapshot (record e { block_history = erase orphaned e.block_history })
      (add_to treasury_address snapshot.treasury_payout_wei e.balances)

unfoldable pub rollback_block_reorg : Engine → ℕ → Engine × Rollback
unfolding roll_back
rollback_block_reorg e orphaned = roll_back orphaned e (lookup orphaned e.block_history)

-- `get_treasury_status`, without the constants that it repeats; money in wei.
pub record Status : Type 0 where
  pub current_treasury_balance : ℤ
  pub total_distributed : ℤ
  pub current_block_height : ℕ
  pub current_block_reward : ℤ
  pub current_halving_epoch : ℕ
  pub next_halving_block : ℕ
  pub blocks_to_next_halving : ℤ
  pub is_depleted : Bool

unfoldable pub get_treasury_status : Engine → ℕ → Status
get_treasury_status e current_block_number =
    let current_treasury_wei = balance e treasury_address in
    let epoch = current_block_number / halving_interval in
    let next_halving = (epoch + 1) * halving_interval in
    record {
      current_treasury_balance = current_treasury_wei;
      total_distributed = e.total_distributed_wei;
      current_block_height = current_block_number;
      current_block_reward = calculate_block_reward e current_block_number;
      current_halving_epoch = epoch;
      next_halving_block = next_halving;
      blocks_to_next_halving = pos next_halving -ℤ pos current_block_number;
      is_depleted = eqb_ℤ current_treasury_wei (pos 0);
    }
