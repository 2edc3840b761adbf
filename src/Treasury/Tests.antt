-- ===== src/Treasury/Tests.antt =====
-- Runs of the treasury engine, and its theorems at concrete blocks.
use piso_chain.Base.{
  ◌*◌, ◌^◌, ℕ, ◌≡◌, refl, none, some, true, false, arith, Text, text_eq, text_key, nat_key, ◌/◌,
  ◌+◌,
}
use piso_chain.Text.{codes, lower}
use piso_chain.Int.{ℤ, pos, ◌+ℤ◌, ◌-ℤ◌, ◌≤ℤ◌, min_ℤ}
use piso_chain.Dict.{lookup, contains, get_default, insert}
use piso_chain.Treasury.{
  Engine, Snapshot, init, balance, treasury_address, halving_interval, calculate_block_reward,
  finalize_block_reward, rollback_block_reorg, not_found,
}
use piso_chain.Treasury.Effects.{payout, recorded}
use piso_chain.Treasury.Reward.{schedule, schedule_halves, calculate_block_reward_antitone}
use piso_chain.Treasury.Reorg.{SameExcept, IsRolledBack, rollback-finalize}
use piso_chain.Treasury.Supply.{circulating, circulating_changes}
use piso_chain.Treasury.Edges.{accounting_edges}
use piso_chain.Treasury.Consistent.Undone.{IsKeyError}
use piso_chain.Treasury.Consistent.Reach.{Reach, Step, supply_conserved, rollback_total}

abbrev start : Engine
start = init 60_000_000_000

abbrev alice : Text
alice = codes "0xABCD"

abbrev first : Engine
first = (finalize_block_reward 7 start 1 alice (pos 30)).0

reward_at_start : calculate_block_reward start 1 ≡ pos (5000 * 10 ^ 18)
unfolding calculate_block_reward init balance get_default text_eq min_ℤ
reward_at_start = refl

reward_after_one_interval : calculate_block_reward start 5_000_000 ≡ pos (2500 * 10 ^ 18)
unfolding calculate_block_reward init balance get_default text_eq min_ℤ
reward_after_one_interval = refl

alice_is_paid : balance first (codes "0xabcd") ≡ pos (5000 * 10 ^ 18 + 30)
unfolding finalize_block_reward calculate_block_reward init balance get_default text_eq min_ℤ lower
    insert ◌+ℤ◌ ◌-ℤ◌
alice_is_paid = refl

unknown_block : (rollback_block_reorg start 3).1 ≡ not_found 3
unfolding rollback_block_reorg init lookup
unknown_block = refl

-- a block is finalized, rolled back, and finalized for another miner
abbrev later : Engine
later = (finalize_block_reward 9 (rollback_block_reorg first 1).0 1 (codes "0xEE") (pos 2)).0

other_miner : text_eq (lower alice) treasury_address ≡ false
unfolding lower text_eq
other_miner = refl

other_miner_2 : text_eq (lower (codes "0xEE")) treasury_address ≡ false
unfolding lower text_eq
other_miner_2 = refl

later_reached : Reach start later
later_reached =
    Reach.next
      (Reach.next
        (Reach.next Reach.here (Step.finalized 7 1 alice (pos 30) (omega arith) other_miner))
        (Step.reorged 1))
      (Step.finalized 9 1 (codes "0xEE") (pos 2) (omega arith) other_miner_2)

supply_conserved_example :
    (balance later treasury_address +ℤ later.total_distributed_wei ≡ pos (60_000_000_000 * 10 ^ 18))
    × (pos 0 ≤ℤ later.total_distributed_wei)
    × (later.total_distributed_wei ≤ℤ pos (60_000_000_000 * 10 ^ 18))
    × ((a : Text) → pos 0 ≤ℤ balance later a)
supply_conserved_example = supply_conserved 60_000_000_000 later_reached

rollback_total_example : ¬ IsKeyError (rollback_block_reorg later 1).1
rollback_total_example = rollback_total 60_000_000_000 1 later_reached

rollback-finalize_example :
    let (e', answer) = rollback_block_reorg (finalize_block_reward 7 start 1 alice (pos 30)).0 1 in
    SameExcept 1 e' start × IsRolledBack answer
rollback-finalize_example = rollback-finalize 7 start 1 alice (pos 30)

abbrev snapshot : Snapshot
snapshot = recorded 7 start 1 alice (pos 30)

circulating_changes_example :
    ((now : ℕ) (m : Text) (fees : ℤ)
      → circulating (finalize_block_reward now first 1 m fees).0 ≡ circulating first +ℤ fees)
    × ((s : Snapshot)
        → lookup 1 first.block_history ≡ some s
        → contains treasury_address first.balances ≡ true
        → contains s.miner first.balances ≡ true
        → circulating (rollback_block_reorg first 1).0 ≡ circulating first -ℤ s.tx_fees_wei)
circulating_changes_example = circulating_changes first 1

rolled_back_sum :
    circulating (rollback_block_reorg first 1).0 ≡ circulating first -ℤ snapshot.tx_fees_wei
unfolding finalize_block_reward lower balance get_default contains init lookup insert text_eq
rolled_back_sum = (circulating_changes first 1).1 snapshot refl refl refl

schedule_halves_example : schedule (5 + halving_interval) ≡ schedule 5 / 2
schedule_halves_example = schedule_halves 5 (omega arith)

accounting_edges_example :
    ((now : ℕ) (m : Text) (fees : ℤ)
      → lower m ≡ treasury_address
      → let e' = (finalize_block_reward now start 1 m fees).0 in
        (balance e' treasury_address ≡ balance start treasury_address +ℤ fees)
        × (e'.total_distributed_wei ≡ start.total_distributed_wei +ℤ payout start 1))
    × ((now later : ℕ) (m w : Text) (fees tips : ℤ)
        → lookup 1 start.block_history ≡ none
        → let once = (finalize_block_reward now start 1 m fees).0 in
          let twice = (finalize_block_reward later once 1 w tips).0 in
          let back = (rollback_block_reorg twice 1).0 in
          (rollback_block_reorg back 1 ≡ (back, not_found 1))
          × (back.total_distributed_wei ≡ start.total_distributed_wei +ℤ payout start 1))
accounting_edges_example = accounting_edges start 1

mined_by_treasury :
    balance (finalize_block_reward 7 start 1 treasury_address (pos 3)).0 treasury_address
    ≡ balance start treasury_address +ℤ pos 3
unfolding lower
mined_by_treasury = ((accounting_edges start 1).0 7 treasury_address (pos 3) refl).0

rolled_back_twice :
    let once = (finalize_block_reward 7 start 1 alice (pos 30)).0 in
    let twice = (finalize_block_reward 8 once 1 (codes "0xEE") (pos 2)).0 in
    let back = (rollback_block_reorg twice 1).0 in rollback_block_reorg back 1 ≡ (back, not_found 1)
unfolding init lookup
rolled_back_twice = ((accounting_edges start 1).1 7 8 alice (codes "0xEE") (pos 30) (pos 2) refl).0

start_funded : pos 0 ≤ℤ balance start treasury_address
unfolding init balance get_default text_eq
start_funded = omega arith

later_reward_is_less :
    (calculate_block_reward start 9_000_000 ≤ℤ calculate_block_reward start 3)
    × (pos 0 ≤ℤ calculate_block_reward start 9_000_000)
    × (calculate_block_reward start 3 ≤ℤ balance start treasury_address)
later_reward_is_less = calculate_block_reward_antitone start 3 9_000_000 start_funded (omega arith)
