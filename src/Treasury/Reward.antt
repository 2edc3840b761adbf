-- ===== src/Treasury/Reward.antt =====
-- The halving schedule and the bounds of a block reward.
use native.Mathlib.Nat.{pow-suc, div-div-eq-div-mul}
use piso_chain.Base.{
  ℕ, zero, suc, ◌-◌, ◌*◌, ◌+◌, ◌/◌, ◌^◌, ◌≤◌, ◌<◌, ◌≡◌, arith, leb, if◌then◌else◌,
}
use piso_chain.Int.{pos, ◌≤ℤ◌, min_ℤ}
use piso_chain.Treasury.{
  Engine, balance, treasury_address, calculate_block_reward, initial_block_reward, halving_interval,
}
use piso_chain.Treasury.Effects.{payout}

halved : ℕ → ℕ
halved h = initial_block_reward / 2 ^ h

-- What the protocol mints at a height from a treasury that never runs dry.
pub schedule : ℕ → ℕ
schedule n = let halvings = n / halving_interval in if leb 64 halvings then 0 else halved halvings

halved-suc : (h : ℕ) → halved (suc h) ≡ halved h / 2
unfolding halved
halved-suc h = rw (pow-suc 2 h) (rw (div-div-eq-div-mul initial_block_reward (2 ^ h) 2))

halved_antitone : (h k : ℕ) → halved (h + k) ≤ halved h
halved_antitone h zero = grind arith
halved_antitone h (suc k) = grind (arith, halved_antitone h k, halved-suc (h + k))

-- Each interval halves the scheduled amount, until the last one.
pub schedule_halves :
    (n : ℕ) → n < 63 * halving_interval → schedule (n + halving_interval) ≡ schedule n / 2
unfolding schedule
schedule_halves n h =
    let next : (n + halving_interval) / halving_interval ≡ suc (n / halving_interval) =
      omega arith in
    rw next (ground (arith, halved-suc (n / halving_interval)))

-- The scheduled amount never rises.
pub schedule_antitone : (m n : ℕ) → m ≤ n → schedule n ≤ schedule m
unfolding schedule
schedule_antitone m n h =
    grind
      (arith, halved_antitone (m / halving_interval) (n / halving_interval - m / halving_interval))

-- A reward is the scheduled amount, capped by a treasury that is not overdrawn.
pub calculate_block_reward-eq :
    (e : Engine) (n : ℕ)
    → pos 0 ≤ℤ balance e treasury_address
    → calculate_block_reward e n ≡ min_ℤ (pos (schedule n)) (balance e treasury_address)
unfolding calculate_block_reward schedule halved min_ℤ
calculate_block_reward-eq e n h = ground arith

pub payout_bounds :
    (e : Engine) (n : ℕ)
    → pos 0 ≤ℤ balance e treasury_address
    → (pos 0 ≤ℤ payout e n)
      × (payout e n ≤ℤ pos (schedule n))
      × (payout e n ≤ℤ balance e treasury_address)
unfolding calculate_block_reward schedule halved min_ℤ
payout_bounds e n h = ground arith

-- From the same treasury, if it is not overdrawn, a later block never earns more, and every reward lies
-- between zero and what the treasury holds.
pub calculate_block_reward_antitone :
    (e : Engine) (m n : ℕ)
    → pos 0 ≤ℤ balance e treasury_address
    → m ≤ n
    → (calculate_block_reward e n ≤ℤ calculate_block_reward e m)
      × (pos 0 ≤ℤ calculate_block_reward e n)
      × (calculate_block_reward e m ≤ℤ balance e treasury_address)
unfolding min_ℤ
calculate_block_reward_antitone e m n h le =
    rw (calculate_block_reward-eq e n h, calculate_block_reward-eq e m h)
      (ground (arith, schedule_antitone m n le))
