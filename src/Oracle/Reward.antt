-- ===== src/Oracle/Reward.antt =====
-- backend/src/modules/oracle/client.ts: `quoteRewardLamports`.
use native.Mathlib.Nat.{mul-le-mul_right}
use personal_carbon_footprin.Prelude.{ℕ, ◌+◌, ◌*◌, ◌≤◌, ◌<◌, ◌≡◌, arith}
use personal_carbon_footprin.Oracle.Client.{RewardPolicySnapshot, quote_reward_lamports}

-- A reward is never more than the policy's limit for a period, nor than the price of the grams. It
-- is nothing for less than the least reduction, and else the whole price, but for the limit.
pub quote_reward_lamports_lem :
    (policy : RewardPolicySnapshot) (grams : ℕ)
    → let quote = quote_reward_lamports policy grams in
      let price = grams * policy.lamports_per_kg_reduced in
      (quote ≤ policy.max_lamports_per_period)
      × (1000 * quote ≤ price)
      × (grams < policy.minimum_reduction_grams → quote ≡ 0)
      × (policy.minimum_reduction_grams ≤ grams
          → quote < policy.max_lamports_per_period
          → price < 1000 * quote + 1000)
unfolding quote_reward_lamports
quote_reward_lamports_lem policy grams = (ground arith, ground arith, ground arith, ground arith)

-- More grams never give a smaller reward.
pub quote_reward_lamports_mono :
    (policy : RewardPolicySnapshot) (less more : ℕ)
    → less ≤ more
    → quote_reward_lamports policy less ≤ quote_reward_lamports policy more
unfolding quote_reward_lamports
quote_reward_lamports_mono policy less more h =
    ground (arith, mul-le-mul_right policy.lamports_per_kg_reduced h)
