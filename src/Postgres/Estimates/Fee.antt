-- ===== src/Postgres/Estimates/Fee.antt =====
-- What the fee of the owner does to the reward that calculateEstimatedOracleReward of
-- app/db/postgres/contracts.go returns.
use idena_indexer_api.Prelude.{ℕ, ◌≡◌, refl, ◌≤◌, ◌<◌, true, Option, none, some, lt→ltb}
use idena_indexer_api.Prelude.Int.{pos}
use idena_indexer_api.Postgres.Estimates.{
  Arithmetic, owner_share, calculate_estimated_owner_reward, calculate_estimated_oracle_reward,
}

module _ (d : Arithmetic) where
  open d use {Decimal, of_int, hundredths, ceil}

  -- Ceil is the smallest integer that is not below a decimal, which between 0.01 and 1 is 1.
  abbrev pub CeilsShares : Type 0
  CeilsShares = (n : ℕ) → 0 < n → n ≤ 100 → ceil (hundredths n) ≡ of_int (pos 1)

  owner_share_one :
      CeilsShares → (fee : ℕ) → 0 < fee → fee ≤ 100 → owner_share d fee true ≡ of_int (pos 1)
  unfolding owner_share
  owner_share_one law fee h h' = law fee h h'

  calculate_estimated_owner_reward-same_fee :
      CeilsShares
      → (balance : Decimal) (owner_deposit oracle_reward_fund : Option Decimal)
        (voting_min_payment : Decimal) (committee_size fee fee' : ℕ)
      → 0 < fee
      → fee ≤ 100
      → 0 < fee'
      → fee' ≤ 100
      → calculate_estimated_owner_reward d balance owner_deposit oracle_reward_fund
          voting_min_payment committee_size fee true
        ≡ calculate_estimated_owner_reward d balance owner_deposit oracle_reward_fund
            voting_min_payment committee_size fee' true
  unfolding calculate_estimated_owner_reward
  calculate_estimated_owner_reward-same_fee law balance none fund min_payment size fee fee' h1 h2 h3
        h4 =
      rw
        (
          lt→ltb 0 fee h1,
          lt→ltb 0 fee' h3,
          owner_share_one law fee h1 h2,
          owner_share_one law fee' h3 h4,
        )
        refl
  calculate_estimated_owner_reward-same_fee law balance (some deposit) fund min_payment size fee
        fee' h1 h2 h3 h4 =
      rw
        (
          lt→ltb 0 fee h1,
          lt→ltb 0 fee' h3,
          owner_share_one law fee h1 h2,
          owner_share_one law fee' h3 h4,
        )
        refl

  -- The estimated reward of an oracle is the same for every fee of the owner from 1 to 100 percent, if
  -- Ceil takes their shares to 1.
  pub calculate_estimated_oracle_reward-same_fee :
      CeilsShares
      → (balance : Decimal) (voting_min_payment : Option Decimal) (committee_size votes : ℕ)
        (owner_deposit oracle_reward_fund : Option Decimal) (fee fee' : ℕ)
      → 0 < fee
      → fee ≤ 100
      → 0 < fee'
      → fee' ≤ 100
      → calculate_estimated_oracle_reward d balance voting_min_payment fee committee_size votes
          owner_deposit oracle_reward_fund
        ≡ calculate_estimated_oracle_reward d balance voting_min_payment fee' committee_size votes
            owner_deposit oracle_reward_fund
  unfolding calculate_estimated_oracle_reward
  calculate_estimated_oracle_reward-same_fee law balance min_payment size votes deposit fund fee
        fee' h1 h2 h3 h4 =
      rw (calculate_estimated_owner_reward-same_fee law _ deposit fund _ _ fee fee' h1 h2 h3 h4)
        refl
