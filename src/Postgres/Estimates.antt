-- ===== src/Postgres/Estimates.antt =====
-- The rewards that readOracleVotingContracts estimates, in app/db/postgres/contracts.go:
-- calculateEstimatedOwnerReward and the functions that call it.
pub mod Fee
pub mod Threshold
pub mod Examples
use idena_indexer_api.Prelude.{
  ℕ, ◌+◌, ◌-◌, ◌*◌, ◌/◌, ◌%◌, ◌≡◌, Bool, true, false, ◌&&◌, ◌||◌, Option, none, some, ltb, ◌==◌,
  if◌then◌else◌,
}
use idena_indexer_api.Prelude.Int.{ℤ, pos, negsuc, to_i64, ltb_ℤ, ◌==ℤ◌}

-- github.com/shopspring/decimal: its type and the functions that are called. Div panics on a divisor
-- that is zero; the callers test that.
pub record Arithmetic : Type 1 where
  pub Decimal : Type 0
  -- NewFromInt
  pub of_int : ℤ → Decimal
  -- New(n, -2), and NewFromFloat(float64(n) / 100.0), which prints as that
  pub hundredths : ℕ → Decimal
  pub add : Decimal → Decimal → Decimal
  pub sub : Decimal → Decimal → Decimal
  pub mul : Decimal → Decimal → Decimal
  pub div : Decimal → Decimal → Decimal
  pub ceil : Decimal → Decimal
  pub sign : Decimal → ℤ

-- A value, or the panic of a division by zero.
pub data Estimate (A : Type 0) : Type 0 where
  estimated : A → Estimate A
  divided_by_zero : Estimate A

-- float64(committeeSize) * float64(quorum) / 100.0, cut to an integer, and one more if it is not the
-- whole or zero. The products are far below 2 ^ 46, where the float64 are exact enough for both tests.
unfoldable pub quorum_size : ℕ → ℕ → ℕ
quorum_size committee_size quorum =
    let size = committee_size * quorum / 100 in
    if ltb (size * 100) (committee_size * quorum) || size == 0 then size + 1 else size

-- math2.Max
abbrev pub max : ℕ → ℕ → ℕ
max a b = if ltb a b then b else a

-- The committee that calculateEstimatedOracleReward counts with.
unfoldable pub voters : ℕ → ℕ → ℕ
voters committee_size votes = max (if committee_size == 0 then 1 else committee_size) votes

module _ (d : Arithmetic) where
  open d use {Decimal, of_int, hundredths, add, sub, mul, div, ceil, sign}

  -- The zero value of a decimal.
  abbrev pub zero_value : Decimal
  zero_value = of_int (pos 0)

  abbrev pub is_positive : Decimal → Bool
  is_positive x = ltb_ℤ (pos 0) (sign x)

  abbrev pub is_negative : Decimal → Bool
  is_negative x = ltb_ℤ (sign x) (pos 0)

  -- Div
  unfoldable pub quotient : Decimal → Decimal → Estimate Decimal
  quotient x y = if sign y ==ℤ pos 0 then divided_by_zero else estimated (div x y)

  -- A nil pointer is the zero value.
  unfoldable pub value_of : Option Decimal → Decimal
  value_of none = zero_value
  value_of (some x) = x

  -- The share of the owner, `ownerFeeD`.
  unfoldable pub owner_share : ℕ → Bool → Decimal
  owner_share owner_fee rounds_up =
      if rounds_up then ceil (hundredths owner_fee) else hundredths owner_fee

  unfoldable pub user_locks : Decimal → ℕ → Decimal
  user_locks voting_min_payment committee_size =
      mul voting_min_payment (of_int (to_i64 committee_size))

  unfoldable pub sub_fund : Decimal → Option Decimal → Decimal
  sub_fund x none = x
  sub_fund x (some fund) = sub x fund

  unfoldable pub calculate_estimated_owner_reward :
      Decimal → Option Decimal → Option Decimal → Decimal → ℕ → ℕ → Bool → Decimal
  unfolding sub_fund user_locks owner_share
  calculate_estimated_owner_reward balance (some deposit) oracle_reward_fund voting_min_payment
        committee_size owner_fee rounds_up =
      let locks = user_locks voting_min_payment committee_size in
      let replenished_amount = sub (sub_fund (sub balance deposit) oracle_reward_fund) locks in
      let owner_reward = add zero_value deposit in
      if ltb 0 owner_fee && is_positive replenished_amount
      then add owner_reward (mul replenished_amount (owner_share owner_fee rounds_up))
      else owner_reward
  calculate_estimated_owner_reward balance none oracle_reward_fund voting_min_payment committee_size
        owner_fee rounds_up =
      if ltb 0 owner_fee
      then mul (sub balance (user_locks voting_min_payment committee_size))
          (owner_share owner_fee rounds_up)
      else zero_value

  -- The last lines of the three functions.
  unfoldable pub not_negative : Decimal → Decimal
  not_negative x = if is_negative x then of_int (pos 0) else x

  unfoldable pub not_negative_estimate : Estimate Decimal → Estimate Decimal
  unfolding not_negative
  not_negative_estimate (estimated x) = estimated (not_negative x)
  not_negative_estimate divided_by_zero = divided_by_zero

  -- The balance with the payments that `missing` votes bring.
  unfoldable pub potential_balance : Decimal → Decimal → ℕ → Decimal
  potential_balance balance voting_min_payment missing =
      if ltb 0 missing && (sign voting_min_payment ==ℤ pos 1)
      then add balance (mul voting_min_payment (of_int (to_i64 missing)))
      else balance

  unfoldable pub calculate_estimated_oracle_reward :
      Decimal → Option Decimal → ℕ → ℕ → ℕ → Option Decimal → Option Decimal → Estimate Decimal
  unfolding calculate_estimated_owner_reward potential_balance quotient not_negative_estimate
      value_of voters
  calculate_estimated_oracle_reward balance voting_min_payment owner_fee committee_size votes
        owner_deposit oracle_reward_fund =
      let min_payment = value_of voting_min_payment in
      let size = voters committee_size votes in
      let potential = potential_balance balance min_payment (size - votes) in
      let owner_reward =
        calculate_estimated_owner_reward potential owner_deposit oracle_reward_fund min_payment size
          owner_fee true in
      not_negative_estimate (quotient (sub potential owner_reward) (of_int (to_i64 size)))

  unfoldable pub calculate_estimated_max_oracle_reward :
      Decimal
      → Option Decimal
      → ℕ
      → ℕ
      → ℕ
      → ℕ
      → ℕ
      → Option Decimal
      → Option Decimal
      → Estimate Decimal
  unfolding calculate_estimated_owner_reward potential_balance quotient not_negative_estimate
      value_of quorum_size
  calculate_estimated_max_oracle_reward balance voting_min_payment owner_fee committee_size quorum
        winner_threshold votes owner_deposit oracle_reward_fund =
      let min_votes = max (quorum_size committee_size quorum) votes in
      let min_payment = value_of voting_min_payment in
      let potential = potential_balance balance min_payment (min_votes - votes) in
      let owner_reward =
        calculate_estimated_owner_reward potential owner_deposit oracle_reward_fund min_payment
          min_votes owner_fee false in
      not_negative_estimate (
        quotient (sub potential owner_reward)
          (ceil (mul (of_int (to_i64 min_votes)) (hundredths winner_threshold))))

  unfoldable pub calculate_estimated_total_reward :
      Decimal → Option Decimal → ℕ → ℕ → Option Decimal → Option Decimal → Decimal
  unfolding calculate_estimated_owner_reward not_negative value_of
  calculate_estimated_total_reward balance voting_min_payment owner_fee votes owner_deposit
        oracle_reward_fund =
      let owner_reward =
        calculate_estimated_owner_reward balance owner_deposit oracle_reward_fund
          (value_of voting_min_payment) votes owner_fee false in
      not_negative (sub balance owner_reward)
