-- ===== src/Postgres/Estimates/Threshold.antt =====
-- The divisors of the estimated rewards of app/db/postgres/contracts.go: the committee, the quorum and
-- the threshold of the winner.
use idena_indexer_api.Prelude.{
  ℕ, zero, suc, ◌≡◌, refl, ◌+◌, ◌-◌, ◌*◌, ◌/◌, ◌^◌, ◌≤◌, ◌<◌, ◌↔◌, ◌⊎◌, false, Option, arith, ◌==◌,
  if◌then◌else◌, lt→ltb,
}
use idena_indexer_api.Prelude.Int.{pos, to_i64}
use idena_indexer_api.Postgres.Estimates.{
  Arithmetic, estimated, divided_by_zero, quorum_size, max, voters, is_negative, quotient,
  not_negative, not_negative_estimate, calculate_estimated_oracle_reward,
  calculate_estimated_max_oracle_reward,
}

-- The least number of votes of the quorum: no fewer than the percentage of the committee, at least
-- one, and no more than that needs.
pub quorum_size_lem :
    (committee_size quorum : ℕ)
    → (committee_size * quorum ≤ quorum_size committee_size quorum * 100)
      × (1 ≤ quorum_size committee_size quorum)
      × ((quorum_size committee_size quorum ≡ 1)
          ⊎ ((quorum_size committee_size quorum - 1) * 100 < committee_size * quorum))
unfolding quorum_size
quorum_size_lem c q = ground arith

to_i64_pos : (n : ℕ) → n < 2 ^ 63 → to_i64 n ≡ pos n
unfolding to_i64
to_i64_pos n h = rw (lt→ltb n (2 ^ 63) h) refl

product_zero : (n t : ℕ) → 1 ≤ n → ((n * t + 99) / 100 ≡ 0) ↔ (t ≡ 0)
product_zero n zero h = (λ e. refl, λ e. omega arith)
product_zero (suc n) (suc t) h = (λ e. omega arith, λ e. omega arith)
product_zero zero (suc t) h = absurd (omega arith)

max-le : (a b : ℕ) → 1 ≤ a → 1 ≤ max a b
max-le a b h = ground arith

voters_bounds :
    (size votes : ℕ)
    → size < 2 ^ 63
    → votes < 2 ^ 63
    → (1 ≤ voters size votes) × (voters size votes < 2 ^ 63)
unfolding voters
voters_bounds size votes h h' = ground arith

module _ (d : Arithmetic) where
  open d use {Decimal, of_int, hundredths, mul, div, ceil, sign}

  -- What the documentation of the package says of integers and of the smallest integer that is not
  -- below a product.
  pub record Integers : Type 0 where
    pub sign_of_int : (n : ℕ) → sign (of_int (pos n)) ≡ (if n == 0 then pos 0 else pos 1)
    pub ceil_product :
        (n t : ℕ) → ceil (mul (of_int (pos n)) (hundredths t)) ≡ of_int (pos ((n * t + 99) / 100))

  -- An estimate with a whole divisor panics just when that is zero.
  estimate_panics :
      Integers
      → (x : Decimal) (n : ℕ)
      → (not_negative_estimate d (quotient d x (of_int (pos n))) ≡ divided_by_zero) ↔ (n ≡ 0)
  unfolding not_negative_estimate quotient
  estimate_panics laws x zero = ground (arith, laws.sign_of_int 0)
  estimate_panics laws x (suc n) = ground (arith, laws.sign_of_int (suc n))

  not_negative_lem : Integers → (x : Decimal) → is_negative d (not_negative d x) ≡ false
  unfolding not_negative
  not_negative_lem laws x = ground (arith, laws.sign_of_int 0)

  estimate_value :
      Integers
      → (x : Decimal) (n : ℕ) → 1 ≤ n
      → (y : Decimal) × (not_negative_estimate d (quotient d x (of_int (pos n))) ≡ estimated y)
        × (is_negative d y ≡ false)
  unfolding not_negative_estimate quotient
  estimate_value laws x n h = (
    not_negative d (div x (of_int (pos n))),
    ground (arith, laws.sign_of_int n),
    not_negative_lem laws (div x (of_int (pos n))),
  )

  panics_iff :
      Integers
      → (x : Decimal) (n t : ℕ) → 1 ≤ n
      → (not_negative_estimate d (quotient d x (of_int (pos ((n * t + 99) / 100))))
          ≡ divided_by_zero)
        ↔ (t ≡ 0)
  panics_iff laws x n t h = (
    λ e. (product_zero n t h).0 ((estimate_panics laws x ((n * t + 99) / 100)).0 e),
    λ e. (estimate_panics laws x ((n * t + 99) / 100)).1 ((product_zero n t h).1 e),
  )

  -- The largest estimate panics just when the threshold of the winner is zero, if the votes of the
  -- quorum and those given are fewer than 2 ^ 63, and integers and products are as documented.
  pub calculate_estimated_max_oracle_reward-divided_by_zero :
      Integers
      → (balance : Decimal) (voting_min_payment : Option Decimal)
        (owner_fee committee_size quorum winner_threshold votes : ℕ)
        (owner_deposit oracle_reward_fund : Option Decimal)
      → max (quorum_size committee_size quorum) votes < 2 ^ 63
      → (calculate_estimated_max_oracle_reward d balance voting_min_payment owner_fee committee_size
            quorum winner_threshold votes owner_deposit oracle_reward_fund
          ≡ divided_by_zero)
        ↔ (winner_threshold ≡ 0)
  unfolding calculate_estimated_max_oracle_reward
  calculate_estimated_max_oracle_reward-divided_by_zero laws balance min_payment fee size quorum
        threshold votes deposit fund small =
      rw
        (
          to_i64_pos (max (quorum_size size quorum) votes) small,
          laws.ceil_product (max (quorum_size size quorum) votes) threshold,
        )
        (panics_iff laws _ (max (quorum_size size quorum) votes) threshold
          (max-le (quorum_size size quorum) votes (quorum_size_lem size quorum).1))

  -- The estimate for the whole committee never panics, and is not negative, under the same conditions
  -- on the committee and the votes.
  pub calculate_estimated_oracle_reward-estimated :
      Integers
      → (balance : Decimal) (voting_min_payment : Option Decimal)
        (owner_fee committee_size votes : ℕ) (owner_deposit oracle_reward_fund : Option Decimal)
      → committee_size < 2 ^ 63
      → votes < 2 ^ 63
      → (x : Decimal) × (calculate_estimated_oracle_reward d balance voting_min_payment owner_fee
            committee_size votes owner_deposit oracle_reward_fund
          ≡ estimated x)
        × (is_negative d x ≡ false)
  unfolding calculate_estimated_oracle_reward
  calculate_estimated_oracle_reward-estimated laws balance min_payment fee size votes deposit fund
        small small' =
      rw (to_i64_pos (voters size votes) (voters_bounds size votes small small').1)
        (estimate_value laws _ (voters size votes) (voters_bounds size votes small small').0)
