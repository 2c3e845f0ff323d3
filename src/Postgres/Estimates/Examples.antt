-- ===== src/Postgres/Estimates/Examples.antt =====
-- The estimated rewards of app/db/postgres on small inputs, with decimals of two digits.
use idena_indexer_api.Prelude.{
  ℕ, zero, suc, ◌≡◌, refl, ap, ◌==◌, if◌then◌else◌, ◌+◌, ◌*◌, ◌/◌, none, some, arith,
}
use idena_indexer_api.Prelude.Int.{ℤ, pos, negsuc, pos_part, neg_part, sub_ℕ, to_i64}
use idena_indexer_api.Postgres.Estimates.{
  Arithmetic, estimated, calculate_estimated_oracle_reward, calculate_estimated_max_oracle_reward,
}
use idena_indexer_api.Postgres.Estimates.Fee.{calculate_estimated_oracle_reward-same_fee}
use idena_indexer_api.Postgres.Estimates.Threshold.{Integers}

-- Hundredths, cut at the second digit.
abbrev pub scale : ℤ → ℤ → ℤ
scale (pos a) (pos b) = pos (a * b / 100)
scale (pos a) (negsuc b) = sub_ℕ 0 (a * (b + 1) / 100)
scale (negsuc a) (pos b) = sub_ℕ 0 ((a + 1) * b / 100)
scale (negsuc a) (negsuc b) = pos ((a + 1) * (b + 1) / 100)

abbrev pub whole : ℤ → ℤ
whole (pos n) = pos (n * 100)
whole (negsuc n) = negsuc (n * 100 + 99)

abbrev pub round_up : ℤ → ℤ
round_up (pos a) = pos ((a + 99) / 100 * 100)
round_up (negsuc a) = sub_ℕ 0 ((a + 1) / 100 * 100)

abbrev pub sign_of : ℤ → ℤ
sign_of (pos zero) = pos 0
sign_of (pos (suc n)) = pos 1
sign_of (negsuc n) = negsuc 0

abbrev pub fixed : Arithmetic
fixed = record {
  Decimal = ℤ;
  of_int = whole;
  hundredths = λ n. pos n;
  add = λ a b. sub_ℕ (pos_part a + pos_part b) (neg_part a + neg_part b);
  sub = λ a b. sub_ℕ (pos_part a + neg_part b) (neg_part a + pos_part b);
  mul = scale;
  div = λ a b. sub_ℕ (pos_part a * 100 / pos_part b) (neg_part a * 100 / pos_part b);
  ceil = round_up;
  sign = sign_of;
}

sign_of-whole : (n : ℕ) → sign_of (whole (pos n)) ≡ (if n == 0 then pos 0 else pos 1)
sign_of-whole zero = refl
sign_of-whole (suc n) = ground arith

round_up-scale :
    (n t : ℕ) → round_up (scale (whole (pos n)) (pos t)) ≡ whole (pos ((n * t + 99) / 100))
round_up-scale n t =
    let cut : n * 100 * t / 100 ≡ n * t = omega arith in ap (λ x. pos ((x + 99) / 100 * 100)) cut

pub fixed-Integers : Integers fixed
fixed-Integers = record { sign_of_int = sign_of-whole; ceil_product = round_up-scale }

-- A voting with a balance of 1000, a deposit of 100, and payments of 1 by a committee of 50.
calculate_estimated_oracle_reward-same_fee_example :
    calculate_estimated_oracle_reward fixed
      (pos 100000)
      (some (pos 100))
      1
      50
      20
      (some (pos 10000))
      none
    ≡ calculate_estimated_oracle_reward fixed
        (pos 100000)
        (some (pos 100))
        100
        50
        20
        (some (pos 10000))
        none
calculate_estimated_oracle_reward-same_fee_example =
    calculate_estimated_oracle_reward-same_fee fixed (λ n h h'. ground arith) (pos 100000)
      (some (pos 100)) 50 20 (some (pos 10000)) none 1 100 (omega arith) (omega arith) (omega arith)
      (omega arith)

-- The owner takes all but the payments of the committee.
oracle_reward_with_fee :
    calculate_estimated_oracle_reward fixed
      (pos 100000)
      (some (pos 100))
      1
      50
      20
      (some (pos 10000))
      none
    ≡ estimated (pos 100)
unfolding calculate_estimated_oracle_reward to_i64
oracle_reward_with_fee = refl

oracle_reward_without_fee :
    calculate_estimated_oracle_reward fixed
      (pos 100000)
      (some (pos 100))
      0
      50
      20
      (some (pos 10000))
      none
    ≡ estimated (pos 1860)
unfolding calculate_estimated_oracle_reward to_i64
oracle_reward_without_fee = refl

-- The results that the tests of the source expect.
max_oracle_reward_test :
    calculate_estimated_max_oracle_reward fixed (pos 10000) (some (pos 200)) 50 200 5 51 4 none none
    ≡ estimated (pos 1100)
unfolding calculate_estimated_max_oracle_reward to_i64
max_oracle_reward_test = refl

max_oracle_reward_large_fee_test :
    calculate_estimated_max_oracle_reward fixed (pos 500000) none 95 4 5 51 1 none none
    ≡ estimated (pos 25000)
unfolding calculate_estimated_max_oracle_reward to_i64
max_oracle_reward_large_fee_test = refl
