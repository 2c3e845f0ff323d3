-- ===== src/Postgres/TokenBalances/Examples.antt =====
-- Balances of tokens in app/db/postgres on concrete inputs.
use idena_indexer_api.Prelude.{ℕ, ◌+◌, ◌*◌, ◌/◌, ◌^◌, ◌≤◌, ◌<◌, ◌≡◌, arith}
use idena_indexer_api.Prelude.Text.{codes}
use idena_indexer_api.Prelude.Decimal.{format_uint}
use idena_indexer_api.Prelude.Result.{ok}
use idena_indexer_api.Postgres.TokenBalances.{Division, TokenBalance, address_token}
use idena_indexer_api.Postgres.TokenBalances.Digits.{address_token-exact, address_token-zero}

-- Halves are rounded up.
nearest_not_above :
    (v d : ℕ) → 0 < d → 2 * ((2 * (v * 10 ^ 16) + d) / (2 * d) * d) ≤ 2 * (v * 10 ^ 16) + d
nearest_not_above v d p = grind arith

nearest_not_below :
    (v d : ℕ) → 0 < d → 2 * (v * 10 ^ 16) ≤ 2 * ((2 * (v * 10 ^ 16) + d) / (2 * d) * d) + d
nearest_not_below v d p = grind arith

abbrev nearest : Division
nearest = record {
  div = λ v d. (2 * (v * 10 ^ 16) + d) / (2 * d);
  to_string = λ v. format_uint v;
  div_not_above = nearest_not_above;
  div_not_below = nearest_not_below;
}

address_token-exact_example :
    (b : TokenBalance) × (address_token nearest
        (ok (1500, codes "Coin", codes "C", 3))
        (codes "0x1")
        (codes "0x2")
      ≡ ok b)
    × (b.balance * 10 ^ 3 ≡ 1500 * 10 ^ 16)
address_token-exact_example =
    address_token-exact nearest 1500 3 (codes "Coin") (codes "C") (codes "0x1") (codes "0x2")
      (omega arith)

-- 49 of the smallest units of a token with 18 decimals.
address_token-zero_example :
    (b : TokenBalance) × (address_token nearest
        (ok (49, codes "Coin", codes "C", 18))
        (codes "0x1")
        (codes "0x2")
      ≡ ok b)
    × (b.balance ≡ 0)
address_token-zero_example =
    address_token-zero nearest 49 18 (codes "Coin") (codes "C") (codes "0x1") (codes "0x2")
      (omega arith)
