-- ===== src/Postgres/Keyed/Pools.antt =====
-- Pools and PoolDelegators of app/db/postgres/pools.go, with resources/scripts/api/pools.sql and
-- poolDelegators.sql.
pub mod Pages
use idena_indexer_api.Prelude.{
  ℕ, ◌+◌, ◌-◌, ◌^◌, ◌≤◌, ◌<◌, ◌≡◌, refl, sym, ap, ◌∙◌, Bool, true, false, ◌&&◌, ◌||◌, Option, none,
  some, List, [], ◌∷◌, ◌==◌, map, arith, leb, ltb, length, take, drop,
}
use idena_indexer_api.Prelude.Text.{Text}
use idena_indexer_api.Prelude.Decimal.{u64_mod, format_uint, parse_uint, parse_uint-format_uint}
use idena_indexer_api.Prelude.Result.{Result, ok}
use idena_indexer_api.Postgres.Paging.{PageError, parse_uint_continuation_token}
use idena_indexer_api.Postgres.Tokens.{Amounts, parse_uint_and_amount_token, amount_token}
use idena_indexer_api.Postgres.Tokens.RoundTrip.{
  has_no_dash, split_dash-two, has_no_dash-format_uint, parse_uint_and_amount_token-amount_token,
}
use idena_indexer_api.Postgres.Rewards.{
  Decimals, DelegationReward, ValidationRewards, to_delegation_reward,
}
use idena_indexer_api.Postgres.Keyed.{keyed_page, parse_numbers, of_number_parts, numbers_token}
use idena_indexer_api.Postgres.Keyed.Script.{Script, run_keyed, IsSorted}
use idena_indexer_api.Postgres.Keyed.Page.{Tokens, values, token_behind, HaveTokens, keyed_page_lem}

-- The fields of types.Pool that the list fills.
pub record Pool : Type 0 where
  pub address : Text
  pub size : ℕ

-- The columns of a row, and what Scan makes of them: the key is addressId and item.Size.
unfoldable pub scan_pool : ℕ × Text × ℕ → (ℕ × ℕ) × Pool
scan_pool (address_id, address, size) =
    ((address_id, size), record { address = address; size = size })

-- `query` runs pools.sql, and scans its rows.
unfoldable pub pools :
    (ℕ → Option ℕ × Option ℕ → Result PageError (List (Option ((ℕ × ℕ) × Pool))))
    → ℕ
    → Option Text
    → Result PageError (List Pool × Option Text)
unfolding keyed_page parse_numbers numbers_token
pools query = keyed_page parse_numbers numbers_token query

-- The condition and the order of pools.sql; a comparison with NULL selects nothing.
unfoldable pub pools_selects : Option ℕ × Option ℕ → ℕ × ℕ → Bool
pools_selects (none, size) k = true
pools_selects (some id, none) k = false
pools_selects (some id, some size) (i, s) = s == size && leb id i || ltb s size

unfoldable pub pools_precedes : ℕ × ℕ → ℕ × ℕ → Bool
pools_precedes (i, s) (j, t) = ltb t s || t == s && ltb i j

-- types.Delegator; `Decimal` is decimal.Decimal
pub record Delegator (Decimal : Type 0) : Type 0 where
  pub address : Text
  pub state : Text
  pub age : ℕ
  pub stake : Decimal

-- The key of a row is the delegator's id with its birth epoch.
unfoldable pub pool_delegators :
    {Decimal : Type 0}
    → (Text
        → ℕ
        → Option ℕ × Option ℕ
        → Result PageError (List (Option ((ℕ × ℕ) × Delegator Decimal))))
    → Text
    → ℕ
    → Option Text
    → Result PageError (List (Delegator Decimal) × Option Text)
unfolding keyed_page parse_numbers numbers_token
pool_delegators query address = keyed_page parse_numbers numbers_token (query address)

-- The condition and the order of poolDelegators.sql, on the rows of the pool.
unfoldable pub delegators_selects : Option ℕ × Option ℕ → ℕ × ℕ → Bool
delegators_selects (none, birth) k = true
delegators_selects (some id, none) k = false
delegators_selects (some id, some birth) (i, b) = b == birth && leb id i || ltb birth b

unfoldable pub delegators_precedes : ℕ × ℕ → ℕ × ℕ → Bool
delegators_precedes (i, b) (j, c) = ltb b c || c == b && ltb i j
