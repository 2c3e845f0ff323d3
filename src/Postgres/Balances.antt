-- ===== src/Postgres/Balances.antt =====
-- Balances of app/db/postgres/balances.go: pages in the order of an amount and an id, with tokens that
-- hold both.
pub mod Pages
pub mod Examples
use idena_indexer_api.Prelude.{
  ℕ, Bool, true, false, Option, none, some, List, [], ◌∷◌, map, if◌then◌else◌,
}
use idena_indexer_api.Prelude.Text.{Text, codes, text_eq}
use idena_indexer_api.Prelude.Result.{Result, ok, ◌>>=◌}
use idena_indexer_api.Postgres.Paging.{PageError}
use idena_indexer_api.Postgres.Tokens.{Amounts, parse_uint_and_amount_token, amount_token}
use idena_indexer_api.Postgres.Keyed.{keyed_page}
use idena_indexer_api.Postgres.Keyed.Amounts.{key_token}

-- sortByStake
unfoldable pub sorts_by_stake : Option Text → Bool
sorts_by_stake none = false
sorts_by_stake (some sort_by) = text_eq sort_by (codes "stake")

module _ (amounts : Amounts) where
  open amounts use {Amount}

  -- types.Balance
  pub record Balance : Type 0 where
    pub address : Text
    pub balance : Amount
    pub stake : Amount

  -- The amount that the rows are sorted by.
  unfoldable pub amount_by : Bool → Balance → Amount
  amount_by by_stake b = if by_stake then b.stake else b.balance

  -- The key of a row, of which the token of the last one is made: the scanned id with the amount of the
  -- item.
  unfoldable pub with_key : Bool → ℕ × Balance → (ℕ × Amount) × Balance
  unfolding amount_by
  with_key by_stake (id, b) = ((id, amount_by by_stake b), b)

  unfoldable pub scan_balance : Bool → Option (ℕ × Balance) → Option ((ℕ × Amount) × Balance)
  unfolding with_key
  scan_balance by_stake none = none
  scan_balance by_stake (some e) = some (with_key by_stake e)

  -- `query` runs stakes.sql or balances.sql with its three arguments. parseToken is here what
  -- parseUintAndAmountToken is in common.go.
  unfoldable pub balances :
      (Bool → ℕ → Option ℕ × Option Amount → Result PageError (List (Option (ℕ × Balance))))
      → Option Text
      → ℕ
      → Option Text
      → Result PageError (List Balance × Option Text)
  unfolding keyed_page parse_uint_and_amount_token amount_token sorts_by_stake scan_balance
  balances query sort_by =
      keyed_page (parse_uint_and_amount_token amounts) (key_token amounts) (λ limit args.
        query (sorts_by_stake sort_by) limit args >>= λ rows.
        ok (map (scan_balance (sorts_by_stake sort_by)) rows))
