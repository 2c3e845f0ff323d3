-- ===== src/Postgres/Queries/Transactions.antt =====
-- The scripts that methods of app/db/postgres run: those in balances.go, postgres.go.
use idena_indexer_api.Prelude.{ℕ, Bool, true, false, Option, none, some, List, [], ◌∷◌}
use idena_indexer_api.Prelude.Text.{Text, codes}
use idena_indexer_api.Postgres.Queries.{Query, query, limit, seconds, string, token_part, uint}
use idena_indexer_api.Postgres.Balances.{sorts_by_stake}
use idena_indexer_api.Cached.Methods.Transactions.{
  TransactionCall, transaction, transaction_raw, transaction_events, balances_count, balances,
  total_latest_mining_rewards_count, total_latest_mining_rewards, total_latest_burnt_coins_count,
  total_latest_burnt_coins,
}

abbrev script_by : Bool → Text
script_by true = codes "stakes.sql"
script_by false = codes "balances.sql"

abbrev pub text_at : Option (ℕ × Text) → Option Text
text_at none = none
text_at (some (address, s)) = some s

-- Balances of balances.go, in either order
abbrev pub balances_queries_by : Bool → ℕ → Option (ℕ × Text) → List Query
balances_queries_by by_stake count continuation_token =
    query (script_by by_stake)
      (limit count ∷ token_part continuation_token ∷ token_part continuation_token ∷ [])
    ∷ []

abbrev balances_queries : Option (ℕ × Text) → ℕ → Option (ℕ × Text) → List Query
balances_queries sort_by count continuation_token =
    balances_queries_by (sorts_by_stake (text_at sort_by)) count continuation_token

unfoldable pub transaction_queries : TransactionCall → List Query
transaction_queries (transaction hash) = query (codes "transaction.sql") (string hash ∷ []) ∷ []
transaction_queries (transaction_raw hash) =
    query (codes "transactionRaw.sql") (string hash ∷ []) ∷ []
transaction_queries (transaction_events hash count continuation_token) =
    query (codes "transactionEvents.sql")
      (string hash ∷ limit count ∷ token_part continuation_token ∷ [])
    ∷ []
transaction_queries balances_count = query (codes "balancesCount.sql") [] ∷ []
transaction_queries (balances sort_by count continuation_token) =
    balances_queries sort_by count continuation_token
transaction_queries (total_latest_mining_rewards_count after_time) =
    query (codes "totalLatestMiningRewardsCount.sql") (seconds after_time ∷ []) ∷ []
transaction_queries (total_latest_mining_rewards after_time start_index count) =
    query (codes "totalLatestMiningRewards.sql")
      (seconds after_time ∷ uint start_index ∷ uint count ∷ [])
    ∷ []
transaction_queries (total_latest_burnt_coins_count after_time) =
    query (codes "totalLatestBurntCoinsCount.sql") (seconds after_time ∷ []) ∷ []
transaction_queries (total_latest_burnt_coins after_time start_index count) =
    query (codes "totalLatestBurntCoins.sql")
      (seconds after_time ∷ uint start_index ∷ uint count ∷ [])
    ∷ []
