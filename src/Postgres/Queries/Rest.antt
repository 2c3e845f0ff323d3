-- ===== src/Postgres/Queries/Rest.antt =====
-- The scripts that methods of app/db/postgres run: those in dynamic_endpoints.go, miners.go, peers.go, pools.go, tokens.go, upgrades.go.
use idena_indexer_api.Prelude.{List, [], ◌∷◌}
use idena_indexer_api.Prelude.Text.{codes}
use idena_indexer_api.Postgres.Queries.{Query, query, limit, string, token_part, uint}
use idena_indexer_api.Cached.Methods.Rest.{
  RestCall, upgrades, upgrade_votings, upgrade_voting_history, upgrade, pools_count, pools, pool,
  pool_delegators_count, pool_delegators, pool_size_history, miners_history, peers_history,
  dynamic_endpoint_data, token, token_holders,
}

-- DynamicEndpointData makes the text of its script itself, and passes no arguments.
unfoldable pub rest_queries : RestCall → List Query
rest_queries (upgrades count continuation_token) =
    query (codes "upgrades.sql") (limit count ∷ token_part continuation_token ∷ []) ∷ []
rest_queries (upgrade_votings count continuation_token) =
    query (codes "upgradeVotings.sql") (limit count ∷ token_part continuation_token ∷ []) ∷ []
rest_queries (upgrade_voting_history upgrade_arg) =
    query (codes "upgradeVotingHistory.sql") (uint upgrade_arg ∷ []) ∷ []
rest_queries (upgrade upgrade_arg) = query (codes "upgrade.sql") (uint upgrade_arg ∷ []) ∷ []
rest_queries pools_count = query (codes "poolsCount.sql") [] ∷ []
rest_queries (pools count continuation_token) =
    query (codes "pools.sql")
      (limit count ∷ token_part continuation_token ∷ token_part continuation_token ∷ [])
    ∷ []
rest_queries (pool address) = query (codes "pool.sql") (string address ∷ []) ∷ []
rest_queries (pool_delegators_count address) =
    query (codes "poolDelegatorsCount.sql") (string address ∷ []) ∷ []
rest_queries (pool_delegators address count continuation_token) =
    query (codes "poolDelegators.sql") (
      limit count
      ∷ token_part continuation_token
      ∷ token_part continuation_token
      ∷ string address
      ∷ [])
    ∷ []
rest_queries (pool_size_history address count continuation_token) =
    query (codes "poolSizeHistory.sql")
      (string address ∷ limit count ∷ token_part continuation_token ∷ [])
    ∷ []
rest_queries miners_history = query (codes "minersHistory.sql") [] ∷ []
rest_queries (peers_history count) = query (codes "peersHistory.sql") (uint count ∷ []) ∷ []
rest_queries (dynamic_endpoint_data name count) = []
rest_queries (token address) = query (codes "token.sql") (string address ∷ []) ∷ []
rest_queries (token_holders address count continuation_token) =
    query (codes "tokenHolders.sql") (
      string address
      ∷ limit count
      ∷ token_part continuation_token
      ∷ token_part continuation_token
      ∷ [])
    ∷ []
