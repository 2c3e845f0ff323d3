-- ===== src/Postgres/Queries/Addresses.antt =====
-- The scripts that methods of app/db/postgres run: those in address.go.
use idena_indexer_api.Prelude.{List, [], ◌∷◌}
use idena_indexer_api.Prelude.Text.{codes}
use idena_indexer_api.Postgres.Queries.{Query, query, limit, seconds, string, token_part}
use idena_indexer_api.Cached.Methods.Addresses.{
  AddressCall, address, address_penalties_count, address_penalties, address_states_count,
  address_states, address_total_latest_mining_reward, address_total_latest_burnt_coins,
  address_bad_authors_count, address_bad_authors, address_balance_updates_count,
  address_balance_updates, address_balance_updates_summary, address_delegatee_total_rewards,
  address_mining_reward_summaries, address_tokens, address_token, address_delegations,
}

unfoldable pub address_queries : AddressCall → List Query
address_queries (address address_arg) = query (codes "address.sql") (string address_arg ∷ []) ∷ []
address_queries (address_penalties_count address_arg) =
    query (codes "addressPenaltiesCount.sql") (string address_arg ∷ []) ∷ []
address_queries (address_penalties address_arg count continuation_token) =
    query (codes "addressPenalties.sql")
      (string address_arg ∷ limit count ∷ token_part continuation_token ∷ [])
    ∷ []
address_queries (address_states_count address_arg) =
    query (codes "addressStatesCount.sql") (string address_arg ∷ []) ∷ []
address_queries (address_states address_arg count continuation_token) =
    query (codes "addressStates.sql")
      (string address_arg ∷ limit count ∷ token_part continuation_token ∷ [])
    ∷ []
address_queries (address_total_latest_mining_reward after_time address_arg) =
    query (codes "addressTotalLatestMiningReward.sql")
      (seconds after_time ∷ string address_arg ∷ [])
    ∷ []
address_queries (address_total_latest_burnt_coins after_time address_arg) =
    query (codes "addressTotalLatestBurntCoins.sql") (seconds after_time ∷ string address_arg ∷ [])
    ∷ []
address_queries (address_bad_authors_count address_arg) =
    query (codes "addressBadAuthorsCount.sql") (string address_arg ∷ []) ∷ []
address_queries (address_bad_authors address_arg count continuation_token) =
    query (codes "addressBadAuthors.sql")
      (string address_arg ∷ limit count ∷ token_part continuation_token ∷ [])
    ∷ []
address_queries (address_balance_updates_count address_arg) =
    query (codes "addressBalanceUpdatesCount.sql") (string address_arg ∷ []) ∷ []
address_queries (address_balance_updates address_arg count continuation_token) =
    query (codes "addressBalanceUpdates.sql")
      (string address_arg ∷ limit count ∷ token_part continuation_token ∷ [])
    ∷ []
address_queries (address_balance_updates_summary address_arg) =
    query (codes "addressBalanceUpdatesSummary.sql") (string address_arg ∷ []) ∷ []
address_queries (address_delegatee_total_rewards address_arg count continuation_token) =
    query (codes "addressDelegateeTotalRewards.sql")
      (string address_arg ∷ limit count ∷ token_part continuation_token ∷ [])
    ∷ []
address_queries (address_mining_reward_summaries address_arg count continuation_token) =
    query (codes "addressMiningRewardSummaries.sql")
      (string address_arg ∷ limit count ∷ token_part continuation_token ∷ [])
    ∷ []
address_queries (address_tokens address_arg count continuation_token) =
    query (codes "addressTokens.sql")
      (string address_arg ∷ limit count ∷ token_part continuation_token ∷ [])
    ∷ []
address_queries (address_token address_arg token_address) =
    query (codes "addressToken.sql") (string address_arg ∷ string token_address ∷ []) ∷ []
address_queries (address_delegations address_arg count continuation_token) =
    query (codes "addressDelegations.sql")
      (string address_arg ∷ limit count ∷ token_part continuation_token ∷ [])
    ∷ []
