-- ===== src/Postgres/Queries/EpochRewards.antt =====
-- The scripts that methods of app/db/postgres run: those in epoch.go.
use idena_indexer_api.Prelude.{List, [], ◌∷◌}
use idena_indexer_api.Prelude.Text.{codes}
use idena_indexer_api.Postgres.Queries.{Query, query, limit, token_part, uint}
use idena_indexer_api.Cached.Methods.EpochRewards.{
  EpochRewardCall, epoch_bad_authors_count, epoch_bad_authors, epoch_identities_rewards_count,
  epoch_identities_rewards, epoch_fund_payments, epoch_reward_bounds, epoch_delegatee_total_rewards,
}

unfoldable pub epoch_reward_queries : EpochRewardCall → List Query
epoch_reward_queries (epoch_bad_authors_count epoch) =
    query (codes "epochBadAuthorsCount.sql") (uint epoch ∷ []) ∷ []
epoch_reward_queries (epoch_bad_authors epoch count continuation_token) =
    query (codes "epochBadAuthors.sql")
      (uint epoch ∷ limit count ∷ token_part continuation_token ∷ [])
    ∷ []
epoch_reward_queries (epoch_identities_rewards_count epoch) =
    query (codes "epochIdentitiesRewardsCount.sql") (uint epoch ∷ []) ∷ []
epoch_reward_queries (epoch_identities_rewards epoch count continuation_token) =
    query (codes "epochIdentitiesRewards.sql")
      (uint epoch ∷ limit count ∷ token_part continuation_token ∷ [])
    ∷ []
epoch_reward_queries (epoch_fund_payments epoch) =
    query (codes "epochFundPayments.sql") (uint epoch ∷ []) ∷ []
epoch_reward_queries (epoch_reward_bounds epoch) =
    query (codes "epochRewardBounds.sql") (uint epoch ∷ []) ∷ []
epoch_reward_queries (epoch_delegatee_total_rewards epoch count continuation_token) =
    query (codes "epochDelegateeTotalRewards.sql") (
      uint epoch ∷ limit count ∷ token_part continuation_token ∷ token_part continuation_token ∷ [])
    ∷ []
