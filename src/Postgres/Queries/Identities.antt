-- ===== src/Postgres/Queries/Identities.antt =====
-- The scripts that methods of app/db/postgres run: those in identity.go.
use idena_indexer_api.Prelude.{List, [], ◌∷◌}
use idena_indexer_api.Prelude.Text.{codes}
use idena_indexer_api.Postgres.Queries.{Query, query, limit, string, token_part}
use idena_indexer_api.Cached.Methods.Identities.{
  IdentityCall, identity, identity_age, identity_current_flip_cids, identity_epochs_count,
  identity_epochs, identity_flips_count, identity_flips, identity_flip_qualified_answers,
  identity_flip_states, identity_invites_count, identity_invites, identity_txs_count, identity_txs,
  identity_rewards_count, identity_rewards, identity_epoch_rewards_count, identity_epoch_rewards,
}

unfoldable pub identity_queries : IdentityCall → List Query
identity_queries (identity address) =
    query (codes "identity.sql") (string address ∷ [])
    ∷ query (codes "identityAnswerPoints.sql") (string address ∷ [])
    ∷ []
identity_queries (identity_age address) = query (codes "identityAge.sql") (string address ∷ []) ∷ []
identity_queries (identity_current_flip_cids address) =
    query (codes "identityCurrentFlips.sql") (string address ∷ []) ∷ []
identity_queries (identity_epochs_count address) =
    query (codes "identityEpochsCount.sql") (string address ∷ []) ∷ []
identity_queries (identity_epochs address count continuation_token) =
    query (codes "identityEpochs.sql")
      (string address ∷ limit count ∷ token_part continuation_token ∷ [])
    ∷ []
identity_queries (identity_flips_count address) =
    query (codes "identityFlipsCount.sql") (string address ∷ []) ∷ []
identity_queries (identity_flips address count continuation_token) =
    query (codes "identityFlips.sql")
      (string address ∷ limit count ∷ token_part continuation_token ∷ [])
    ∷ []
identity_queries (identity_flip_qualified_answers address) =
    query (codes "identityFlipRightAnswers.sql") (string address ∷ []) ∷ []
identity_queries (identity_flip_states address) =
    query (codes "identityFlipStates.sql") (string address ∷ []) ∷ []
identity_queries (identity_invites_count address) =
    query (codes "identityInvitesCount.sql") (string address ∷ []) ∷ []
identity_queries (identity_invites address count continuation_token) =
    query (codes "identityInvites.sql")
      (string address ∷ limit count ∷ token_part continuation_token ∷ [])
    ∷ []
identity_queries (identity_txs_count address) =
    query (codes "identityTxsCount.sql") (string address ∷ []) ∷ []
identity_queries (identity_txs address count continuation_token) =
    query (codes "identityTxs.sql")
      (string address ∷ limit count ∷ token_part continuation_token ∷ [])
    ∷ []
identity_queries (identity_rewards_count address) =
    query (codes "identityRewardsCount.sql") (string address ∷ []) ∷ []
identity_queries (identity_rewards address count continuation_token) =
    query (codes "identityRewards.sql")
      (string address ∷ limit count ∷ token_part continuation_token ∷ [])
    ∷ []
identity_queries (identity_epoch_rewards_count address) =
    query (codes "identityEpochRewardsCount.sql") (string address ∷ []) ∷ []
identity_queries (identity_epoch_rewards address count continuation_token) =
    query (codes "identityEpochRewards.sql")
      (string address ∷ limit count ∷ token_part continuation_token ∷ [])
    ∷ []
