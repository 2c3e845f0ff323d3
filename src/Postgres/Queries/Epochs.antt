-- ===== src/Postgres/Queries/Epochs.antt =====
-- The scripts that methods of app/db/postgres run: those in epoch.go.
use idena_indexer_api.Prelude.{List, [], ◌∷◌}
use idena_indexer_api.Prelude.Text.{codes}
use idena_indexer_api.Postgres.Queries.{Query, query, limit, states, token_part, uint}
use idena_indexer_api.Cached.Methods.Epochs.{
  EpochCall, epoch_blocks, epoch_flips_count, epoch_flips, epoch_flip_answers_summary,
  epoch_flip_states_summary, epoch_flip_wrong_words_summary, epoch_identities_count,
  epoch_identities, epoch_identity_states_summary, epoch_identity_states_interim_summary,
  epoch_invites_summary, epoch_invite_states_summary, epoch_invites_count, epoch_invites,
  epoch_txs_count, epoch_txs, epoch_coins, epoch_rewards_summary,
}

unfoldable pub epoch_queries : EpochCall → List Query
epoch_queries (epoch_blocks epoch count continuation_token) =
    query (codes "epochBlocks.sql") (uint epoch ∷ limit count ∷ token_part continuation_token ∷ [])
    ∷ []
epoch_queries (epoch_flips_count epoch) = query (codes "epochFlipsCount.sql") (uint epoch ∷ []) ∷ []
epoch_queries (epoch_flips epoch count continuation_token) =
    query (codes "epochFlips.sql") (uint epoch ∷ limit count ∷ token_part continuation_token ∷ [])
    ∷ []
epoch_queries (epoch_flip_answers_summary epoch) =
    query (codes "epochFlipQualifiedAnswers.sql") (uint epoch ∷ []) ∷ []
epoch_queries (epoch_flip_states_summary epoch) =
    query (codes "epochFlipStates.sql") (uint epoch ∷ []) ∷ []
epoch_queries (epoch_flip_wrong_words_summary epoch) =
    query (codes "epochFlipQualifiedWrongWords.sql") (uint epoch ∷ []) ∷ []
epoch_queries (epoch_identities_count epoch prev_states states_arg) =
    query (codes "epochIdentitiesCount.sql")
      (uint epoch ∷ states prev_states ∷ states states_arg ∷ [])
    ∷ []
epoch_queries (epoch_identities epoch prev_states states_arg count continuation_token) =
    query (codes "epochIdentities.sql") (
      uint epoch
      ∷ states prev_states
      ∷ states states_arg
      ∷ limit count
      ∷ token_part continuation_token
      ∷ [])
    ∷ []
epoch_queries (epoch_identity_states_summary epoch) =
    query (codes "epochIdentityStatesSummary.sql") (uint epoch ∷ []) ∷ []
epoch_queries (epoch_identity_states_interim_summary epoch) =
    query (codes "epochIdentityStatesInterimSummary.sql") (uint epoch ∷ []) ∷ []
epoch_queries (epoch_invites_summary epoch) =
    query (codes "epochInvitesSummary.sql") (uint epoch ∷ []) ∷ []
epoch_queries (epoch_invite_states_summary epoch) =
    query (codes "epochInviteStatesSummary.sql") (uint epoch ∷ []) ∷ []
epoch_queries (epoch_invites_count epoch) =
    query (codes "epochInvitesCount.sql") (uint epoch ∷ []) ∷ []
epoch_queries (epoch_invites epoch count continuation_token) =
    query (codes "epochInvites.sql") (uint epoch ∷ limit count ∷ token_part continuation_token ∷ [])
    ∷ []
epoch_queries (epoch_txs_count epoch) = query (codes "epochTxsCount.sql") (uint epoch ∷ []) ∷ []
epoch_queries (epoch_txs epoch count continuation_token) =
    query (codes "epochTxs.sql") (uint epoch ∷ limit count ∷ token_part continuation_token ∷ [])
    ∷ []
epoch_queries (epoch_coins epoch) = query (codes "epochCoins.sql") (uint epoch ∷ []) ∷ []
epoch_queries (epoch_rewards_summary epoch) =
    query (codes "epochRewardsSummary.sql") (uint epoch ∷ []) ∷ []
