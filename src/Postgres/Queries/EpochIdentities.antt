-- ===== src/Postgres/Queries/EpochIdentities.antt =====
-- The scripts that methods of app/db/postgres run: those in epoch_delegatee.go, epoch_identity.go.
use idena_indexer_api.Prelude.{true, false, List, [], ◌∷◌}
use idena_indexer_api.Prelude.Text.{codes}
use idena_indexer_api.Postgres.Queries.{Query, query, flag, limit, string, token_part, uint}
use idena_indexer_api.Cached.Methods.EpochIdentities.{
  EpochIdentityCall, epoch_identity, epoch_identity_short_flips_to_solve,
  epoch_identity_long_flips_to_solve, epoch_identity_short_answers, epoch_identity_long_answers,
  epoch_identity_flips, epoch_identity_flips_with_reward_flag, epoch_identity_reported_flip_rewards,
  epoch_identity_rewards, epoch_identity_bad_author, epoch_identity_invites_with_reward_flag,
  epoch_identity_saved_invite_rewards, epoch_identity_available_invites,
  epoch_identity_invitee_with_reward_flag, epoch_identity_validation_summary,
  epoch_address_delegatee_total_rewards, epoch_delegatee_rewards,
}

unfoldable pub epoch_identity_queries : EpochIdentityCall → List Query
epoch_identity_queries (epoch_identity epoch address) =
    query (codes "epochIdentity.sql") (uint epoch ∷ string address ∷ []) ∷ []
epoch_identity_queries (epoch_identity_short_flips_to_solve epoch address) =
    query (codes "epochIdentityFlipsToSolve.sql") (uint epoch ∷ string address ∷ flag true ∷ [])
    ∷ []
epoch_identity_queries (epoch_identity_long_flips_to_solve epoch address) =
    query (codes "epochIdentityFlipsToSolve.sql") (uint epoch ∷ string address ∷ flag false ∷ [])
    ∷ []
epoch_identity_queries (epoch_identity_short_answers epoch address) =
    query (codes "epochIdentityAnswers.sql") (uint epoch ∷ string address ∷ flag true ∷ []) ∷ []
epoch_identity_queries (epoch_identity_long_answers epoch address) =
    query (codes "epochIdentityAnswers.sql") (uint epoch ∷ string address ∷ flag false ∷ []) ∷ []
epoch_identity_queries (epoch_identity_flips epoch address) =
    query (codes "epochIdentityFlips.sql") (uint epoch ∷ string address ∷ []) ∷ []
epoch_identity_queries (epoch_identity_flips_with_reward_flag epoch address) =
    query (codes "epochIdentityRewardedFlips.sql") (uint epoch ∷ string address ∷ []) ∷ []
epoch_identity_queries (epoch_identity_reported_flip_rewards epoch address) =
    query (codes "epochIdentityReportedFlipRewards.sql") (uint epoch ∷ string address ∷ []) ∷ []
epoch_identity_queries (epoch_identity_rewards epoch address) =
    query (codes "epochIdentityRewards.sql") (uint epoch ∷ string address ∷ []) ∷ []
epoch_identity_queries (epoch_identity_bad_author epoch address) =
    query (codes "epochIdentityBadAuthor.sql") (uint epoch ∷ string address ∷ []) ∷ []
epoch_identity_queries (epoch_identity_invites_with_reward_flag epoch address) =
    query (codes "epochIdentityRewardedInvites.sql") (uint epoch ∷ string address ∷ []) ∷ []
epoch_identity_queries (epoch_identity_saved_invite_rewards epoch address) =
    query (codes "epochIdentitySavedInviteRewards.sql") (uint epoch ∷ string address ∷ []) ∷ []
epoch_identity_queries (epoch_identity_available_invites epoch address) =
    query (codes "epochIdentityAvailableInvites.sql") (uint epoch ∷ string address ∷ []) ∷ []
epoch_identity_queries (epoch_identity_invitee_with_reward_flag epoch address) =
    query (codes "epochIdentityRewardedInvitee.sql") (uint epoch ∷ string address ∷ []) ∷ []
epoch_identity_queries (epoch_identity_validation_summary epoch address) =
    query (codes "epochIdentityValidationSummary.sql") (uint epoch ∷ string address ∷ []) ∷ []
epoch_identity_queries (epoch_address_delegatee_total_rewards epoch address) =
    query (codes "epochAddressDelegateeTotalRewards.sql") (uint epoch ∷ string address ∷ []) ∷ []
epoch_identity_queries (epoch_delegatee_rewards epoch address count continuation_token) =
    query (codes "epochDelegateeRewards.sql") (
      uint epoch
      ∷ string address
      ∷ limit count
      ∷ token_part continuation_token
      ∷ token_part continuation_token
      ∷ [])
    ∷ []
