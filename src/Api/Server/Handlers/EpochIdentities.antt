-- ===== src/Api/Server/Handlers/EpochIdentities.antt =====
-- The handlers of app/api/server.go on an identity in an epoch.
use idena_indexer_api.Prelude.{[], ◌∷◌}
use idena_indexer_api.Prelude.Text.{codes}
use idena_indexer_api.Api.Server.{
  number, count, continuation_token, text, texts, result, page, Handler, monitored, call, var,
  read_uint, read_page, convert_states,
}

abbrev pub epoch_identities_count : Handler
epoch_identities_count = monitored "epochIdentitiesCount" λ s r. read_uint r "epoch" λ epoch.
    result (
      call "EpochIdentitiesCount" (
        number epoch
        ∷ texts (convert_states (r.form (codes "prevstates[]")))
        ∷ texts (convert_states (r.form (codes "states[]")))
        ∷ []))

abbrev pub epoch_identities : Handler
epoch_identities = monitored "epochIdentities" λ s r. read_uint r "epoch" λ epoch.
    read_page r λ n t. page (
      call "EpochIdentities" (
        number epoch
        ∷ texts (convert_states (r.form (codes "prevstates[]")))
        ∷ texts (convert_states (r.form (codes "states[]")))
        ∷ count n
        ∷ continuation_token t
        ∷ []))

abbrev pub epoch_identity_states_summary : Handler
epoch_identity_states_summary = monitored "epochIdentityStatesSummary" λ s r.
    read_uint r "epoch" λ epoch. result (call "EpochIdentityStatesSummary" (number epoch ∷ []))

abbrev pub epoch_identity_states_interim_summary : Handler
epoch_identity_states_interim_summary = monitored "epochIdentityStatesInterimSummary" λ s r.
    read_uint r "epoch"
      λ epoch. result (call "EpochIdentityStatesInterimSummary" (number epoch ∷ []))

abbrev pub epoch_identities_rewards_count : Handler
epoch_identities_rewards_count = monitored "epochIdentitiesRewardsCount" λ s r.
    read_uint r "epoch" λ epoch. result (call "EpochIdentitiesRewardsCount" (number epoch ∷ []))

abbrev pub epoch_identities_rewards : Handler
epoch_identities_rewards = monitored "epochIdentitiesRewards" λ s r. read_uint r "epoch" λ epoch.
    read_page r λ n t.
      page (call "EpochIdentitiesRewards" (number epoch ∷ count n ∷ continuation_token t ∷ []))

abbrev pub epoch_identity : Handler
epoch_identity = monitored "epochIdentity" λ s r.
    read_uint r "epoch"
      λ epoch. result (call "EpochIdentity" (number epoch ∷ text (var r "address") ∷ []))

abbrev pub epoch_identity_short_flips_to_solve : Handler
epoch_identity_short_flips_to_solve = monitored "epochIdentityShortFlipsToSolve" λ s r.
    read_uint r "epoch" λ epoch.
      result (call "EpochIdentityShortFlipsToSolve" (number epoch ∷ text (var r "address") ∷ []))

abbrev pub epoch_identity_long_flips_to_solve : Handler
epoch_identity_long_flips_to_solve = monitored "epochIdentityLongFlipsToSolve" λ s r.
    read_uint r "epoch" λ epoch.
      result (call "EpochIdentityLongFlipsToSolve" (number epoch ∷ text (var r "address") ∷ []))

abbrev pub epoch_identity_short_answers : Handler
epoch_identity_short_answers = monitored "epochIdentityShortAnswers" λ s r.
    read_uint r "epoch" λ epoch.
      result (call "EpochIdentityShortAnswers" (number epoch ∷ text (var r "address") ∷ []))

abbrev pub epoch_identity_long_answers : Handler
epoch_identity_long_answers = monitored "epochIdentityLongAnswers" λ s r.
    read_uint r "epoch"
      λ epoch. result (call "EpochIdentityLongAnswers" (number epoch ∷ text (var r "address") ∷ []))

abbrev pub epoch_identity_flips : Handler
epoch_identity_flips = monitored "epochIdentityFlips" λ s r.
    read_uint r "epoch"
      λ epoch. result (call "EpochIdentityFlips" (number epoch ∷ text (var r "address") ∷ []))

abbrev pub epoch_identity_flips_with_reward_flag : Handler
epoch_identity_flips_with_reward_flag = monitored "epochIdentityFlipsWithRewardFlag" λ s r.
    read_uint r "epoch" λ epoch.
      result (call "EpochIdentityFlipsWithRewardFlag" (number epoch ∷ text (var r "address") ∷ []))

abbrev pub epoch_identity_reported_flip_rewards : Handler
epoch_identity_reported_flip_rewards = monitored "epochIdentityReportedFlipRewards" λ s r.
    read_uint r "epoch" λ epoch.
      result (call "EpochIdentityReportedFlipRewards" (number epoch ∷ text (var r "address") ∷ []))

abbrev pub epoch_identity_bad_author : Handler
epoch_identity_bad_author = monitored "epochIdentityBadAuthor" λ s r.
    read_uint r "epoch"
      λ epoch. result (call "EpochIdentityBadAuthor" (number epoch ∷ text (var r "address") ∷ []))

abbrev pub epoch_identity_rewards : Handler
epoch_identity_rewards = monitored "epochIdentityRewards" λ s r.
    read_uint r "epoch"
      λ epoch. result (call "EpochIdentityRewards" (number epoch ∷ text (var r "address") ∷ []))

abbrev pub epoch_identity_invites_with_reward_flag : Handler
epoch_identity_invites_with_reward_flag = monitored "epochIdentityInvitesWithRewardFlag" λ s r.
    read_uint r "epoch" λ epoch.
      result
        (call "EpochIdentityInvitesWithRewardFlag" (number epoch ∷ text (var r "address") ∷ []))

abbrev pub epoch_identity_saved_invite_rewards : Handler
epoch_identity_saved_invite_rewards = monitored "epochIdentitySavedInviteRewards" λ s r.
    read_uint r "epoch" λ epoch.
      result (call "EpochIdentitySavedInviteRewards" (number epoch ∷ text (var r "address") ∷ []))

abbrev pub epoch_identity_available_invites : Handler
epoch_identity_available_invites = monitored "epochIdentityAvailableInvites" λ s r.
    read_uint r "epoch" λ epoch.
      result (call "EpochIdentityAvailableInvites" (number epoch ∷ text (var r "address") ∷ []))

abbrev pub epoch_identity_invitee_with_reward_flag : Handler
epoch_identity_invitee_with_reward_flag = monitored "epochIdentityInviteeWithRewardFlag" λ s r.
    read_uint r "epoch" λ epoch.
      result
        (call "EpochIdentityInviteeWithRewardFlag" (number epoch ∷ text (var r "address") ∷ []))

abbrev pub epoch_identity_validation_summary : Handler
epoch_identity_validation_summary = monitored "epochIdentityValidationSummary" λ s r.
    read_uint r "epoch" λ epoch.
      result (call "EpochIdentityValidationSummary" (number epoch ∷ text (var r "address") ∷ []))

abbrev pub epoch_identity_data_with_proof : Handler
epoch_identity_data_with_proof = monitored "epochIdentityDataWithProof" λ s r.
    read_uint r "epoch"
      λ epoch. result (call "IdentityWithProof" (text (var r "address") ∷ number epoch ∷ []))

abbrev pub epoch_delegatee_rewards : Handler
epoch_delegatee_rewards = monitored "epochDelegateeRewards" λ s r. read_uint r "epoch" λ epoch.
    read_page r λ n t. page (
      call "EpochDelegateeRewards"
        (number epoch ∷ text (var r "address") ∷ count n ∷ continuation_token t ∷ []))

abbrev pub epoch_address_delegatee_total_rewards : Handler
epoch_address_delegatee_total_rewards = monitored "epochAddressDelegateeTotalRewards" λ s r.
    read_uint r "epoch" λ epoch.
      result (call "EpochAddressDelegateeTotalRewards" (number epoch ∷ text (var r "address") ∷ []))
