-- ===== src/Api/Server/Routes/Identities.antt =====
-- The routes of initRouter of app/api/server.go on the identities in an epoch, blocks and identities.
use idena_indexer_api.Prelude.{List, [], ◌∷◌}
use idena_indexer_api.Api.Server.Router.{Route, path}
use idena_indexer_api.Api.Server.Handlers.Addresses.{address_bad_authors, address_bad_authors_count}
use idena_indexer_api.Api.Server.Handlers.Blocks.{
  block, block_coins, block_txs, block_txs_count, last_block,
}
use idena_indexer_api.Api.Server.Handlers.EpochIdentities.{
  epoch_address_delegatee_total_rewards, epoch_delegatee_rewards, epoch_identity,
  epoch_identity_available_invites, epoch_identity_bad_author, epoch_identity_data_with_proof,
  epoch_identity_flips, epoch_identity_flips_with_reward_flag,
  epoch_identity_invitee_with_reward_flag, epoch_identity_invites_with_reward_flag,
  epoch_identity_long_answers, epoch_identity_long_flips_to_solve,
  epoch_identity_reported_flip_rewards, epoch_identity_rewards, epoch_identity_saved_invite_rewards,
  epoch_identity_short_answers, epoch_identity_short_flips_to_solve,
  epoch_identity_validation_summary,
}
use idena_indexer_api.Api.Server.Handlers.Identities.{
  identity, identity_age, identity_current_flip_cids, identity_epoch_rewards,
  identity_epoch_rewards_count, identity_epochs, identity_epochs_count, identity_flip_right_answers,
  identity_flip_states, identity_flips, identity_flips_count, identity_invites,
  identity_invites_count, identity_rewards, identity_rewards_count,
}

abbrev pub identities_routes : List Route
identities_routes =
    path "/Epoch/{epoch:[0-9]+}/Identity/{address}" epoch_identity
    ∷ path "/Epoch/{epoch:[0-9]+}/Identity/{address}/FlipsToSolve/Short"
        epoch_identity_short_flips_to_solve
    ∷ path "/Epoch/{epoch:[0-9]+}/Identity/{address}/FlipsToSolve/Long"
        epoch_identity_long_flips_to_solve
    ∷ path "/Epoch/{epoch:[0-9]+}/Identity/{address}/Answers/Short" epoch_identity_short_answers
    ∷ path "/Epoch/{epoch:[0-9]+}/Identity/{address}/Answers/Long" epoch_identity_long_answers
    ∷ path "/Epoch/{epoch:[0-9]+}/Identity/{address}/Flips" epoch_identity_flips
    ∷ path "/Epoch/{epoch:[0-9]+}/Identity/{address}/Rewards" epoch_identity_rewards
    ∷ path "/Epoch/{epoch:[0-9]+}/Identity/{address}/RewardedFlips"
        epoch_identity_flips_with_reward_flag
    ∷ path "/Epoch/{epoch:[0-9]+}/Identity/{address}/ReportRewards"
        epoch_identity_reported_flip_rewards
    ∷ path "/Epoch/{epoch:[0-9]+}/Identity/{address}/Authors/Bad" epoch_identity_bad_author
    ∷ path "/Epoch/{epoch:[0-9]+}/Identity/{address}/RewardedInvites"
        epoch_identity_invites_with_reward_flag
    ∷ path "/Epoch/{epoch:[0-9]+}/Identity/{address}/SavedInviteRewards"
        epoch_identity_saved_invite_rewards
    ∷ path "/Epoch/{epoch:[0-9]+}/Identity/{address}/AvailableInvites"
        epoch_identity_available_invites
    ∷ path "/Epoch/{epoch:[0-9]+}/Identity/{address}/ValidationSummary"
        epoch_identity_validation_summary
    ∷ path "/Epoch/{epoch:[0-9]+}/Identity/{address}/DataWithProof" epoch_identity_data_with_proof
    ∷ path "/Epoch/{epoch:[0-9]+}/Identity/{address}/RewardedInvitee"
        epoch_identity_invitee_with_reward_flag
    ∷ path "/Epoch/{epoch:[0-9]+}/Address/{address}/DelegateeRewards" epoch_delegatee_rewards
    ∷ path "/Epoch/{epoch:[0-9]+}/Address/{address}/DelegateeTotalRewards"
        epoch_address_delegatee_total_rewards
    ∷ path "/Block/Last" last_block
    ∷ path "/Block/{id}" block
    ∷ path "/Block/{id}/Txs/Count" block_txs_count
    ∷ path "/Block/{id}/Txs" block_txs
    ∷ path "/Block/{id}/Coins" block_coins
    ∷ path "/Identity/{address}" identity
    ∷ path "/Identity/{address}/Age" identity_age
    ∷ path "/Identity/{address}/CurrentFlipCids" identity_current_flip_cids
    ∷ path "/Identity/{address}/Epochs/Count" identity_epochs_count
    ∷ path "/Identity/{address}/Epochs" identity_epochs
    ∷ path "/Identity/{address}/Flips/Count" identity_flips_count
    ∷ path "/Identity/{address}/Flips" identity_flips
    ∷ path "/Identity/{address}/FlipStates" identity_flip_states
    ∷ path "/Identity/{address}/FlipQualifiedAnswers" identity_flip_right_answers
    ∷ path "/Identity/{address}/Invites/Count" identity_invites_count
    ∷ path "/Identity/{address}/Invites" identity_invites
    ∷ path "/Identity/{address}/Rewards/Count" identity_rewards_count
    ∷ path "/Identity/{address}/Rewards" identity_rewards
    ∷ path "/Identity/{address}/EpochRewards/Count" identity_epoch_rewards_count
    ∷ path "/Identity/{address}/EpochRewards" identity_epoch_rewards
    ∷ path "/Identity/{address}/Authors/Bad/Count" address_bad_authors_count
    ∷ path "/Identity/{address}/Authors/Bad" address_bad_authors
    ∷ []
