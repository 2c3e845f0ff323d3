-- ===== src/Api/Server/Routes/Epochs.antt =====
-- The routes of initRouter of app/api/server.go on the coins and the epochs.
use idena_indexer_api.Prelude.{List, [], ◌∷◌}
use idena_indexer_api.Api.Server.Router.{Route, path, with_queries}
use idena_indexer_api.Api.Server.Handlers.EpochIdentities.{
  epoch_identities, epoch_identities_count, epoch_identities_rewards,
  epoch_identities_rewards_count, epoch_identity_states_interim_summary,
  epoch_identity_states_summary,
}
use idena_indexer_api.Api.Server.Handlers.Epochs.{
  epoch, epoch_bad_authors, epoch_bad_authors_count, epoch_blocks, epoch_blocks_count, epoch_coins,
  epoch_delegatee_total_rewards, epoch_flip_states_summary, epoch_flip_wrong_words_summary,
  epoch_flips, epoch_flips_count, epoch_fund_payments, epoch_invite_states_summary, epoch_invites,
  epoch_invites_count, epoch_invites_summary, epoch_reward_bounds, epoch_rewards_summary, epoch_txs,
  epoch_txs_count, epochs, epochs_count, last_epoch,
}
use idena_indexer_api.Api.Server.Handlers.Network.{
  circulating_supply, coins, dump_link_handler, search, txt_circulating_supply, txt_total_supply,
  upgrades,
}

abbrev pub epochs_routes : List Route
epochs_routes =
    path "/DumpLink" dump_link_handler
    ∷ with_queries "/Search" ("value" ∷ []) search
    ∷ path "/Coins" coins
    ∷ path "/Txt/TotalSupply" txt_total_supply
    ∷ with_queries "/CirculatingSupply" ("format" ∷ []) circulating_supply
    ∷ path "/CirculatingSupply" circulating_supply
    ∷ path "/Txt/CirculatingSupply" txt_circulating_supply
    ∷ path "/Upgrades" upgrades
    ∷ path "/Epochs/Count" epochs_count
    ∷ path "/Epochs" epochs
    ∷ path "/Epoch/Last" last_epoch
    ∷ path "/Epoch/{epoch:[0-9]+}" epoch
    ∷ path "/Epoch/{epoch:[0-9]+}/Blocks/Count" epoch_blocks_count
    ∷ path "/Epoch/{epoch:[0-9]+}/Blocks" epoch_blocks
    ∷ path "/Epoch/{epoch:[0-9]+}/Flips/Count" epoch_flips_count
    ∷ path "/Epoch/{epoch:[0-9]+}/Flips" epoch_flips
    ∷ path "/Epoch/{epoch:[0-9]+}/FlipStatesSummary" epoch_flip_states_summary
    ∷ path "/Epoch/{epoch:[0-9]+}/FlipWrongWordsSummary" epoch_flip_wrong_words_summary
    ∷ path "/Epoch/{epoch:[0-9]+}/Identities/Count" epoch_identities_count
    ∷ path "/Epoch/{epoch:[0-9]+}/Identities" epoch_identities
    ∷ path "/Epoch/{epoch:[0-9]+}/IdentityStatesSummary" epoch_identity_states_summary
    ∷ path "/Epoch/{epoch:[0-9]+}/IdentityStatesInterimSummary"
        epoch_identity_states_interim_summary
    ∷ path "/Epoch/{epoch:[0-9]+}/InvitesSummary" epoch_invites_summary
    ∷ path "/Epoch/{epoch:[0-9]+}/InviteStatesSummary" epoch_invite_states_summary
    ∷ path "/Epoch/{epoch:[0-9]+}/Invites/Count" epoch_invites_count
    ∷ path "/Epoch/{epoch:[0-9]+}/Invites" epoch_invites
    ∷ path "/Epoch/{epoch:[0-9]+}/Txs/Count" epoch_txs_count
    ∷ path "/Epoch/{epoch:[0-9]+}/Txs" epoch_txs
    ∷ path "/Epoch/{epoch:[0-9]+}/Coins" epoch_coins
    ∷ path "/Epoch/{epoch:[0-9]+}/RewardsSummary" epoch_rewards_summary
    ∷ path "/Epoch/{epoch:[0-9]+}/Authors/Bad/Count" epoch_bad_authors_count
    ∷ path "/Epoch/{epoch:[0-9]+}/Authors/Bad" epoch_bad_authors
    ∷ path "/Epoch/{epoch:[0-9]+}/IdentityRewards/Count" epoch_identities_rewards_count
    ∷ path "/Epoch/{epoch:[0-9]+}/IdentityRewards" epoch_identities_rewards
    ∷ path "/Epoch/{epoch:[0-9]+}/FundPayments" epoch_fund_payments
    ∷ path "/Epoch/{epoch:[0-9]+}/RewardBounds" epoch_reward_bounds
    ∷ path "/Epoch/{epoch:[0-9]+}/DelegateeTotalRewards" epoch_delegatee_total_rewards
    ∷ []
