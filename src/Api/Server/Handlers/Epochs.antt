-- ===== src/Api/Server/Handlers/Epochs.antt =====
-- The handlers of app/api/server.go on an epoch.
use idena_indexer_api.Prelude.{[], ◌∷◌}
use idena_indexer_api.Api.Server.{
  number, count, continuation_token, result, page, Handler, monitored, unmonitored, call, read_uint,
  read_page,
}

abbrev pub epochs_count : Handler
epochs_count = monitored "epochsCount" λ s r. result (call "EpochsCount" [])

abbrev pub epochs : Handler
epochs =
    monitored "epochs"
      λ s r. read_page r λ n t. page (call "Epochs" (count n ∷ continuation_token t ∷ []))

abbrev pub last_epoch : Handler
last_epoch = monitored "lastEpoch" λ s r. result (call "LastEpoch" [])

abbrev pub epoch : Handler
epoch =
    monitored "epoch" λ s r. read_uint r "epoch" λ epoch. result (call "Epoch" (number epoch ∷ []))

abbrev pub epoch_blocks_count : Handler
epoch_blocks_count =
    monitored "epochBlocksCount"
      λ s r. read_uint r "epoch" λ epoch. result (call "EpochBlocksCount" (number epoch ∷ []))

abbrev pub epoch_blocks : Handler
epoch_blocks = monitored "epochBlocks" λ s r. read_uint r "epoch" λ epoch.
    read_page r
      λ n t. page (call "EpochBlocks" (number epoch ∷ count n ∷ continuation_token t ∷ []))

abbrev pub epoch_flips_count : Handler
epoch_flips_count =
    monitored "epochFlipsCount"
      λ s r. read_uint r "epoch" λ epoch. result (call "EpochFlipsCount" (number epoch ∷ []))

abbrev pub epoch_flips : Handler
epoch_flips = monitored "epochFlips" λ s r. read_uint r "epoch" λ epoch.
    read_page r λ n t. page (call "EpochFlips" (number epoch ∷ count n ∷ continuation_token t ∷ []))

abbrev pub epoch_flip_states_summary : Handler
epoch_flip_states_summary =
    monitored "epochFlipStatesSummary"
      λ s r. read_uint r "epoch" λ epoch. result (call "EpochFlipStatesSummary" (number epoch ∷ []))

abbrev pub epoch_flip_wrong_words_summary : Handler
epoch_flip_wrong_words_summary = monitored "epochFlipWrongWordsSummary" λ s r.
    read_uint r "epoch" λ epoch. result (call "EpochFlipWrongWordsSummary" (number epoch ∷ []))

abbrev pub epoch_invites_summary : Handler
epoch_invites_summary =
    monitored "epochInvitesSummary"
      λ s r. read_uint r "epoch" λ epoch. result (call "EpochInvitesSummary" (number epoch ∷ []))

abbrev pub epoch_invite_states_summary : Handler
epoch_invite_states_summary =
    monitored "epochInviteStatesSummary" λ s r.
      read_uint r "epoch" λ epoch. result (call "EpochInviteStatesSummary" (number epoch ∷ []))

abbrev pub epoch_invites_count : Handler
epoch_invites_count =
    monitored "epochInvitesCount"
      λ s r. read_uint r "epoch" λ epoch. result (call "EpochInvitesCount" (number epoch ∷ []))

abbrev pub epoch_invites : Handler
epoch_invites = monitored "epochInvites" λ s r. read_uint r "epoch" λ epoch.
    read_page r
      λ n t. page (call "EpochInvites" (number epoch ∷ count n ∷ continuation_token t ∷ []))

abbrev pub epoch_txs_count : Handler
epoch_txs_count =
    monitored "epochTxsCount"
      λ s r. read_uint r "epoch" λ epoch. result (call "EpochTxsCount" (number epoch ∷ []))

abbrev pub epoch_txs : Handler
epoch_txs = monitored "epochTxs" λ s r. read_uint r "epoch" λ epoch.
    read_page r λ n t. page (call "EpochTxs" (number epoch ∷ count n ∷ continuation_token t ∷ []))

abbrev pub epoch_coins : Handler
epoch_coins =
    monitored "epochCoins"
      λ s r. read_uint r "epoch" λ epoch. result (call "EpochCoins" (number epoch ∷ []))

abbrev pub epoch_rewards_summary : Handler
epoch_rewards_summary =
    monitored "epochRewardsSummary"
      λ s r. read_uint r "epoch" λ epoch. result (call "EpochRewardsSummary" (number epoch ∷ []))

abbrev pub epoch_bad_authors_count : Handler
epoch_bad_authors_count =
    unmonitored
      λ s r. read_uint r "epoch" λ epoch. result (call "EpochBadAuthorsCount" (number epoch ∷ []))

abbrev pub epoch_bad_authors : Handler
epoch_bad_authors = monitored "epochBadAuthors" λ s r. read_uint r "epoch" λ epoch.
    read_page r
      λ n t. page (call "EpochBadAuthors" (number epoch ∷ count n ∷ continuation_token t ∷ []))

abbrev pub epoch_fund_payments : Handler
epoch_fund_payments =
    monitored "epochFundPayments"
      λ s r. read_uint r "epoch" λ epoch. result (call "EpochFundPayments" (number epoch ∷ []))

abbrev pub epoch_reward_bounds : Handler
epoch_reward_bounds =
    monitored "epochRewardBounds"
      λ s r. read_uint r "epoch" λ epoch. result (call "EpochRewardBounds" (number epoch ∷ []))

abbrev pub epoch_delegatee_total_rewards : Handler
epoch_delegatee_total_rewards = monitored "epochDelegateeTotalRewards" λ s r.
    read_uint r "epoch" λ epoch. read_page r λ n t.
      page (call "EpochDelegateeTotalRewards" (number epoch ∷ count n ∷ continuation_token t ∷ []))
