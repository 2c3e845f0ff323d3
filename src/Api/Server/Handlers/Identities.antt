-- ===== src/Api/Server/Handlers/Identities.antt =====
-- The handlers of app/api/server.go on identities.
use idena_indexer_api.Prelude.{[], ◌∷◌}
use idena_indexer_api.Api.Server.{
  count, continuation_token, text, result, page, Handler, monitored, call, var, read_page,
}

abbrev pub identity : Handler
identity = monitored "identity" λ s r. result (call "Identity" (text (var r "address") ∷ []))

abbrev pub identity_age : Handler
identity_age =
    monitored "identityAge" λ s r. result (call "IdentityAge" (text (var r "address") ∷ []))

abbrev pub identity_current_flip_cids : Handler
identity_current_flip_cids =
    monitored "identityCurrentFlipCids"
      λ s r. result (call "IdentityCurrentFlipCids" (text (var r "address") ∷ []))

abbrev pub identity_epochs_count : Handler
identity_epochs_count =
    monitored "identityEpochsCount"
      λ s r. result (call "IdentityEpochsCount" (text (var r "address") ∷ []))

abbrev pub identity_epochs : Handler
identity_epochs = monitored "identityEpochs" λ s r. read_page r λ n t.
    page (call "IdentityEpochs" (text (var r "address") ∷ count n ∷ continuation_token t ∷ []))

abbrev pub identity_flips_count : Handler
identity_flips_count =
    monitored "identityFlipsCount"
      λ s r. result (call "IdentityFlipsCount" (text (var r "address") ∷ []))

abbrev pub identity_flips : Handler
identity_flips = monitored "identityFlips" λ s r. read_page r λ n t.
    page (call "IdentityFlips" (text (var r "address") ∷ count n ∷ continuation_token t ∷ []))

abbrev pub identity_flip_states : Handler
identity_flip_states =
    monitored "identityFlipStates"
      λ s r. result (call "IdentityFlipStates" (text (var r "address") ∷ []))

abbrev pub identity_flip_right_answers : Handler
identity_flip_right_answers =
    monitored "identityFlipRightAnswers"
      λ s r. result (call "IdentityFlipQualifiedAnswers" (text (var r "address") ∷ []))

abbrev pub identity_invites_count : Handler
identity_invites_count =
    monitored "identityInvitesCount"
      λ s r. result (call "IdentityInvitesCount" (text (var r "address") ∷ []))

abbrev pub identity_invites : Handler
identity_invites = monitored "identityInvites" λ s r. read_page r λ n t.
    page (call "IdentityInvites" (text (var r "address") ∷ count n ∷ continuation_token t ∷ []))

abbrev pub identity_txs_count : Handler
identity_txs_count =
    monitored "identityTxsCount"
      λ s r. result (call "IdentityTxsCount" (text (var r "address") ∷ []))

abbrev pub identity_txs : Handler
identity_txs = monitored "identityTxs" λ s r.
    read_page r λ n t.
      page (call "IdentityTxs" (text (var r "address") ∷ count n ∷ continuation_token t ∷ []))

abbrev pub identity_rewards_count : Handler
identity_rewards_count =
    monitored "identityRewardsCount"
      λ s r. result (call "IdentityRewardsCount" (text (var r "address") ∷ []))

abbrev pub identity_rewards : Handler
identity_rewards = monitored "identityRewards" λ s r. read_page r λ n t.
    page (call "IdentityRewards" (text (var r "address") ∷ count n ∷ continuation_token t ∷ []))

abbrev pub identity_epoch_rewards_count : Handler
identity_epoch_rewards_count =
    monitored "identityEpochRewardsCount"
      λ s r. result (call "IdentityEpochRewardsCount" (text (var r "address") ∷ []))

abbrev pub identity_epoch_rewards : Handler
identity_epoch_rewards = monitored "identityEpochRewards" λ s r. read_page r λ n t.
    page
      (call "IdentityEpochRewards" (text (var r "address") ∷ count n ∷ continuation_token t ∷ []))
