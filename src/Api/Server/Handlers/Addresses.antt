-- ===== src/Api/Server/Handlers/Addresses.antt =====
-- The handlers of app/api/server.go on addresses.
use idena_indexer_api.Prelude.{[], ◌∷◌}
use idena_indexer_api.Api.Server.{
  count, continuation_token, text, hours_ago, result, page, Handler, monitored, call, var,
  read_page,
}

abbrev pub address : Handler
address = monitored "address" λ s r. result (call "Address" (text (var r "address") ∷ []))

abbrev pub address_penalties_count : Handler
address_penalties_count =
    monitored "addressPenaltiesCount"
      λ s r. result (call "AddressPenaltiesCount" (text (var r "address") ∷ []))

abbrev pub address_penalties : Handler
address_penalties = monitored "addressPenalties" λ s r. read_page r λ n t.
    page (call "AddressPenalties" (text (var r "address") ∷ count n ∷ continuation_token t ∷ []))

abbrev pub address_states_count : Handler
address_states_count =
    monitored "addressStatesCount"
      λ s r. result (call "AddressStatesCount" (text (var r "address") ∷ []))

abbrev pub address_states : Handler
address_states = monitored "addressStates" λ s r. read_page r λ n t.
    page (call "AddressStates" (text (var r "address") ∷ count n ∷ continuation_token t ∷ []))

abbrev pub address_total_latest_mining_reward : Handler
address_total_latest_mining_reward = monitored "addressTotalLatestMiningReward" λ s r.
    result (
      call "AddressTotalLatestMiningReward"
        (hours_ago s.latest_hours ∷ text (var r "address") ∷ []))

abbrev pub address_total_latest_burnt_coins : Handler
address_total_latest_burnt_coins = monitored "addressTotalLatestBurntCoins" λ s r.
    result
      (call "AddressTotalLatestBurntCoins" (hours_ago s.latest_hours ∷ text (var r "address") ∷ []))

abbrev pub address_bad_authors_count : Handler
address_bad_authors_count =
    monitored "addressBadAuthorsCount"
      λ s r. result (call "AddressBadAuthorsCount" (text (var r "address") ∷ []))

abbrev pub address_bad_authors : Handler
address_bad_authors = monitored "addressBadAuthors" λ s r. read_page r λ n t.
    page (call "AddressBadAuthors" (text (var r "address") ∷ count n ∷ continuation_token t ∷ []))

abbrev pub address_balance_updates_count : Handler
address_balance_updates_count =
    monitored "addressBalanceUpdatesCount"
      λ s r. result (call "AddressBalanceUpdatesCount" (text (var r "address") ∷ []))

abbrev pub address_balance_updates : Handler
address_balance_updates = monitored "addressBalanceUpdates" λ s r. read_page r λ n t.
    page
      (call "AddressBalanceUpdates" (text (var r "address") ∷ count n ∷ continuation_token t ∷ []))

abbrev pub address_balance_updates_summary : Handler
address_balance_updates_summary =
    monitored "addressBalanceUpdatesSummary"
      λ s r. result (call "AddressBalanceUpdatesSummary" (text (var r "address") ∷ []))

abbrev pub address_delegatee_total_rewards : Handler
address_delegatee_total_rewards = monitored "addressDelegateeTotalRewards" λ s r. read_page r λ n t.
    page (
      call "AddressDelegateeTotalRewards"
        (text (var r "address") ∷ count n ∷ continuation_token t ∷ []))

abbrev pub address_mining_reward_summaries : Handler
address_mining_reward_summaries = monitored "addressMiningRewardSummaries" λ s r. read_page r λ n t.
    page (
      call "AddressMiningRewardSummaries"
        (text (var r "address") ∷ count n ∷ continuation_token t ∷ []))

abbrev pub address_tokens : Handler
address_tokens = monitored "addressTokens" λ s r. read_page r λ n t.
    page (call "AddressTokens" (text (var r "address") ∷ count n ∷ continuation_token t ∷ []))

abbrev pub address_token : Handler
address_token =
    monitored "addressToken" λ s r.
      result (call "AddressToken" (text (var r "address") ∷ text (var r "tokenaddress") ∷ []))

abbrev pub address_delegations : Handler
address_delegations = monitored "addressDelegations" λ s r. read_page r λ n t.
    page (call "AddressDelegations" (text (var r "address") ∷ count n ∷ continuation_token t ∷ []))
