-- ===== src/Api/Server/Routes/Addresses.antt =====
-- The routes of initRouter of app/api/server.go on flips, transactions and addresses.
use idena_indexer_api.Prelude.{List, [], ◌∷◌}
use idena_indexer_api.Api.Server.Router.{Route, path}
use idena_indexer_api.Api.Server.Handlers.Addresses.{
  address, address_balance_updates, address_balance_updates_summary,
  address_delegatee_total_rewards, address_delegations, address_mining_reward_summaries,
  address_penalties, address_penalties_count, address_states, address_states_count, address_token,
  address_tokens, address_total_latest_burnt_coins, address_total_latest_mining_reward,
}
use idena_indexer_api.Api.Server.Handlers.Blocks.{
  flip, flip_content, flip_epoch_adjacent_flips, flip_long_answers, flip_short_answers, transaction,
  transaction_events, transaction_raw,
}
use idena_indexer_api.Api.Server.Handlers.Identities.{
  identity_flips, identity_flips_count, identity_txs, identity_txs_count,
}

abbrev pub addresses_routes : List Route
addresses_routes =
    path "/Flip/{hash}" flip
    ∷ path "/Flip/{hash}/Content" flip_content
    ∷ path "/Flip/{hash}/Answers/Short" flip_short_answers
    ∷ path "/Flip/{hash}/Answers/Long" flip_long_answers
    ∷ path "/Flip/{hash}/Epoch/AdjacentFlips" flip_epoch_adjacent_flips
    ∷ path "/Transaction/{hash}" transaction
    ∷ path "/Transaction/{hash}/Raw" transaction_raw
    ∷ path "/Transaction/{hash}/Events" transaction_events
    ∷ path "/Address/{address}" address
    ∷ path "/Address/{address}/Txs/Count" identity_txs_count
    ∷ path "/Address/{address}/Txs" identity_txs
    ∷ path "/Address/{address}/Penalties/Count" address_penalties_count
    ∷ path "/Address/{address}/Penalties" address_penalties
    ∷ path "/Address/{address}/Flips/Count" identity_flips_count
    ∷ path "/Address/{address}/Flips" identity_flips
    ∷ path "/Address/{address}/States/Count" address_states_count
    ∷ path "/Address/{address}/States" address_states
    ∷ path "/Address/{address}/TotalLatestMiningReward" address_total_latest_mining_reward
    ∷ path "/Address/{address}/TotalLatestBurntCoins" address_total_latest_burnt_coins
    ∷ path "/Address/{address}/Balance/Changes" address_balance_updates
    ∷ path "/Address/{address}/Balance/Changes/Summary" address_balance_updates_summary
    ∷ path "/Address/{address}/DelegateeTotalRewards" address_delegatee_total_rewards
    ∷ path "/Address/{address}/MiningRewardSummaries" address_mining_reward_summaries
    ∷ path "/Address/{address}/Tokens" address_tokens
    ∷ path "/Address/{address}/Token/{tokenAddress}" address_token
    ∷ path "/Address/{address}/Delegations" address_delegations
    ∷ []
