-- ===== src/Api/Server/Handlers/Network.antt =====
-- The handlers of app/api/server.go on the coins, the network and the pools.
use idena_indexer_api.Prelude.{[], ◌∷◌, if◌then◌else◌, ltb, length, not, ◌&&◌}
use idena_indexer_api.Prelude.Text.{codes, to_lower, text_eq}
use idena_indexer_api.Api.Server.{
  number, count, continuation_token, text, texts, optional, unknown_format, refused, result, page,
  plain_text, whole_amount, file, dump_link, current_time, Handler, monitored, unmonitored, call,
  var, read_uint, read_page, read_peers_history_count, read_sort_by, key_to_addr_or_empty,
}

abbrev pub dump_link_handler : Handler
dump_link_handler = monitored "dumpLink" λ s r. dump_link

abbrev pub search : Handler
search = monitored "search" λ s r.
    let value = var r "value" in
    let addr = key_to_addr_or_empty s value in
    result (call "Search" (text (if ltb 0 (length addr) then addr else value) ∷ []))

abbrev pub coins : Handler
coins = monitored "coins" λ s r. result (call "Coins" [])

abbrev pub txt_total_supply : Handler
txt_total_supply = monitored "coins" λ s r. plain_text (call "Coins" [])

abbrev pub circulating_supply : Handler
circulating_supply = monitored "circulatingSupply" λ s r.
    let format = to_lower (var r "format") in
    let supply = call "CirculatingSupply" (texts s.frozen_balance_addrs ∷ []) in
    if ltb 0 (length format)
      && not (text_eq format (codes "short"))
      && not (text_eq format (codes "full"))
    then refused (unknown_format format)
    else if text_eq (codes "full") (to_lower (var r "format"))
    then whole_amount supply
    else result supply

abbrev pub txt_circulating_supply : Handler
txt_circulating_supply =
    monitored "circulatingSupply"
      λ s r. plain_text (call "CirculatingSupply" (texts s.frozen_balance_addrs ∷ []))

abbrev pub upgrades : Handler
upgrades =
    monitored "upgrades"
      λ s r. read_page r λ n t. page (call "Upgrades" (count n ∷ continuation_token t ∷ []))

abbrev pub balances_count : Handler
balances_count = monitored "balancesCount" λ s r. result (call "BalancesCount" [])

abbrev pub balances : Handler
balances = monitored "balances" λ s r.
    read_page r λ n t.
      page (call "Balances" (optional (read_sort_by r) ∷ count n ∷ continuation_token t ∷ []))

abbrev pub staking : Handler
staking = monitored "staking" λ s r. result (call "Staking" [])

abbrev pub mem_pool_txs : Handler
mem_pool_txs =
    monitored "memPoolTxs" λ s r. read_page r λ n t. result (call "MemPoolTxs" (count n ∷ []))

abbrev pub mem_pool_txs_count : Handler
mem_pool_txs_count = monitored "memPoolTxsCount" λ s r. result (call "MemPoolTxsCount" [])

abbrev pub download_verified_code_file : Handler
download_verified_code_file =
    monitored "downloadVerifiedCodeFile"
      λ s r. file (var r "address") (call "ContractVerifiedCodeFile" (text (var r "address") ∷ []))

abbrev pub online_identities_count : Handler
online_identities_count = unmonitored λ s r. result (call "GetOnlineIdentitiesCount" [])

abbrev pub online_identities : Handler
online_identities = unmonitored λ s r.
    read_page r λ n t. page (call "GetOnlineIdentities" (count n ∷ continuation_token t ∷ []))

abbrev pub online_identity : Handler
online_identity = unmonitored λ s r. result (call "GetOnlineIdentity" (text (var r "address") ∷ []))

abbrev pub online_count : Handler
online_count = unmonitored λ s r. result (call "GetOnlineCount" [])

abbrev pub miners_history : Handler
miners_history = monitored "minersHistory" λ s r. result (call "MinersHistory" [])

abbrev pub peers_history : Handler
peers_history =
    monitored "peersHistory"
      λ s r. read_peers_history_count r λ n. result (call "PeersHistory" (count n ∷ []))

abbrev pub validators_count : Handler
validators_count = unmonitored λ s r. result (call "ValidatorsCount" [])

abbrev pub validators : Handler
validators =
    unmonitored
      λ s r. read_page r λ n t. page (call "Validators" (count n ∷ continuation_token t ∷ []))

abbrev pub online_validators_count : Handler
online_validators_count = unmonitored λ s r. result (call "OnlineValidatorsCount" [])

abbrev pub online_validators : Handler
online_validators =
    unmonitored
      λ s r. read_page r λ n t. page (call "OnlineValidators" (count n ∷ continuation_token t ∷ []))

abbrev pub fork_committee_count : Handler
fork_committee_count = unmonitored λ s r. result (call "ForkCommitteeCount" [])

abbrev pub signature_address : Handler
signature_address =
    unmonitored
      λ s r. result (call "SignatureAddress" (text (var r "value") ∷ text (var r "signature") ∷ []))

abbrev pub upgrade_votings : Handler
upgrade_votings =
    monitored "upgradeVotings"
      λ s r. read_page r λ n t. page (call "UpgradeVotings" (count n ∷ continuation_token t ∷ []))

abbrev pub upgrade_voting : Handler
upgrade_voting = unmonitored λ s r. result (call "UpgradeVoting" [])

abbrev pub upgrade_voting_history : Handler
upgrade_voting_history = monitored "upgrade" λ s r.
    read_uint r "upgrade" λ upgrade. result (call "UpgradeVotingHistory" (number upgrade ∷ []))

abbrev pub upgrade : Handler
upgrade =
    monitored "upgrade"
      λ s r. read_uint r "upgrade" λ upgrade. result (call "Upgrade" (number upgrade ∷ []))

abbrev pub fork_change_log : Handler
fork_change_log =
    monitored "forkChangeLog" λ s r. result (call "ForkChangeLog" (text (var r "version") ∷ []))

abbrev pub now : Handler
now = unmonitored λ s r. current_time

abbrev pub pools_count : Handler
pools_count = monitored "poolsCount" λ s r. result (call "PoolsCount" [])

abbrev pub pools : Handler
pools =
    monitored "pools"
      λ s r. read_page r λ n t. page (call "Pools" (count n ∷ continuation_token t ∷ []))

abbrev pub pool : Handler
pool = monitored "pool" λ s r. result (call "Pool" (text (var r "address") ∷ []))

abbrev pub pool_delegators_count : Handler
pool_delegators_count =
    monitored "poolDelegatorsCount"
      λ s r. result (call "PoolDelegatorsCount" (text (var r "address") ∷ []))

abbrev pub pool_delegators : Handler
pool_delegators = monitored "poolDelegators" λ s r. read_page r λ n t.
    page (call "PoolDelegators" (text (var r "address") ∷ count n ∷ continuation_token t ∷ []))

abbrev pub pool_size_history : Handler
pool_size_history = monitored "poolSizeHistory" λ s r. read_page r λ n t.
    page (call "PoolSizeHistory" (text (var r "address") ∷ count n ∷ continuation_token t ∷ []))
