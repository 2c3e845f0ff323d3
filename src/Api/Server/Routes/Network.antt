-- ===== src/Api/Server/Routes/Network.antt =====
-- The routes of initRouter of app/api/server.go on balances, contracts, the network and pools.
use idena_indexer_api.Prelude.{List, [], ◌∷◌}
use idena_indexer_api.Api.Server.Router.{Route, path, with_queries}
use idena_indexer_api.Api.Server.Handlers.Contracts.{
  address_contract_tx_balance_updates, address_oracle_voting_contracts, contract,
  contract_tx_balance_updates, estimated_oracle_rewards, multisig_contract, oracle_lock_contract,
  oracle_voting_contract, oracle_voting_contracts, refundable_oracle_lock_contract,
  time_lock_contract, token, token_holders, verify_contract,
}
use idena_indexer_api.Api.Server.Handlers.Network.{
  balances, download_verified_code_file, fork_change_log, fork_committee_count, mem_pool_txs,
  mem_pool_txs_count, miners_history, now, online_count, online_identities, online_identities_count,
  online_identity, online_validators, online_validators_count, peers_history, pool, pool_delegators,
  pool_delegators_count, pool_size_history, pools, pools_count, signature_address, staking, upgrade,
  upgrade_voting, upgrade_voting_history, upgrade_votings, validators, validators_count,
}

abbrev pub network_routes : List Route
network_routes =
    path "/Balances" balances
    ∷ path "/Staking" staking
    ∷ path "/Contract/{address}" contract
    ∷ path "/Contract/{address}/BalanceUpdates" contract_tx_balance_updates
    ∷ path "/Contract/{address}/Verify" verify_contract
    ∷ path "/Contract/{address}/DownloadVerifiedCodeFile" download_verified_code_file
    ∷ path "/TimeLockContract/{address}" time_lock_contract
    ∷ path "/OracleLockContract/{address}" oracle_lock_contract
    ∷ path "/RefundableOracleLockContract/{address}" refundable_oracle_lock_contract
    ∷ path "/MultisigContract/{address}" multisig_contract
    ∷ path "/OracleVotingContracts" oracle_voting_contracts
    ∷ path "/OracleVotingContract/{address}" oracle_voting_contract
    ∷ path "/Address/{address}/OracleVotingContracts" address_oracle_voting_contracts
    ∷ path "/Address/{address}/Contract/{contractAddress}/BalanceUpdates"
        address_contract_tx_balance_updates
    ∷ path "/OracleVotingContracts/EstimatedOracleRewards" estimated_oracle_rewards
    ∷ path "/MemPool/Txs" mem_pool_txs
    ∷ path "/MemPool/Txs/Count" mem_pool_txs_count
    ∷ path "/OnlineIdentities/Count" online_identities_count
    ∷ path "/OnlineIdentities" online_identities
    ∷ path "/OnlineIdentity/{address}" online_identity
    ∷ path "/OnlineMiners/Count" online_count
    ∷ path "/Miners/History" miners_history
    ∷ path "/Peers/History" peers_history
    ∷ path "/Validators/Count" validators_count
    ∷ path "/Validators" validators
    ∷ path "/OnlineValidators/Count" online_validators_count
    ∷ path "/OnlineValidators" online_validators
    ∷ path "/ForkCommittee/Count" fork_committee_count
    ∷ with_queries "/SignatureAddress" ("value" ∷ "signature" ∷ []) signature_address
    ∷ path "/UpgradeVotings" upgrade_votings
    ∷ path "/UpgradeVoting" upgrade_voting
    ∷ path "/Upgrade/{upgrade:[0-9]+}/VotingHistory" upgrade_voting_history
    ∷ path "/Upgrade/{upgrade:[0-9]+}" upgrade
    ∷ path "/Node/{version}/ForkChangeLog" fork_change_log
    ∷ path "/Now" now
    ∷ path "/Pools/Count" pools_count
    ∷ path "/Pools" pools
    ∷ path "/Pool/{address}" pool
    ∷ path "/Pool/{address}/Delegators/Count" pool_delegators_count
    ∷ path "/Pool/{address}/Delegators" pool_delegators
    ∷ path "/Pool/{address}/SizeHistory" pool_size_history
    ∷ path "/Token/{address}" token
    ∷ path "/Token/{address}/Holders" token_holders
    ∷ []
