-- ===== src/Postgres/Queries/Calls.antt =====
-- The scripts that a call of the accessor behind the cache may run, of any of its methods.
use idena_indexer_api.Prelude.{List}
use idena_indexer_api.Cached.Methods.{
  Call, network_call, epochs_call, epoch_rewards_call, epoch_identities_call, blocks_call,
  identities_call, addresses_call, transactions_call, contracts_call, rest_call,
}
use idena_indexer_api.Postgres.Queries.{Query}
use idena_indexer_api.Postgres.Queries.Network.{network_queries}
use idena_indexer_api.Postgres.Queries.Epochs.{epoch_queries}
use idena_indexer_api.Postgres.Queries.EpochRewards.{epoch_reward_queries}
use idena_indexer_api.Postgres.Queries.EpochIdentities.{epoch_identity_queries}
use idena_indexer_api.Postgres.Queries.Blocks.{block_queries}
use idena_indexer_api.Postgres.Queries.Identities.{identity_queries}
use idena_indexer_api.Postgres.Queries.Addresses.{address_queries}
use idena_indexer_api.Postgres.Queries.Transactions.{transaction_queries}
use idena_indexer_api.Postgres.Queries.Contracts.{contract_queries}
use idena_indexer_api.Postgres.Queries.Rest.{rest_queries}

unfoldable pub queries_of : Call → List Query
unfolding network_queries epoch_queries epoch_reward_queries epoch_identity_queries block_queries
    identity_queries address_queries transaction_queries contract_queries rest_queries
queries_of (network_call c) = network_queries c
queries_of (epochs_call c) = epoch_queries c
queries_of (epoch_rewards_call c) = epoch_reward_queries c
queries_of (epoch_identities_call c) = epoch_identity_queries c
queries_of (blocks_call c) = block_queries c
queries_of (identities_call c) = identity_queries c
queries_of (addresses_call c) = address_queries c
queries_of (transactions_call c) = transaction_queries c
queries_of (contracts_call c) = contract_queries c
queries_of (rest_call c) = rest_queries c
