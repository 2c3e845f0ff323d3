-- ===== src/Postgres/Queries/Fit.antt =====
-- Each script that a method runs is there, and has as many parameters as it gets arguments.
use idena_indexer_api.Prelude.{
  ℕ, ◌≡◌, refl, Bool, true, false, ◌==◌, ◌&&◌, Option, none, some, List, [], ◌∷◌, length, arith,
}
use idena_indexer_api.Prelude.Text.{Text, text_eq}
use idena_indexer_api.Prelude.Assoc.{find}
use idena_indexer_api.Cached.Methods.{
  Call, network_call, epochs_call, epoch_rewards_call, epoch_identities_call, blocks_call,
  identities_call, addresses_call, transactions_call, contracts_call, rest_call,
}
use idena_indexer_api.Postgres.Queries.{Query}
use idena_indexer_api.Postgres.Queries.Calls.{queries_of}
use idena_indexer_api.Postgres.Queries.Scripts.{scripts}
use idena_indexer_api.Postgres.Balances.{sorts_by_stake}
use idena_indexer_api.Cached.Methods.Network.{NetworkCall}
use idena_indexer_api.Postgres.Queries.Network.{network_queries}
use idena_indexer_api.Cached.Methods.Epochs.{EpochCall}
use idena_indexer_api.Postgres.Queries.Epochs.{epoch_queries}
use idena_indexer_api.Cached.Methods.EpochRewards.{EpochRewardCall}
use idena_indexer_api.Postgres.Queries.EpochRewards.{epoch_reward_queries}
use idena_indexer_api.Cached.Methods.EpochIdentities.{EpochIdentityCall}
use idena_indexer_api.Postgres.Queries.EpochIdentities.{epoch_identity_queries}
use idena_indexer_api.Cached.Methods.Blocks.{BlockCall}
use idena_indexer_api.Postgres.Queries.Blocks.{block_queries}
use idena_indexer_api.Cached.Methods.Identities.{IdentityCall}
use idena_indexer_api.Postgres.Queries.Identities.{identity_queries}
use idena_indexer_api.Cached.Methods.Addresses.{AddressCall}
use idena_indexer_api.Postgres.Queries.Addresses.{address_queries}
use idena_indexer_api.Cached.Methods.Transactions.{
  TransactionCall, transaction, transaction_raw, transaction_events, balances_count, balances,
  total_latest_mining_rewards_count, total_latest_mining_rewards, total_latest_burnt_coins_count,
  total_latest_burnt_coins,
}
use idena_indexer_api.Postgres.Queries.Transactions.{
  transaction_queries, balances_queries_by, text_at,
}
use idena_indexer_api.Cached.Methods.Contracts.{ContractCall}
use idena_indexer_api.Postgres.Queries.Contracts.{contract_queries}
use idena_indexer_api.Cached.Methods.Rest.{RestCall}
use idena_indexer_api.Postgres.Queries.Rest.{rest_queries}

-- getQuery looks a name up, and panics if it is not there; here it is the number of the parameters.
unfoldable pub get_query : Text → Option ℕ
unfolding find
get_query name = find scripts name

abbrev has_parameters : ℕ → Option ℕ → Bool
has_parameters n none = false
has_parameters n (some parameters) = parameters == n

unfoldable pub all_fit : List Query → Bool
unfolding get_query
all_fit [] = true
all_fit (q ∷ queries) = has_parameters (length q.arguments) (get_query q.script) && all_fit queries

network_queries-fit : (c : NetworkCall) → all_fit (network_queries c) ≡ true
unfolding all_fit get_query find text_eq network_queries
network_queries-fit c = ground arith

epoch_queries-fit : (c : EpochCall) → all_fit (epoch_queries c) ≡ true
unfolding all_fit get_query find text_eq epoch_queries
epoch_queries-fit c = ground arith

epoch_reward_queries-fit : (c : EpochRewardCall) → all_fit (epoch_reward_queries c) ≡ true
unfolding all_fit get_query find text_eq epoch_reward_queries
epoch_reward_queries-fit c = ground arith

epoch_identity_queries-fit : (c : EpochIdentityCall) → all_fit (epoch_identity_queries c) ≡ true
unfolding all_fit get_query find text_eq epoch_identity_queries
epoch_identity_queries-fit c = ground arith

block_queries-fit : (c : BlockCall) → all_fit (block_queries c) ≡ true
unfolding all_fit get_query find text_eq block_queries
block_queries-fit c = ground arith

identity_queries-fit : (c : IdentityCall) → all_fit (identity_queries c) ≡ true
unfolding all_fit get_query find text_eq identity_queries
identity_queries-fit c = ground arith

address_queries-fit : (c : AddressCall) → all_fit (address_queries c) ≡ true
unfolding all_fit get_query find text_eq address_queries
address_queries-fit c = ground arith

balances_queries_by-fit :
    (by_stake : Bool) (count : ℕ) (continuation_token : Option (ℕ × Text))
    → all_fit (balances_queries_by by_stake count continuation_token) ≡ true
unfolding all_fit get_query find text_eq
balances_queries_by-fit true count continuation_token = refl
balances_queries_by-fit false count continuation_token = refl

transaction_queries-fit : (c : TransactionCall) → all_fit (transaction_queries c) ≡ true
unfolding all_fit get_query find text_eq transaction_queries
transaction_queries-fit (transaction hash) = refl
transaction_queries-fit (transaction_raw hash) = refl
transaction_queries-fit (transaction_events hash count continuation_token) = refl
transaction_queries-fit balances_count = refl
transaction_queries-fit (balances sort_by count continuation_token) =
    balances_queries_by-fit (sorts_by_stake (text_at sort_by)) count continuation_token
transaction_queries-fit (total_latest_mining_rewards_count after_time) = refl
transaction_queries-fit (total_latest_mining_rewards after_time start_index count) = refl
transaction_queries-fit (total_latest_burnt_coins_count after_time) = refl
transaction_queries-fit (total_latest_burnt_coins after_time start_index count) = refl

contract_queries-fit : (c : ContractCall) → all_fit (contract_queries c) ≡ true
unfolding all_fit get_query find text_eq contract_queries
contract_queries-fit c = ground arith

rest_queries-fit : (c : RestCall) → all_fit (rest_queries c) ≡ true
unfolding all_fit get_query find text_eq rest_queries
rest_queries-fit c = ground arith

-- For each method that the cached accessor loads through a cache, whatever the arguments: getQuery
-- finds each script that the method runs, and the script has as many parameters as it gets arguments.
-- The data of a dynamic endpoint, which runs no script, and the methods that go past the caches are left
-- out.
pub queries_of-fit : (c : Call) → all_fit (queries_of c) ≡ true
unfolding queries_of
queries_of-fit (network_call c) = network_queries-fit c
queries_of-fit (epochs_call c) = epoch_queries-fit c
queries_of-fit (epoch_rewards_call c) = epoch_reward_queries-fit c
queries_of-fit (epoch_identities_call c) = epoch_identity_queries-fit c
queries_of-fit (blocks_call c) = block_queries-fit c
queries_of-fit (identities_call c) = identity_queries-fit c
queries_of-fit (addresses_call c) = address_queries-fit c
queries_of-fit (transactions_call c) = transaction_queries-fit c
queries_of-fit (contracts_call c) = contract_queries-fit c
queries_of-fit (rest_call c) = rest_queries-fit c
