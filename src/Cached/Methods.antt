-- ===== src/Cached/Methods.antt =====
-- The methods of app/db/cached/accessor.go that use its caches; the five that only pass the call on are
-- not among them.
pub mod Network
pub mod Epochs
pub mod EpochRewards
pub mod EpochIdentities
pub mod Blocks
pub mod Identities
pub mod Addresses
pub mod Transactions
pub mod Contracts
pub mod Rest
pub mod Coherence
pub mod Sharing
mod Examples
use idena_indexer_api.Cached.Entry.{Entry}
use idena_indexer_api.Cached.Methods.Network.{NetworkCall, network_entry}
use idena_indexer_api.Cached.Methods.Epochs.{EpochCall, epoch_entry}
use idena_indexer_api.Cached.Methods.EpochRewards.{EpochRewardCall, epoch_reward_entry}
use idena_indexer_api.Cached.Methods.EpochIdentities.{EpochIdentityCall, epoch_identity_entry}
use idena_indexer_api.Cached.Methods.Blocks.{BlockCall, block_entry}
use idena_indexer_api.Cached.Methods.Identities.{IdentityCall, identity_entry}
use idena_indexer_api.Cached.Methods.Addresses.{AddressCall, address_entry}
use idena_indexer_api.Cached.Methods.Transactions.{TransactionCall, transaction_entry}
use idena_indexer_api.Cached.Methods.Contracts.{ContractCall, contract_entry}
use idena_indexer_api.Cached.Methods.Rest.{RestCall, rest_entry}

pub data Call : Type 0 where
  network_call : NetworkCall → Call
  epochs_call : EpochCall → Call
  epoch_rewards_call : EpochRewardCall → Call
  epoch_identities_call : EpochIdentityCall → Call
  blocks_call : BlockCall → Call
  identities_call : IdentityCall → Call
  addresses_call : AddressCall → Call
  transactions_call : TransactionCall → Call
  contracts_call : ContractCall → Call
  rest_call : RestCall → Call

unfoldable pub entry_of : Call → Entry
unfolding network_entry epoch_entry epoch_reward_entry epoch_identity_entry block_entry
    identity_entry address_entry transaction_entry contract_entry rest_entry
entry_of (network_call c) = network_entry c
entry_of (epochs_call c) = epoch_entry c
entry_of (epoch_rewards_call c) = epoch_reward_entry c
entry_of (epoch_identities_call c) = epoch_identity_entry c
entry_of (blocks_call c) = block_entry c
entry_of (identities_call c) = identity_entry c
entry_of (addresses_call c) = address_entry c
entry_of (transactions_call c) = transaction_entry c
entry_of (contracts_call c) = contract_entry c
entry_of (rest_call c) = rest_entry c
