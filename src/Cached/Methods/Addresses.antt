-- ===== src/Cached/Methods/Addresses.antt =====
-- The methods of app/db/cached/accessor.go on addresses.
use idena_indexer_api.Prelude.{ℕ, Option, [], ◌∷◌}
use idena_indexer_api.Prelude.Text.{Text, codes}
use idena_indexer_api.Cached.Key.{number, text}
use idena_indexer_api.Cached.Entry.{Entry, entry, pointer_to}

pub data AddressCall : Type 0 where
  address : Text → AddressCall
  address_penalties_count : Text → AddressCall
  address_penalties : Text → ℕ → Option (ℕ × Text) → AddressCall
  address_states_count : Text → AddressCall
  address_states : Text → ℕ → Option (ℕ × Text) → AddressCall
  address_total_latest_mining_reward : Text → Text → AddressCall
  address_total_latest_burnt_coins : Text → Text → AddressCall
  address_bad_authors_count : Text → AddressCall
  address_bad_authors : Text → ℕ → Option (ℕ × Text) → AddressCall
  address_balance_updates_count : Text → AddressCall
  address_balance_updates : Text → ℕ → Option (ℕ × Text) → AddressCall
  address_balance_updates_summary : Text → AddressCall
  address_delegatee_total_rewards : Text → ℕ → Option (ℕ × Text) → AddressCall
  address_mining_reward_summaries : Text → ℕ → Option (ℕ × Text) → AddressCall
  address_tokens : Text → ℕ → Option (ℕ × Text) → AddressCall
  address_token : Text → Text → AddressCall
  address_delegations : Text → ℕ → Option (ℕ × Text) → AddressCall

unfoldable pub address_entry : AddressCall → Entry
address_entry (address address_arg) =
    entry (codes "Address") (text address_arg ∷ []) (codes "Address") (text address_arg ∷ [])
address_entry (address_penalties_count address_arg) =
    entry (codes "AddressPenaltiesCount") (text address_arg ∷ []) (codes "AddressPenaltiesCount")
      (text address_arg ∷ [])
address_entry (address_penalties address_arg count continuation_token) =
    entry (codes "AddressPenalties")
      (text address_arg ∷ number count ∷ pointer_to continuation_token ∷ [])
      (codes "AddressPenalties")
      (text address_arg ∷ number count ∷ pointer_to continuation_token ∷ [])
address_entry (address_states_count address_arg) =
    entry (codes "AddressStatesCount") (text address_arg ∷ []) (codes "AddressStatesCount")
      (text address_arg ∷ [])
address_entry (address_states address_arg count continuation_token) =
    entry (codes "AddressStates")
      (text address_arg ∷ number count ∷ pointer_to continuation_token ∷ []) (codes "AddressStates")
      (text address_arg ∷ number count ∷ pointer_to continuation_token ∷ [])
address_entry (address_total_latest_mining_reward after_time address_arg) =
    entry (codes "AddressTotalLatestMiningReward") (text after_time ∷ text address_arg ∷ [])
      (codes "AddressTotalLatestMiningReward") (text after_time ∷ text address_arg ∷ [])
address_entry (address_total_latest_burnt_coins after_time address_arg) =
    entry (codes "AddressTotalLatestBurntCoins") (text after_time ∷ text address_arg ∷ [])
      (codes "AddressTotalLatestBurntCoins") (text after_time ∷ text address_arg ∷ [])
address_entry (address_bad_authors_count address_arg) =
    entry (codes "AddressBadAuthorsCount") (text address_arg ∷ []) (codes "AddressBadAuthorsCount")
      (text address_arg ∷ [])
address_entry (address_bad_authors address_arg count continuation_token) =
    entry (codes "AddressBadAuthors")
      (text address_arg ∷ number count ∷ pointer_to continuation_token ∷ [])
      (codes "AddressBadAuthors")
      (text address_arg ∷ number count ∷ pointer_to continuation_token ∷ [])
address_entry (address_balance_updates_count address_arg) =
    entry (codes "AddressBalanceUpdatesCount") (text address_arg ∷ [])
      (codes "AddressBalanceUpdatesCount") (text address_arg ∷ [])
address_entry (address_balance_updates address_arg count continuation_token) =
    entry (codes "AddressBalanceUpdates")
      (text address_arg ∷ number count ∷ pointer_to continuation_token ∷ [])
      (codes "AddressBalanceUpdates")
      (text address_arg ∷ number count ∷ pointer_to continuation_token ∷ [])
address_entry (address_balance_updates_summary address_arg) =
    entry (codes "AddressBalanceUpdatesSummary") (text address_arg ∷ [])
      (codes "AddressBalanceUpdatesSummary") (text address_arg ∷ [])
address_entry (address_delegatee_total_rewards address_arg count continuation_token) =
    entry (codes "AddressDelegateeTotalRewards")
      (text address_arg ∷ number count ∷ pointer_to continuation_token ∷ [])
      (codes "AddressDelegateeTotalRewards")
      (text address_arg ∷ number count ∷ pointer_to continuation_token ∷ [])
address_entry (address_mining_reward_summaries address_arg count continuation_token) =
    entry (codes "AddressMiningRewardSummaries")
      (text address_arg ∷ number count ∷ pointer_to continuation_token ∷ [])
      (codes "AddressMiningRewardSummaries")
      (text address_arg ∷ number count ∷ pointer_to continuation_token ∷ [])
address_entry (address_tokens address_arg count continuation_token) =
    entry (codes "AddressTokens")
      (text address_arg ∷ number count ∷ pointer_to continuation_token ∷ []) (codes "AddressTokens")
      (text address_arg ∷ number count ∷ pointer_to continuation_token ∷ [])
address_entry (address_token address_arg token_address) =
    entry (codes "AddressToken") (text address_arg ∷ text token_address ∷ []) (codes "AddressToken")
      (text address_arg ∷ text token_address ∷ [])
address_entry (address_delegations address_arg count continuation_token) =
    entry (codes "AddressDelegations")
      (text address_arg ∷ number count ∷ pointer_to continuation_token ∷ [])
      (codes "AddressDelegations")
      (text address_arg ∷ number count ∷ pointer_to continuation_token ∷ [])
