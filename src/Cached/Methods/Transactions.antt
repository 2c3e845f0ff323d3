-- ===== src/Cached/Methods/Transactions.antt =====
-- The methods of app/db/cached/accessor.go on transactions and balances.
use idena_indexer_api.Prelude.{ℕ, Bool, Option, none, some, [], ◌∷◌, if◌then◌else◌}
use idena_indexer_api.Prelude.Text.{Text, codes}
use idena_indexer_api.Cached.Key.{number, text}
use idena_indexer_api.Cached.Entry.{Entry, entry, pointer_to}

pub data TransactionCall : Type 0 where
  transaction : Text → TransactionCall
  transaction_raw : Text → TransactionCall
  transaction_events : Text → ℕ → Option (ℕ × Text) → TransactionCall
  balances_count : TransactionCall
  balances : Option (ℕ × Text) → ℕ → Option (ℕ × Text) → TransactionCall
  total_latest_mining_rewards_count : Text → TransactionCall
  total_latest_mining_rewards : Text → ℕ → ℕ → TransactionCall
  total_latest_burnt_coins_count : Text → TransactionCall
  total_latest_burnt_coins : Text → ℕ → ℕ → TransactionCall

unfoldable pub transaction_entry : TransactionCall → Entry
transaction_entry (transaction hash) =
    entry (codes "Transaction") (text hash ∷ []) (codes "Transaction") (text hash ∷ [])
transaction_entry (transaction_raw hash) =
    entry (codes "TransactionRaw") (text hash ∷ []) (codes "TransactionRaw") (text hash ∷ [])
transaction_entry (transaction_events hash count continuation_token) =
    entry (codes "TransactionEvents")
      (text hash ∷ number count ∷ pointer_to continuation_token ∷ []) (codes "TransactionEvents")
      (text hash ∷ number count ∷ pointer_to continuation_token ∷ [])
transaction_entry balances_count = entry (codes "BalancesCount") [] (codes "BalancesCount") []
transaction_entry (balances sort_by count continuation_token) =
    entry (codes "Balances")
      (pointer_to sort_by ∷ number count ∷ pointer_to continuation_token ∷ []) (codes "Balances")
      (pointer_to sort_by ∷ number count ∷ pointer_to continuation_token ∷ [])
transaction_entry (total_latest_mining_rewards_count after_time) =
    entry (codes "TotalLatestMiningRewardsCount") (text after_time ∷ [])
      (codes "TotalLatestMiningRewardsCount") (text after_time ∷ [])
transaction_entry (total_latest_mining_rewards after_time start_index count) =
    entry (codes "TotalLatestMiningRewards")
      (text after_time ∷ number start_index ∷ number count ∷ []) (codes "TotalLatestMiningRewards")
      (text after_time ∷ number start_index ∷ number count ∷ [])
transaction_entry (total_latest_burnt_coins_count after_time) =
    entry (codes "TotalLatestBurntCoinsCount") (text after_time ∷ [])
      (codes "TotalLatestBurntCoinsCount") (text after_time ∷ [])
transaction_entry (total_latest_burnt_coins after_time start_index count) =
    entry (codes "TotalLatestBurntCoins") (text after_time ∷ number start_index ∷ number count ∷ [])
      (codes "TotalLatestBurntCoins") (text after_time ∷ number start_index ∷ number count ∷ [])

-- The loads of Transaction and TransactionRaw: what the database does not have, the mem pool is asked
-- for. `is_no_data` is the comparison with NoDataFound.
unfoldable pub load_transaction :
    {T Err : Type 0} → (Err → Bool) → T × Option Err → T × Option Err → T × Option Err
load_transaction is_no_data (tx, none) mem_pool = (tx, none)
load_transaction is_no_data (tx, some e) mem_pool = if is_no_data e then mem_pool else (tx, some e)
