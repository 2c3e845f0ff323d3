-- ===== src/Cached/Methods/Rest.antt =====
-- The methods of app/db/cached/accessor.go on upgrades, pools, peers, dynamic endpoints and tokens.
use idena_indexer_api.Prelude.{ℕ, Option, [], ◌∷◌}
use idena_indexer_api.Prelude.Text.{Text, codes}
use idena_indexer_api.Cached.Key.{number, text}
use idena_indexer_api.Cached.Entry.{Entry, entry, pointer_to}

pub data RestCall : Type 0 where
  upgrades : ℕ → Option (ℕ × Text) → RestCall
  upgrade_votings : ℕ → Option (ℕ × Text) → RestCall
  upgrade_voting_history : ℕ → RestCall
  upgrade : ℕ → RestCall
  pools_count : RestCall
  pools : ℕ → Option (ℕ × Text) → RestCall
  pool : Text → RestCall
  pool_delegators_count : Text → RestCall
  pool_delegators : Text → ℕ → Option (ℕ × Text) → RestCall
  pool_size_history : Text → ℕ → Option (ℕ × Text) → RestCall
  miners_history : RestCall
  peers_history : ℕ → RestCall
  dynamic_endpoint_data : Text → Option (ℕ × Text) → RestCall
  token : Text → RestCall
  token_holders : Text → ℕ → Option (ℕ × Text) → RestCall

unfoldable pub rest_entry : RestCall → Entry
rest_entry (upgrades count continuation_token) =
    entry (codes "Upgrades") (number count ∷ pointer_to continuation_token ∷ []) (codes "Upgrades")
      (number count ∷ pointer_to continuation_token ∷ [])
rest_entry (upgrade_votings count continuation_token) =
    entry (codes "UpgradeVotings") (number count ∷ pointer_to continuation_token ∷ [])
      (codes "UpgradeVotings") (number count ∷ pointer_to continuation_token ∷ [])
rest_entry (upgrade_voting_history upgrade_arg) =
    entry (codes "UpgradeVotingHistory") (number upgrade_arg ∷ []) (codes "UpgradeVotingHistory")
      (number upgrade_arg ∷ [])
rest_entry (upgrade upgrade_arg) =
    entry (codes "Upgrade") (number upgrade_arg ∷ []) (codes "Upgrade") (number upgrade_arg ∷ [])
rest_entry pools_count = entry (codes "PoolsCount") [] (codes "PoolsCount") []
rest_entry (pools count continuation_token) =
    entry (codes "Pools") (number count ∷ pointer_to continuation_token ∷ []) (codes "Pools")
      (number count ∷ pointer_to continuation_token ∷ [])
rest_entry (pool address) =
    entry (codes "Pool") (text address ∷ []) (codes "Pool") (text address ∷ [])
rest_entry (pool_delegators_count address) =
    entry (codes "PoolDelegatorsCount") (text address ∷ []) (codes "PoolDelegatorsCount")
      (text address ∷ [])
rest_entry (pool_delegators address count continuation_token) =
    entry (codes "PoolDelegators")
      (text address ∷ number count ∷ pointer_to continuation_token ∷ []) (codes "PoolDelegators")
      (text address ∷ number count ∷ pointer_to continuation_token ∷ [])
rest_entry (pool_size_history address count continuation_token) =
    entry (codes "PoolSizeHistory")
      (text address ∷ number count ∷ pointer_to continuation_token ∷ []) (codes "PoolSizeHistory")
      (text address ∷ number count ∷ pointer_to continuation_token ∷ [])
rest_entry miners_history = entry (codes "MinersHistory") [] (codes "MinersHistory") []
rest_entry (peers_history count) =
    entry (codes "PeersHistory") (number count ∷ []) (codes "PeersHistory") (number count ∷ [])
rest_entry (dynamic_endpoint_data name limit) =
    entry (codes "DynamicEndpointData") (text name ∷ pointer_to limit ∷ [])
      (codes "DynamicEndpointData") (text name ∷ pointer_to limit ∷ [])
rest_entry (token address) =
    entry (codes "Token") (text address ∷ []) (codes "Token") (text address ∷ [])
rest_entry (token_holders address count continuation_token) =
    entry (codes "TokenHolders") (text address ∷ number count ∷ pointer_to continuation_token ∷ [])
      (codes "TokenHolders") (text address ∷ number count ∷ pointer_to continuation_token ∷ [])
