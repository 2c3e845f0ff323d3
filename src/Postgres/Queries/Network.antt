-- ===== src/Postgres/Queries/Network.antt =====
-- The scripts that methods of app/db/postgres run: those in epoch.go, epochs.go, postgres.go.
use idena_indexer_api.Prelude.{List, [], ◌∷◌}
use idena_indexer_api.Prelude.Text.{Text, codes}
use idena_indexer_api.Postgres.Queries.{
  Query, query, array, limit, seconds, string, token_part, uint,
}
use idena_indexer_api.Cached.Methods.Network.{
  NetworkCall, search, coins, circulating_supply, active_addresses_count, epochs_count, epochs,
  last_epoch, epoch, epoch_blocks_count,
}

-- The scripts that Search of postgres.go may run for a text.
abbrev search_queries : Text → List Query
search_queries value =
    query (codes "isAddress.sql") (string value ∷ [])
    ∷ query (codes "isBlockHash.sql") (string value ∷ [])
    ∷ query (codes "isBlockHeight.sql") (string value ∷ [])
    ∷ query (codes "isEpoch.sql") (string value ∷ [])
    ∷ query (codes "isFlip.sql") (string value ∷ [])
    ∷ query (codes "isTx.sql") (string value ∷ [])
    ∷ []

-- CirculatingSupply of the same file
abbrev circulating_supply_queries : List Text → List Query
circulating_supply_queries [] = query (codes "coinsTotal.sql") [] ∷ []
circulating_supply_queries (address ∷ addresses) =
    query (codes "circulatingSupply.sql") (array (address ∷ addresses) ∷ []) ∷ []

unfoldable pub network_queries : NetworkCall → List Query
network_queries (search value) = search_queries value
network_queries coins = query (codes "coinsQuery.sql") [] ∷ []
network_queries (circulating_supply addresses_to_exclude) =
    circulating_supply_queries addresses_to_exclude
network_queries (active_addresses_count after_time) =
    query (codes "activeAddressesCount.sql") (seconds after_time ∷ []) ∷ []
network_queries epochs_count = query (codes "epochsCount.sql") [] ∷ []
network_queries (epochs count continuation_token) =
    query (codes "epochs.sql") (limit count ∷ token_part continuation_token ∷ []) ∷ []
network_queries last_epoch = query (codes "lastEpoch.sql") [] ∷ []
network_queries (epoch epoch_arg) = query (codes "epoch.sql") (uint epoch_arg ∷ []) ∷ []
network_queries (epoch_blocks_count epoch_arg) =
    query (codes "epochBlocksCount.sql") (uint epoch_arg ∷ []) ∷ []
