-- ===== src/Cached/Methods/Network.antt =====
-- The methods of app/db/cached/accessor.go on the network and the epochs as a whole.
use idena_indexer_api.Prelude.{ℕ, Option, List, [], ◌∷◌}
use idena_indexer_api.Prelude.Text.{Text, codes}
use idena_indexer_api.Cached.Key.{number, text, texts}
use idena_indexer_api.Cached.Entry.{Entry, entry, pointer_to}

pub data NetworkCall : Type 0 where
  search : Text → NetworkCall
  coins : NetworkCall
  circulating_supply : List Text → NetworkCall
  active_addresses_count : Text → NetworkCall
  epochs_count : NetworkCall
  epochs : ℕ → Option (ℕ × Text) → NetworkCall
  last_epoch : NetworkCall
  epoch : ℕ → NetworkCall
  epoch_blocks_count : ℕ → NetworkCall

unfoldable pub network_entry : NetworkCall → Entry
network_entry (search value) =
    entry (codes "Search") (text value ∷ []) (codes "Search") (text value ∷ [])
network_entry coins = entry (codes "Coins") [] (codes "Coins") []
network_entry (circulating_supply addresses_to_exclude) =
    entry (codes "CirculatingSupply") [] (codes "CirculatingSupply")
      (texts addresses_to_exclude ∷ [])
network_entry (active_addresses_count after_time) =
    entry (codes "ActiveAddressesCount") [] (codes "ActiveAddressesCount") (text after_time ∷ [])
network_entry epochs_count = entry (codes "EpochsCount") [] (codes "EpochsCount") []
network_entry (epochs count continuation_token) =
    entry (codes "Epochs") (number count ∷ pointer_to continuation_token ∷ []) (codes "Epochs")
      (number count ∷ pointer_to continuation_token ∷ [])
network_entry last_epoch = entry (codes "LastEpoch") [] (codes "LastEpoch") []
network_entry (epoch epoch_arg) =
    entry (codes "Epoch") (number epoch_arg ∷ []) (codes "Epoch") (number epoch_arg ∷ [])
network_entry (epoch_blocks_count epoch_arg) =
    entry (codes "EpochBlocksCount") (number epoch_arg ∷ []) (codes "EpochBlocksCount")
      (number epoch_arg ∷ [])
