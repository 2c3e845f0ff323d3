-- ===== src/Cached/Methods/Coherence.antt =====
-- The calls of app/db/cached/accessor.go that meet in one item of a cache.
use idena_indexer_api.Prelude.{◌≡◌, Bool, true, false}
use idena_indexer_api.Cached.Entry.{Entry}
use idena_indexer_api.Cached.Methods.Network.{circulating_supply, active_addresses_count}
use idena_indexer_api.Cached.Methods.{Call, network_call}

-- The two methods whose argument is not in the key.
unfoldable pub is_keyed : Call → Bool
is_keyed (network_call (circulating_supply addresses)) = false
is_keyed (network_call (active_addresses_count after_time)) = false
is_keyed _ = true

abbrev Loads : Entry → Type 0
Loads e = (e.loaded ≡ e.method) × (e.load_args ≡ e.args)
