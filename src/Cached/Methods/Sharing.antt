-- ===== src/Cached/Methods/Sharing.antt =====
-- CirculatingSupply of app/db/cached/accessor.go, called for two lists of addresses.
use idena_indexer_api.Prelude.{ℕ, ◌+◌, ◌≤◌, ◌≡◌, false, none, List}
use idena_indexer_api.Prelude.Text.{Text}
use idena_indexer_api.GoCache.{GoCache}
use idena_indexer_api.Cached.Key.{cache_key}
use idena_indexer_api.Cached.Accessor.{CachedValue, CachedAccessor, read, get_or_load}
use idena_indexer_api.Cached.Accessor.Freshness.{IsSpanned}
use idena_indexer_api.Cached.Accessor.Repeat.{HasRoom, get_or_load_again}
use idena_indexer_api.Cached.Methods.Network.{circulating_supply, network_entry}

abbrev pub supply_method : List Text → Text
supply_method addresses = (network_entry (circulating_supply addresses)).method

abbrev pub supply_key : List Text → Text
supply_key addresses = cache_key (network_entry (circulating_supply addresses)).args

module _ {R Err : Type 0} (g : GoCache (CachedValue R Err)) (life : Text → ℕ) where
  open g use {Store}

  -- In an accessor whose caches have the lifetimes of their methods: after CirculatingSupply found
  -- nothing and loaded the supply without the addresses `xs`, with room in its cache, the supply
  -- without any other addresses `ys` is answered with the same value while that lives: the
  -- addresses are not in the key.
  pub circulating_supply_shared :
      (a : CachedAccessor Store) (t t' u u' : ℕ) (xs ys : List Text) (v w : CachedValue R Err)
      → IsSpanned g life a
      → (read g a t (supply_method xs) (supply_key xs)).0 ≡ none
      → HasRoom g life (read g a t (supply_method xs) (supply_key xs)).1 (supply_method xs) t'
      → t' ≤ u
      → u ≤ t' + life (supply_method xs)
      → (r : CachedAccessor Store) × (get_or_load g
            (get_or_load g a t t' (supply_method xs) (supply_key xs) v).2
            u
            u'
            (supply_method ys)
            (supply_key ys)
            w
          ≡ (v, false, r))
  unfolding network_entry
  circulating_supply_shared a t t' u u' xs ys v w h miss room le lives =
      get_or_load_again g life a t t' u u' (supply_method xs) (supply_key xs) v w h miss room le
        lives
