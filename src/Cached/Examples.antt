-- ===== src/Cached/Examples.antt =====
-- The caching of app/db/cached on small runs.
use idena_indexer_api.Prelude.{ℕ, ◌≤◌, ◌≡◌, refl, false, none, some, List, [], ◌∷◌, ◌++◌, arith}
use idena_indexer_api.Prelude.Text.{Text, codes, text_eq}
use idena_indexer_api.Prelude.Assoc.{find, insert}
use idena_indexer_api.GoCache.{GoCache, default_expiration}
use idena_indexer_api.GoCache.Assoc.{assoc_cache}
use idena_indexer_api.Cached.Cache.{
  CacheImpl, new_cache, items_count, items_count-set, get-set, keeps,
}
use idena_indexer_api.Cached.Cache
use idena_indexer_api.Cached.Key.{pointer, cache_key}
use idena_indexer_api.Cached.EpochWatch.{start, observe_all, monitor_round}
use idena_indexer_api.Cached.EpochWatch.Clearing.{highest, monitor_round-clear_cache}
use idena_indexer_api.Cached.Accessor.{
  CachedValue, CachedAccessor, new_cached_accessor, life_time_of, read, get_or_load, clear_cache,
  store,
}
use idena_indexer_api.Cached.Accessor.Freshness.{IsSpanned}
use idena_indexer_api.Cached.Accessor.Trace.{
  last_time, after, Event, reading, storing, clearing, history, run, fresh, fresh-IsSpanned,
  IsRecent, read-IsRecent,
}
use idena_indexer_api.Cached.Accessor.Repeat.{get_or_load_again}

abbrev numbers : GoCache ℕ
numbers = assoc_cache ℕ

-- A cache of two items, each for 10 seconds.
abbrev small : CacheImpl numbers.Store
small = new_cache numbers 2 10

items_count-set_example :
    items_count numbers (Cache.set numbers small 5 (codes "a") 7 default_expiration) ≤ 2
unfolding items_count new_cache assoc_cache Cache.set
items_count-set_example =
    items_count-set numbers small 5 (codes "a") 7 default_expiration (omega arith)

get-set_example :
    Cache.get numbers (Cache.set numbers small 5 (codes "a") 7 default_expiration) 15 (codes "a")
    ≡ some 7
unfolding keeps new_cache assoc_cache text_eq
get-set_example =
    get-set numbers small 5 (codes "a") 7 default_expiration 15 (codes "a") (omega arith)

abbrev Value : Type 0
Value = CachedValue ℕ ℕ

abbrev values : GoCache Value
values = assoc_cache Value

abbrev loaded : ℕ → Value
loaded n = record { res = n; continuation_token = none; err = none }

abbrev accessor : CachedAccessor values.Store
accessor = fresh values 10 60

abbrev last_block : Text
last_block = codes "LastBlock"

-- Two loads of which the second is stored after a clearing.
abbrev calls : List (Event ℕ ℕ)
calls =
    reading 1 last_block (codes "key")
    ∷ storing 2 last_block (codes "key") (loaded 100)
    ∷ clearing 3
    ∷ storing 4 last_block (codes "key") (loaded 101)
    ∷ []

abbrev lives : Text → ℕ
lives = life_time_of values accessor

read-IsRecent_example :
    IsRecent values lives (history [] calls) 20 last_block (codes "key") (loaded 101)
unfolding last_time run after read Cache.get assoc_cache find store insert clear_cache
    new_cached_accessor text_eq Cache.set Cache.clear new_cache
read-IsRecent_example =
    read-IsRecent values 10 60 calls 20 last_block (codes "key") (loaded 101)
      (omega arith, (omega arith, (omega arith, (omega arith, tt)))) (omega arith) refl

accessor-IsSpanned : IsSpanned values lives accessor
accessor-IsSpanned = fresh-IsSpanned values 10 60

get_or_load_again_example :
    (r : CachedAccessor values.Store) × (get_or_load values
        (get_or_load values accessor 1 2 last_block (codes "key") (loaded 5)).2
        20
        21
        last_block
        (codes "key")
        (loaded 6)
      ≡ (loaded 5, false, r))
unfolding read Cache.get assoc_cache find new_cached_accessor new_cache keeps insert text_eq
get_or_load_again_example =
    get_or_load_again values lives accessor 1 2 20 21 last_block (codes "key") (loaded 5) (loaded 6)
      accessor-IsSpanned refl refl (omega arith) (omega arith)

abbrev key_of : Text → Text
key_of token = cache_key ([] ++ pointer 4096 token ∷ [])

monitor_round-clear_cache_example :
    (monitor_round values accessor
      (observe_all start (none ∷ some 89 ∷ none ∷ some 89 ∷ []))
      (some 90)).0
    ≡ clear_cache values accessor
unfolding highest
monitor_round-clear_cache_example =
    monitor_round-clear_cache values accessor (none ∷ some 89 ∷ none ∷ some 89 ∷ []) 90
