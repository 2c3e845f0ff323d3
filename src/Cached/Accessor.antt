-- ===== src/Cached/Accessor.antt =====
-- app/db/cached/accessor.go: one bounded cache for each method of the database accessor, made when
-- the method is first called, in front of the loads.
pub mod Freshness
pub mod Steps
pub mod Trace
pub mod Repeat
use idena_indexer_api.Prelude.{
  ℕ, zero, suc, ◌*◌, Bool, true, false, Option, none, some, List, [], ◌∷◌, map, if◌then◌else◌,
}
use idena_indexer_api.Prelude.Text.{Text, codes}
use idena_indexer_api.Prelude.Assoc.{find, insert}
use idena_indexer_api.GoCache.{GoCache, default_expiration}
use idena_indexer_api.Cached.Cache.{CacheImpl, new_cache}
use idena_indexer_api.Cached.Cache

-- A value with the continuation token and the error that came with it.
pub record CachedValue (R Err : Type 0) : Type 0 where
  pub res : R
  pub continuation_token : Option Text
  pub err : Option Err

-- The fields of cachedAccessor that its caching uses.
pub record CachedAccessor (Store : Type 0) : Type 0 where
  pub max_item_counts_by_method : List (Text × ℕ)
  pub default_cache_max_item_count : ℕ
  pub max_item_life_times_by_method : List (Text × ℕ)
  pub default_cache_item_life_time : ℕ
  pub caches_by_method : List (Text × CacheImpl Store)

-- Durations in seconds.
abbrev minutes : ℕ → ℕ
minutes n = n * 60

abbrev hours : ℕ → ℕ
hours n = n * 3600

unfoldable pub permanent_data_life_time : ℕ
permanent_data_life_time = hours 2

unfoldable pub create_max_item_counts_by_method : List (Text × ℕ)
create_max_item_counts_by_method = (codes "ActiveAddressesCount", 1) ∷ []

unfoldable pub create_max_item_life_times_by_method : List (Text × ℕ)
create_max_item_life_times_by_method =
    (codes "LastBlock", 20)
    ∷ (codes "ActiveAddressesCount", minutes 5)
    ∷ (codes "EpochIdentityStatesInterimSummary", minutes 5)
    ∷ (codes "EpochInvitesSummary", minutes 3)
    ∷ (codes "EpochInviteStatesSummary", minutes 3)
    ∷ (codes "FlipEpochAdjacentFlips", minutes 20)
    ∷ (codes "FlipAddressAdjacentFlips", minutes 20)
    ∷ (codes "FlipEpochIdentityAdjacentFlips", minutes 20)
    ∷ (codes "EpochFlipAnswersSummary", permanent_data_life_time)
    ∷ (codes "EpochFlipStatesSummary", permanent_data_life_time)
    ∷ (codes "EpochFlipWrongWordsSummary", permanent_data_life_time)
    ∷ (codes "EpochIdentityStatesSummary", permanent_data_life_time)
    ∷ (codes "EpochRewardsSummary", permanent_data_life_time)
    ∷ (codes "EpochBadAuthorsCount", permanent_data_life_time)
    ∷ (codes "EpochBadAuthors", permanent_data_life_time)
    ∷ (codes "EpochBadAuthorsOld", permanent_data_life_time)
    ∷ (codes "EpochIdentitiesRewardsCount", permanent_data_life_time)
    ∷ (codes "EpochIdentitiesRewards", permanent_data_life_time)
    ∷ (codes "EpochIdentitiesRewardsOld", permanent_data_life_time)
    ∷ (codes "EpochFundPayments", permanent_data_life_time)
    ∷ (codes "EpochRewardBounds", permanent_data_life_time)
    ∷ (codes "Upgrade", permanent_data_life_time)
    ∷ (codes "EpochIdentity", permanent_data_life_time)
    ∷ []

-- NewCachedAccessor, without the goroutines that it starts.
unfoldable pub new_cached_accessor : {Store : Type 0} → ℕ → ℕ → CachedAccessor Store
unfolding create_max_item_counts_by_method create_max_item_life_times_by_method
new_cached_accessor default_cache_max_item_count default_cache_item_life_time = record {
  max_item_counts_by_method = create_max_item_counts_by_method;
  default_cache_max_item_count = default_cache_max_item_count;
  max_item_life_times_by_method = create_max_item_life_times_by_method;
  default_cache_item_life_time = default_cache_item_life_time;
  caches_by_method = [];
}

abbrev or_else {ℓ} : {A : Type ℓ} → Option A → A → A
or_else none a = a
or_else (some b) a = b

module _ {R Err : Type 0} (g : GoCache (CachedValue R Err)) where
  open g use {Store}

  -- The bound and the lifetime of the cache that a method gets.
  unfoldable pub max_size_of : CachedAccessor Store → Text → ℕ
  max_size_of a method =
      or_else (find a.max_item_counts_by_method method) a.default_cache_max_item_count

  unfoldable pub life_time_of : CachedAccessor Store → Text → ℕ
  life_time_of a method =
      or_else (find a.max_item_life_times_by_method method) a.default_cache_item_life_time

  unfoldable pub get_cache : CachedAccessor Store → Text → CacheImpl Store × CachedAccessor Store
  unfolding max_size_of life_time_of
  get_cache a method = elim (find a.caches_by_method method) [
    | some c ↦ (c, a)
    | none ↦
        let c = new_cache g (max_size_of a method) (life_time_of a method) in
        (c, record a { caches_by_method = insert a.caches_by_method method c })
  ]

  -- The caches are shared pointers: what a Set does to one is seen through the map.
  unfoldable pub put_cache : CachedAccessor Store → Text → CacheImpl Store → CachedAccessor Store
  put_cache a method c = record a { caches_by_method = insert a.caches_by_method method c }

  -- The two accesses of getOrLoad and getOrLoadWithConToken to the cache, with the load between.
  unfoldable pub read :
      CachedAccessor Store → ℕ → Text → Text → Option (CachedValue R Err) × CachedAccessor Store
  unfolding get_cache
  read a now method key = let (c, a') = get_cache a method in (Cache.get g c now key, a')

  unfoldable pub store :
      CachedAccessor Store → ℕ → Text → Text → CachedValue R Err → CachedAccessor Store
  unfolding get_cache put_cache
  store a now method key loaded =
      let (c, a') = get_cache a method in
      put_cache a' method (Cache.set g c now key loaded default_expiration)

  -- `loaded` is what the load returns if it is called, `later` when it returns, and the Boolean
  -- says whether it was called.
  unfoldable pub get_or_load :
      CachedAccessor Store
      → ℕ
      → ℕ
      → Text
      → Text
      → CachedValue R Err
      → CachedValue R Err × Bool × CachedAccessor Store
  get_or_load a now later method key loaded =
      let (cached, a') = read a now method key in
      elim cached [
        | some v ↦ (v, false, a')
        | none ↦ (loaded, true, store a' later method key loaded)
      ]

  abbrev clear_all : List (Text × CacheImpl Store) → List (Text × CacheImpl Store)
  clear_all [] = []
  clear_all ((method, c) ∷ m) = (method, Cache.clear g c) ∷ clear_all m

  unfoldable pub clear_cache : CachedAccessor Store → CachedAccessor Store
  clear_cache a = record a { caches_by_method = clear_all a.caches_by_method }
