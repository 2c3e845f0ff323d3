-- ===== src/Cached/Cache.antt =====
-- app/db/cached/cache.go: a go-cache with a bound on its number of items.
use idena_indexer_api.Prelude.{ℕ, ◌≤◌, ◌≡◌, Bool, true, Option, arith, if◌then◌else◌, leb, ltb}
use idena_indexer_api.Prelude.Text.{Text, text_eq}
use idena_indexer_api.GoCache.{GoCache, Lifetime, span, visible}

pub record CacheImpl (Store : Type 0) : Type 0 where
  pub max_size : ℕ
  pub cache : Store

module _ {V : Type 0} (g : GoCache V) where
  open g use {Store}

  unfoldable pub new_cache : ℕ → ℕ → CacheImpl Store
  new_cache max_size default_expiration = record {
    max_size = max_size;
    cache = g.new default_expiration;
  }

  unfoldable pub get : CacheImpl Store → ℕ → Text → Option V
  get c now key = g.get c.cache now key

  unfoldable pub items_count : CacheImpl Store → ℕ
  items_count c = g.item_count c.cache

  -- "Max size reached": the value is dropped.
  unfoldable pub store_or_drop : CacheImpl Store → ℕ → Text → V → Lifetime → CacheImpl Store
  store_or_drop c now key value life_time =
      if leb c.max_size (g.item_count c.cache)
      then c
      else record c { cache = g.set c.cache now key value life_time }

  unfoldable pub set : CacheImpl Store → ℕ → Text → V → Lifetime → CacheImpl Store
  unfolding store_or_drop
  set c now key value life_time =
      if leb c.max_size (g.item_count c.cache)
      then store_or_drop (record c { cache = g.delete_expired c.cache now }) now key value life_time
      else record c { cache = g.set c.cache now key value life_time }

  unfoldable pub clear : CacheImpl Store → CacheImpl Store
  clear c = record c { cache = g.flush c.cache }

  -- If the number of items is within the bound of the cache, it still is after a Set.
  pub items_count-set :
      (c : CacheImpl Store) (now : ℕ) (k : Text) (v : V) (l : Lifetime)
      → items_count c ≤ c.max_size
      → items_count (set c now k v l) ≤ (set c now k v l).max_size
  unfolding set items_count
  items_count-set c now k v l h = ground (
    arith,
    g.item_count-set c.cache now k v l,
    g.item_count-delete_expired c.cache now,
    g.item_count-set (g.delete_expired c.cache now) now k v l,
  )

  -- Whether Set keeps the value.
  unfoldable pub keeps : CacheImpl Store → ℕ → Bool
  keeps c now =
      if leb c.max_size (g.item_count c.cache)
      then ltb (g.item_count (g.delete_expired c.cache now)) c.max_size
      else true

  -- From the time of a Set on: if the cache has room, or has room once expired items are deleted,
  -- the key shows the value until it expires, which with the default lifetime in a cache whose default
  -- is 0 it never does, and every other key shows what it showed; if not, the Set changes nothing that
  -- can be read.
  pub get-set :
      (c : CacheImpl Store) (now : ℕ) (k : Text) (v : V) (l : Lifetime) (later : ℕ) (j : Text)
      → now ≤ later
      → get (set c now k v l) later j ≡ (
          if keeps c now
          then (if text_eq k j
              then visible now (span (g.default_span c.cache) l) later v
              else get c later j)
          else get c later j)
  unfolding set get keeps
  get-set c now k v l later j h = ground (
    arith,
    g.get-set c.cache now k v l later j,
    g.get-delete_expired c.cache now later j h,
    g.get-set (g.delete_expired c.cache now) now k v l later j,
    g.default_span-delete_expired c.cache now,
  )

  pub default_span-set :
      (c : CacheImpl Store) (now : ℕ) (k : Text) (v : V) (l : Lifetime)
      → g.default_span (set c now k v l).cache ≡ g.default_span c.cache
  unfolding set
  default_span-set c now k v l = ground (
    arith,
    g.default_span-set c.cache now k v l,
    g.default_span-delete_expired c.cache now,
    g.default_span-set (g.delete_expired c.cache now) now k v l,
  )
