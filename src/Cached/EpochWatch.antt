-- ===== src/Cached/EpochWatch.antt =====
-- monitorEpochChange of app/db/cached/accessor.go: the rounds of the goroutine that clears the caches
-- when a new epoch has begun.
pub mod Clearing
use idena_indexer_api.Prelude.{
  ℕ, Bool, true, false, not, Option, none, some, List, [], ◌∷◌, if◌then◌else◌, ltb,
}
use idena_indexer_api.GoCache.{GoCache}
use idena_indexer_api.Cached.Accessor.{CachedValue, CachedAccessor, clear_cache}

-- The variables of the loop.
pub record Watch : Type 0 where
  pub is_first : Bool
  pub epoch : ℕ

unfoldable pub start : Watch
start = record { is_first = true; epoch = 0 }

-- One round, of what LastEpoch returns, an error or an epoch: whether the caches are cleared.
unfoldable pub observe : Watch → Option ℕ → Bool × Watch
observe w none = (false, w)
observe w (some last_epoch) =
    if ltb w.epoch last_epoch
    then (not w.is_first, record { is_first = false; epoch = last_epoch })
    else (false, w)

unfoldable pub observe_all : Watch → List (Option ℕ) → Watch
unfolding observe
observe_all w [] = w
observe_all w (r ∷ rs) = observe_all (observe w r).1 rs

module _ {R Err : Type 0} (g : GoCache (CachedValue R Err)) where
  open g use {Store}

  -- A round with the caches.
  unfoldable pub monitor_round :
      CachedAccessor Store → Watch → Option ℕ → CachedAccessor Store × Watch
  unfolding observe clear_cache
  monitor_round a w r =
      let (clears, next) = observe w r in (if clears then clear_cache g a else a, next)
