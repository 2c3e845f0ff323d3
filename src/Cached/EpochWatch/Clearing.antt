-- ===== src/Cached/EpochWatch/Clearing.antt =====
-- The rounds of monitorEpochChange of app/db/cached/accessor.go in which the caches are cleared.
use Prim.Native.Nat.{max}
use idena_indexer_api.Prelude.{
  ℕ, ◌≡◌, refl, ◌&&◌, Option, none, some, List, [], ◌∷◌, arith, if◌then◌else◌, ltb, leb,
}
use idena_indexer_api.GoCache.{GoCache}
use idena_indexer_api.Cached.Accessor.{CachedValue, CachedAccessor, clear_cache}
use idena_indexer_api.Cached.EpochWatch.{Watch, start, observe, observe_all, monitor_round}

-- The highest epoch that was seen, from one on.
unfoldable pub highest : ℕ → List (Option ℕ) → ℕ
highest e [] = e
highest e (none ∷ rs) = highest e rs
highest e (some last ∷ rs) = highest (max e last) rs

-- What the loop remembers of the highest epoch.
abbrev remembering : ℕ → Watch
remembering e = record { is_first = leb e 0; epoch = e }

observe-remembering :
    (e last : ℕ) → (observe (remembering e) (some last)).1 ≡ remembering (max e last)
unfolding observe
observe-remembering e last = ground arith

observe_all-remembering :
    (e : ℕ) (rs : List (Option ℕ)) → observe_all (remembering e) rs ≡ remembering (highest e rs)
unfolding observe_all highest observe
observe_all-remembering e [] = refl
observe_all-remembering e (none ∷ rs) = observe_all-remembering e rs
observe_all-remembering e (some last ∷ rs) =
    rw (observe-remembering e last) (observe_all-remembering (max e last) rs)

module _ {R Err : Type 0} (g : GoCache (CachedValue R Err)) where
  open g use {Store}

  -- After any rounds, failed ones included, a round that sees an epoch clears the caches just when an
  -- epoch above 0 has been seen before and this one is higher than all before; else it leaves them.
  pub monitor_round-clear_cache :
      (a : CachedAccessor Store) (rs : List (Option ℕ)) (e : ℕ)
      → (monitor_round g a (observe_all start rs) (some e)).0
        ≡ (if ltb 0 (highest 0 rs) && ltb (highest 0 rs) e then clear_cache g a else a)
  unfolding monitor_round observe start
  monitor_round-clear_cache a rs e = rw (observe_all-remembering 0 rs) (ground arith)
