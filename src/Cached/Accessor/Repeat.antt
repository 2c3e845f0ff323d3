-- ===== src/Cached/Accessor/Repeat.antt =====
-- A call of getOrLoad of app/db/cached/accessor.go that is made twice, with the same key or with the
-- key of another continuation token.
use idena_indexer_api.Prelude.{
  ℕ, ◌+◌, ◌≤◌, ◌≡◌, refl, ◌∙◌, true, false, none, some, List, ◌∷◌, ◌++◌, arith,
}
use idena_indexer_api.Prelude.Text.{Text, text_eq_refl}
use idena_indexer_api.GoCache.{GoCache, default_expiration}
use idena_indexer_api.Cached.Cache.{keeps, get-set}
use idena_indexer_api.Cached.Cache
use idena_indexer_api.Cached.Key.{Arg, pointer, cache_key, cache_key-address}
use idena_indexer_api.Cached.Accessor.{
  CachedValue, CachedAccessor, get_cache, read, store, get_or_load,
}
use idena_indexer_api.Cached.Accessor.Freshness.{view, IsSpanned, get_cache-Got, view-put_cache}
use idena_indexer_api.Cached.Accessor.Steps.{read-eq-view, store-IsSpanned}

module _ {R Err : Type 0} (g : GoCache (CachedValue R Err)) (life : Text → ℕ) where
  open g use {Store}

  -- There is room for one more item in the cache of the method.
  abbrev pub HasRoom : CachedAccessor Store → Text → ℕ → Type 0
  HasRoom a m now = keeps g (get_cache g a m).0 now ≡ true

  view-store_self :
      (a : CachedAccessor Store) (now later : ℕ) (m k : Text) (v : CachedValue R Err)
      → IsSpanned g life a
      → HasRoom a m now
      → now ≤ later
      → later ≤ now + life m
      → view g (store g a now m k v) later m k ≡ some v
  view-store_self a now later m k v h room le lives =
      let got = get_cache-Got g life a m h in
      let r = get_cache g a m in
      let c = Cache.set g r.0 now k v default_expiration in
      unfold store in
      ground (
        arith,
        view-put_cache g r.1 m c later m k,
        get-set g r.0 now k v default_expiration later k le,
        got.span,
        text_eq_refl m,
        text_eq_refl k,
      )

  get_or_load_hit :
      (a : CachedAccessor Store) (now later : ℕ) (m k : Text) (v loaded : CachedValue R Err)
      → (read g a now m k).0 ≡ some v
      → get_or_load g a now later m k loaded ≡ (v, false, (read g a now m k).1)
  get_or_load_hit a now later m k v loaded e = unfold get_or_load in rw (e, get_or_load) refl

  get_or_load_miss :
      (a : CachedAccessor Store) (now later : ℕ) (m k : Text) (loaded : CachedValue R Err)
      → (read g a now m k).0 ≡ none
      → get_or_load g a now later m k loaded
        ≡ (loaded, true, store g (read g a now m k).1 later m k loaded)
  get_or_load_miss a now later m k loaded e = unfold get_or_load in rw (e, get_or_load) refl

  -- In an accessor whose caches have the lifetimes of their methods: a call that found nothing and
  -- loaded, with room in the cache of its method, is answered, when made again while its value
  -- lives, with that value and without a load, whatever a load would now return.
  pub get_or_load_again :
      (a : CachedAccessor Store) (t t' u u' : ℕ) (m k : Text) (v w : CachedValue R Err)
      → IsSpanned g life a
      → (read g a t m k).0 ≡ none
      → HasRoom (read g a t m k).1 m t'
      → t' ≤ u
      → u ≤ t' + life m
      → (r : CachedAccessor Store) × (get_or_load g (get_or_load g a t t' m k v).2 u u' m k w
          ≡ (v, false, r))
  get_or_load_again a t t' u u' m k v w h miss room le lives =
      let b = (read g a t m k).1 in
      let hb : IsSpanned g life b = unfold read in (get_cache-Got g life a m h).spanned in
      let c = store g b t' m k v in
      (
        (read g c u m k).1,
        rw (get_or_load_miss a t t' m k v miss) (
            get_or_load_hit c u u' m k v w (
              read-eq-view g life c u m k (store-IsSpanned g life b t' m k v hb)
              ∙ view-store_self b t' u m k v hb room le lives)),
      )

module _ {R Err : Type 0} (g : GoCache (CachedValue R Err)) (life : Text → ℕ) where
  open g use {Store}

  -- In an accessor whose caches have the lifetimes of their methods: after a call that found
  -- nothing and loaded, with room in the cache of its method, a call with another continuation
  -- token at the same address is answered with the page of the first token, while that lives: the
  -- key of a call has the address.
  pub get_or_load_other_token :
      (a : CachedAccessor Store) (t t' u u' : ℕ) (m : Text) (before after : List Arg) (address : ℕ)
      (token other : Text) (page page' : CachedValue R Err)
      → IsSpanned g life a
      → (read g a t m (cache_key (before ++ pointer address token ∷ after))).0 ≡ none
      → HasRoom g life (read g a t m (cache_key (before ++ pointer address token ∷ after))).1 m t'
      → t' ≤ u
      → u ≤ t' + life m
      → (r : CachedAccessor Store) × (get_or_load g
            (get_or_load g a t t' m (cache_key (before ++ pointer address token ∷ after)) page).2
            u
            u'
            m
            (cache_key (before ++ pointer address other ∷ after))
            page'
          ≡ (page, false, r))
  get_or_load_other_token a t t' u u' m before after address token other page page' h miss room le
        lives =
      rw (← cache_key-address before after address token other) (
        get_or_load_again g life a t t' u u' m (cache_key (before ++ pointer address token ∷ after))
          page page' h miss room le lives)
