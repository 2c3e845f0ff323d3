-- ===== src/Cached/Accessor/Freshness.antt =====
-- What the caches of app/db/cached/accessor.go show, and the caches that getCache hands out.
use idena_indexer_api.Prelude.{
  ℕ, ◌≡◌, refl, sym, ◌∙◌, inl, inr, Option, none, some, arith, if◌then◌else◌, Option-cases,
}
use idena_indexer_api.Prelude.Text.{Text, text_eq, text_eq_iff}
use idena_indexer_api.Prelude.Assoc.{find, find-insert}
use idena_indexer_api.GoCache.{GoCache}
use idena_indexer_api.Cached.Cache.{CacheImpl, new_cache, get-set, default_span-set, keeps}
use idena_indexer_api.Cached.Cache
use idena_indexer_api.Cached.Accessor.{
  CachedValue, CachedAccessor, life_time_of, get_cache, put_cache, max_size_of,
}

module _ {R Err : Type 0} (g : GoCache (CachedValue R Err)) where
  open g use {Store}

  -- What a call of the method with the key would find at a time.
  abbrev show : Option (CacheImpl Store) → ℕ → Text → Option (CachedValue R Err)
  show none now key = none
  show (some c) now key = Cache.get g c now key

  unfoldable pub view : CachedAccessor Store → ℕ → Text → Text → Option (CachedValue R Err)
  view a now method key = show (find a.caches_by_method method) now key

  -- Every cache has the lifetime of its method.
  pub record IsSpanned (life : Text → ℕ) (a : CachedAccessor Store) : Type 0 where
    pub lives : (m : Text) → life_time_of g a m ≡ life m
    pub spans :
        (m : Text) (c : CacheImpl Store)
        → find a.caches_by_method m ≡ some c
        → g.default_span c.cache ≡ life m

  pub view-put_cache :
      (a : CachedAccessor Store) (m : Text) (c : CacheImpl Store) (now : ℕ) (j key : Text)
      → view (put_cache g a m c) now j key
        ≡ (if text_eq m j then Cache.get g c now key else view a now j key)
  unfolding view put_cache
  view-put_cache a m c now j key = rw find-insert (ground arith)

  pub put_cache-IsSpanned :
      (life : Text → ℕ) (a : CachedAccessor Store) (m : Text) (c : CacheImpl Store)
      → g.default_span c.cache ≡ life m
      → IsSpanned life a
      → IsSpanned life (put_cache g a m c)
  unfolding put_cache life_time_of
  put_cache-IsSpanned life a m c e h = record {
    lives = h.lives;
    spans =
        λ j d q. ground (arith, find-insert a.caches_by_method m c j, text_eq_iff m j, h.spans j d);
  }

  show-new : (size life now : ℕ) (key : Text) → show (some (new_cache g size life)) now key ≡ none
  unfolding new_cache Cache.get
  show-new size life now key = g.get-new life now key

  -- A cache that getCache makes shows nothing, and one that is there is left as it is.
  pub record Got (life : Text → ℕ) (a : CachedAccessor Store) (m : Text) (c : CacheImpl Store)
      (a' : CachedAccessor Store) : Type 0 where
    pub same : (now : ℕ) (j key : Text) → view a' now j key ≡ view a now j key
    pub shown : (now : ℕ) (key : Text) → Cache.get g c now key ≡ view a now m key
    pub span : g.default_span c.cache ≡ life m
    pub spanned : IsSpanned life a'

  view_of_none :
      (a : CachedAccessor Store) (m : Text) (now : ℕ) (key : Text)
      → find a.caches_by_method m ≡ none
      → view a now m key ≡ none
  unfolding view
  view_of_none a m now key e = rw e refl

  put_new-Got :
      (life : Text → ℕ) (a : CachedAccessor Store) (m : Text) (size span : ℕ)
      → find a.caches_by_method m ≡ none
      → span ≡ life m
      → IsSpanned life a
      → Got life a m (new_cache g size span) (put_cache g a m (new_cache g size span))
  put_new-Got life a m size span e q h =
      let spanned' : g.default_span (new_cache g size span).cache ≡ life m =
        unfold new_cache in g.default_span-new span ∙ q in
      record {
        same = λ now j key. ground (
          arith,
          view-put_cache a m (new_cache g size span) now j key,
          show-new size span now key,
          text_eq_iff m j,
          view_of_none a m now key e,
        );
        shown = λ now key. show-new size span now key ∙ sym (view_of_none a m now key e);
        span = spanned';
        spanned = put_cache-IsSpanned life a m (new_cache g size span) spanned' h;
      }

  pub get_cache-Got :
      (life : Text → ℕ) (a : CachedAccessor Store) (m : Text)
      → IsSpanned life a
      → Got life a m (get_cache g a m).0 (get_cache g a m).1
  unfolding get_cache
  get_cache-Got life a m h = elim (Option-cases (find a.caches_by_method m)) [
    | inl e ↦
        rw (e, get_cache)
          (unfold put_cache in
            put_new-Got life a m (max_size_of g a m) (life_time_of g a m) e (h.lives m) h)
    | inr (c, e) ↦
        rw (e, get_cache)
          (record {
            same = λ now j key. refl;
            shown = λ now key. unfold view in rw e refl;
            span = h.spans m c e;
            spanned = h;
          })
  ]
