-- ===== src/Cached/Accessor/Steps.antt =====
-- What one read, one store and one clearing of app/db/cached/accessor.go does to the values that the
-- accessor's caches show.
use idena_indexer_api.Prelude.{
  ℕ, ◌+◌, ◌≤◌, ◌≡◌, refl, ◌∙◌, ◌⊎◌, inl, inr, none, some, List, [], ◌∷◌, arith, Option-cases,
}
use mathlib.Core.Option
use idena_indexer_api.Prelude.Text.{Text, text_eq_iff}
use idena_indexer_api.Prelude.Assoc.{find}
use idena_indexer_api.GoCache.{GoCache, default_expiration}
use idena_indexer_api.Cached.Cache.{get-set, default_span-set, keeps, CacheImpl}
use idena_indexer_api.Cached.Cache
use idena_indexer_api.Cached.Accessor.{
  CachedValue, CachedAccessor, life_time_of, get_cache, read, store, clear_all, clear_cache,
}
use idena_indexer_api.Cached.Accessor.Freshness.{
  view, IsSpanned, get_cache-Got, view-put_cache, put_cache-IsSpanned,
}

module _ {R Err : Type 0} (g : GoCache (CachedValue R Err)) (life : Text → ℕ) where
  open g use {Store}

  pub view-read :
      (a : CachedAccessor Store) (now later : ℕ) (m key j k : Text)
      → IsSpanned g life a
      → view g (read g a now m key).1 later j k ≡ view g a later j k
  view-read a now later m key j k h = unfold read in (get_cache-Got g life a m h).same later j k

  pub read-eq-view :
      (a : CachedAccessor Store) (now : ℕ) (m key : Text)
      → IsSpanned g life a
      → (read g a now m key).0 ≡ view g a now m key
  read-eq-view a now m key h = unfold read in (get_cache-Got g life a m h).shown now key

  pub view-store :
      (a : CachedAccessor Store) (now later : ℕ) (m key j k : Text) (v w : CachedValue R Err)
      → IsSpanned g life a
      → now ≤ later
      → view g (store g a now m key v) later j k ≡ some w
      → (view g a later j k ≡ some w)
        ⊎ ((m ≡ j) × (key ≡ k) × (v ≡ w) × ((life m ≡ 0) ⊎ (later ≤ now + life m)))
  view-store a now later m key j k v w h le e =
      let got = get_cache-Got g life a m h in
      let r = get_cache g a m in
      let c = Cache.set g r.0 now key v default_expiration in
      unfold store in
      ground (
        arith,
        view-put_cache g r.1 m c later j k,
        get-set g r.0 now key v default_expiration later k le,
        got.same later j k,
        got.shown later k,
        got.span,
        text_eq_iff m j,
        text_eq_iff key k,
        e,
      )

  find-clear_all :
      (m : List (Text × CacheImpl Store)) (j : Text)
      → find (clear_all g m) j ≡ Option.map (Cache.clear g) (find m j)
  unfolding find
  find-clear_all [] j = refl
  find-clear_all ((i, c) ∷ m) j = ground (arith, find-clear_all m j)

  pub view-clear_cache :
      (a : CachedAccessor Store) (now : ℕ) (j k : Text) → view g (clear_cache g a) now j k ≡ none
  unfolding view clear_cache Cache.clear Cache.get
  view-clear_cache a now j k = rw find-clear_all (elim (Option-cases (find a.caches_by_method j)) [
    | inl e ↦ rw e refl
    | inr (c, e) ↦ rw e (g.get-flush c.cache now k)
  ])

  pub store-IsSpanned :
      (a : CachedAccessor Store) (now : ℕ) (m key : Text) (v : CachedValue R Err)
      → IsSpanned g life a
      → IsSpanned g life (store g a now m key v)
  store-IsSpanned a now m key v h =
      let got = get_cache-Got g life a m h in
      let r = get_cache g a m in
      unfold store in
      put_cache-IsSpanned g life r.1 m (Cache.set g r.0 now key v default_expiration)
        (default_span-set g r.0 now key v default_expiration ∙ got.span) got.spanned

  pub clear_cache-IsSpanned :
      (a : CachedAccessor Store) → IsSpanned g life a → IsSpanned g life (clear_cache g a)
  unfolding clear_cache life_time_of Cache.clear
  clear_cache-IsSpanned a h = record {
    lives = h.lives;
    spans = λ m c e. elim (Option-cases (find a.caches_by_method m)) [
      | inl q ↦ ground (arith, find-clear_all a.caches_by_method m)
      | inr (d, q) ↦
          ground (
            arith,
            find-clear_all a.caches_by_method m,
            g.default_span-flush d.cache,
            h.spans m d q,
          )
    ];
  }
