-- ===== src/Cached/Accessor/Trace.antt =====
-- Interleavings of the calls of app/db/cached/accessor.go: the reads and the stores of getOrLoad, and
-- clearCache, as events in the order of their times.
use idena_indexer_api.Prelude.{
  ℕ, ◌+◌, ◌≤◌, ◌≡◌, refl, sym, ◌∙◌, ◌⊎◌, inl, inr, some, List, [], ◌∷◌, arith,
}
use idena_indexer_api.Prelude.Text.{Text}
use idena_indexer_api.Prelude.Assoc.{find}
use idena_indexer_api.GoCache.{GoCache}
use idena_indexer_api.Cached.Accessor.{
  CachedValue, CachedAccessor, life_time_of, read, store, clear_cache, new_cached_accessor,
}
use idena_indexer_api.Cached.Accessor.Freshness.{view, IsSpanned, get_cache-Got}
use idena_indexer_api.Cached.Accessor.Steps.{
  view-read, read-eq-view, view-store, view-clear_cache, store-IsSpanned, clear_cache-IsSpanned,
}

-- The steps at which calls meet the caches; a call that misses loads between its two.
pub data Event (R Err : Type 0) : Type 0 where
  reading : ℕ → Text → Text → Event R Err
  storing : ℕ → Text → Text → CachedValue R Err → Event R Err
  clearing : ℕ → Event R Err

abbrev pub time : {R Err : Type 0} → Event R Err → ℕ
time (reading now m k) = now
time (storing now m k v) = now
time (clearing now) = now

-- The events come in the order of their times, from `clock` on.
abbrev pub Ordered : {R Err : Type 0} → ℕ → List (Event R Err) → Type 0
Ordered clock [] = Unit
Ordered clock (e ∷ es) = (clock ≤ time e) × Ordered (time e) es

-- A value that was stored, with the time, the method and the key.
pub record Stored (R Err : Type 0) : Type 0 where
  pub at : ℕ
  pub method : Text
  pub key : Text
  pub value : CachedValue R Err

-- What has been stored since the last clearing, latest first.
pub note : {R Err : Type 0} → List (Stored R Err) → Event R Err → List (Stored R Err)
note hist (reading now m k) = hist
note hist (storing now m k v) = record { at = now; method = m; key = k; value = v } ∷ hist
note hist (clearing now) = []

pub history : {R Err : Type 0} → List (Stored R Err) → List (Event R Err) → List (Stored R Err)
history hist [] = hist
history hist (e ∷ es) = history (note hist e) es

unfoldable pub last_time : {R Err : Type 0} → ℕ → List (Event R Err) → ℕ
last_time clock [] = clock
last_time clock (e ∷ es) = last_time (time e) es

abbrev pub Among : {A : Type 0} → A → List A → Type 0
Among x [] = ⊥
Among x (y ∷ ys) = (x ≡ y) ⊎ Among x ys

module _ {R Err : Type 0} (g : GoCache (CachedValue R Err)) (life : Text → ℕ) where
  open g use {Store}

  unfoldable pub after : CachedAccessor Store → Event R Err → CachedAccessor Store
  after a (reading now m k) = (read g a now m k).1
  after a (storing now m k v) = store g a now m k v
  after a (clearing now) = clear_cache g a

  unfoldable pub run : CachedAccessor Store → List (Event R Err) → CachedAccessor Store
  run a [] = a
  run a (e ∷ es) = run (after a e) es

  -- The value was stored since the last clearing, for the method and key, and has not outlived
  -- the lifetime of the method, which a value with the lifetime 0 never does.
  pub record IsRecent (hist : List (Stored R Err)) (now : ℕ) (m k : Text) (w : CachedValue R Err)
      : Type 0 where
    pub stored : Stored R Err
    pub among : Among stored hist
    pub method : stored.method ≡ m
    pub key : stored.key ≡ k
    pub value : stored.value ≡ w
    pub recent : (life m ≡ 0) ⊎ (now ≤ stored.at + life m)

  -- From `clock` on, all that the caches show is recent.
  pub record IsFresh (a : CachedAccessor Store) (hist : List (Stored R Err)) (clock : ℕ)
      : Type 0 where
    pub spanned : IsSpanned g life a
    pub recent :
        (now : ℕ) (m k : Text) (w : CachedValue R Err)
        → clock ≤ now
        → view g a now m k ≡ some w
        → IsRecent hist now m k w

  IsRecent-cons :
      (s : Stored R Err) (hist : List (Stored R Err)) (now : ℕ) (m k : Text) (w : CachedValue R Err)
      → IsRecent hist now m k w
      → IsRecent (s ∷ hist) now m k w
  IsRecent-cons s hist now m k w r = record {
    stored = r.stored;
    among = inr r.among;
    method = r.method;
    key = r.key;
    value = r.value;
    recent = r.recent;
  }

  after-IsFresh :
      (a : CachedAccessor Store) (hist : List (Stored R Err)) (clock : ℕ) (e : Event R Err)
      → IsFresh a hist clock
      → clock ≤ time e
      → IsFresh (after a e) (note hist e) (time e)
  unfolding after note
  after-IsFresh a hist clock (reading t m k) f le = record {
    spanned = unfold read in (get_cache-Got g life a m f.spanned).spanned;
    recent = λ now j i w later q.
        f.recent now j i w (omega arith) (sym (view-read g life a t now m k j i f.spanned) ∙ q);
  }
  after-IsFresh a hist clock (storing t m k v) f le = record {
    spanned = store-IsSpanned g life a t m k v f.spanned;
    recent = λ now j i w later q. elim (view-store g life a t now m k j i v w f.spanned later q) [
      | inl old ↦ IsRecent-cons _ hist now j i w (f.recent now j i w (omega arith) old)
      | inr (em, ek, ev, lives) ↦ record {
        stored = record { at = t; method = m; key = k; value = v };
        among = inl refl;
        method = em;
        key = ek;
        value = ev;
        recent = rw em at lives;
      }
    ];
  }
  after-IsFresh a hist clock (clearing t) f le = record {
    spanned = clear_cache-IsSpanned g life a f.spanned;
    recent = λ now j i w later q. absurd (ground (arith, view-clear_cache g life a now j i));
  }

  run-IsFresh :
      (a : CachedAccessor Store) (hist : List (Stored R Err)) (clock : ℕ) (es : List (Event R Err))
      → IsFresh a hist clock
      → Ordered clock es
      → IsFresh (run a es) (history hist es) (last_time clock es)
  unfolding run history last_time
  run-IsFresh a hist clock [] f o = f
  run-IsFresh a hist clock (e ∷ es) f (le, o) =
      run-IsFresh (after a e) (note hist e) (time e) es (after-IsFresh a hist clock e f le) o

module _ {R Err : Type 0} (g : GoCache (CachedValue R Err)) where
  open g use {Store}

  -- The accessor as it starts, with the default bound and lifetime of a cache.
  abbrev pub fresh : ℕ → ℕ → CachedAccessor Store
  fresh max_count life_time = new_cached_accessor {Store = Store} max_count life_time

  pub fresh-IsSpanned :
      (max_count life_time : ℕ)
      → IsSpanned g (life_time_of g (fresh max_count life_time)) (fresh max_count life_time)
  unfolding new_cached_accessor find
  fresh-IsSpanned max_count life_time = record {
    lives = λ m. refl;
    spans = λ m c e. absurd (ground arith);
  }

  fresh-IsFresh :
      (max_count life_time : ℕ)
      → IsFresh g (life_time_of g (fresh max_count life_time)) (fresh max_count life_time) [] 0
  unfolding new_cached_accessor view find
  fresh-IsFresh max_count life_time = record {
    spanned = fresh-IsSpanned max_count life_time;
    recent = λ now m k w le e. absurd (ground arith);
  }

  -- Whatever reads, stores and clearings have come before, in the order of time, a value that a
  -- cache shows was stored for the same method and the same key after the last clearing, and at
  -- most the lifetime of the method ago, or any time ago if that lifetime is 0.
  pub read-IsRecent :
      (max_count life_time : ℕ) (es : List (Event R Err)) (now : ℕ) (m k : Text)
      (w : CachedValue R Err)
      → Ordered 0 es
      → last_time 0 es ≤ now
      → (read g
          (run g (life_time_of g (fresh max_count life_time)) (fresh max_count life_time) es)
          now
          m
          k).0
        ≡ some w
      → IsRecent g (life_time_of g (fresh max_count life_time)) (history [] es) now m k w
  read-IsRecent max_count life_time es now m k w o le e =
      let life = life_time_of g (fresh max_count life_time) in
      let a = run g life (fresh max_count life_time) es in
      let f =
        run-IsFresh g life (fresh max_count life_time) [] 0 es (fresh-IsFresh max_count life_time)
          o in
      f.recent now m k w le (sym (read-eq-view g life a now m k f.spanned) ∙ e)
