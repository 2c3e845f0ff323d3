-- ===== src/GoCache.antt =====
-- The interface of github.com/patrickmn/go-cache, which the program calls and does not contain: a map
-- whose items expire. Times and durations are numbers of one unit. The laws are what its documentation
-- says of each method.
pub mod Assoc
use mathlib.Core.Option
use idena_indexer_api.Prelude.{
  ℕ, zero, suc, ◌+◌, ◌≤◌, ◌≡◌, Bool, Option, none, some, if◌then◌else◌, leb, ◌==◌, ◌||◌,
}
use idena_indexer_api.Prelude.Text.{Text, text_eq}

-- cache.DefaultExpiration, or a duration; the duration 0 is DefaultExpiration.
pub data Lifetime : Type 0 where
  default_expiration : Lifetime
  lasting : ℕ → Lifetime

-- The duration that a lifetime stands for, given the default of the cache.
abbrev pub span : ℕ → Lifetime → ℕ
span d default_expiration = d
span d (lasting zero) = d
span d (lasting (suc n)) = suc n

-- Whether an item of a time that lasts so long has not expired at `now`: one that lasts 0 never does.
abbrev pub lives : ℕ → ℕ → ℕ → Bool
lives at lasts now = lasts == 0 || leb now (at + lasts)

abbrev pub visible {ℓ} : {V : Type ℓ} → ℕ → ℕ → ℕ → V → Option V
visible at lasts now v = if lives at lasts now then some v else none

pub record GoCache (V : Type 0) : Type 1 where
  pub Store : Type 0
  -- cache.New, by its default expiration; with 0 its items never expire
  pub new : ℕ → Store
  pub default_span : Store → ℕ
  pub get : Store → ℕ → Text → Option V
  pub set : Store → ℕ → Text → V → Lifetime → Store
  -- Add fails if the key has an item that has not expired.
  pub add : Store → ℕ → Text → V → Lifetime → Option Store
  pub delete_expired : Store → ℕ → Store
  pub item_count : Store → ℕ
  pub flush : Store → Store
  pub get-new : (d now : ℕ) (k : Text) → get (new d) now k ≡ none
  pub default_span-new : (d : ℕ) → default_span (new d) ≡ d
  pub item_count-new : (d : ℕ) → item_count (new d) ≡ 0
  pub get-set :
      (s : Store) (now : ℕ) (k : Text) (v : V) (l : Lifetime) (later : ℕ) (j : Text)
      → get (set s now k v l) later j
        ≡ (if text_eq k j then visible now (span (default_span s) l) later v else get s later j)
  pub default_span-set :
      (s : Store) (now : ℕ) (k : Text) (v : V) (l : Lifetime)
      → default_span (set s now k v l) ≡ default_span s
  pub item_count-set :
      (s : Store) (now : ℕ) (k : Text) (v : V) (l : Lifetime)
      → item_count (set s now k v l) ≤ suc (item_count s)
  pub add_fresh :
      (s : Store) (now : ℕ) (k : Text) (v : V) (l : Lifetime)
      → get s now k ≡ none
      → add s now k v l ≡ some (set s now k v l)
  pub add_present :
      (s : Store) (now : ℕ) (k : Text) (v w : V) (l : Lifetime)
      → get s now k ≡ some w
      → add s now k v l ≡ none
  pub get-delete_expired :
      (s : Store) (now later : ℕ) (k : Text)
      → now ≤ later
      → get (delete_expired s now) later k ≡ get s later k
  pub default_span-delete_expired :
      (s : Store) (now : ℕ) → default_span (delete_expired s now) ≡ default_span s
  pub item_count-delete_expired :
      (s : Store) (now : ℕ) → item_count (delete_expired s now) ≤ item_count s
  pub get-flush : (s : Store) (now : ℕ) (k : Text) → get (flush s) now k ≡ none
  pub default_span-flush : (s : Store) → default_span (flush s) ≡ default_span s
  pub item_count-flush : (s : Store) → item_count (flush s) ≡ 0

-- IncrementInt: it fails on a missing key, and keeps the deadline of the item.
pub record GoCounters : Type 1 where
  pub cache : GoCache ℕ
  pub open cache use {Store, get, add, set, default_span}
  pub increment : Store → ℕ → Text → Option (ℕ × Store)
  pub increment_missing :
      (s : Store) (now : ℕ) (k : Text) → get s now k ≡ none → increment s now k ≡ none
  pub increment_present :
      (s : Store) (now : ℕ) (k : Text) (n : ℕ)
      → get s now k ≡ some n
      → (s' : Store) × (increment s now k ≡ some (suc n, s'))
        × ((later : ℕ) (j : Text)
            → get s' later j
              ≡ (if text_eq k j then Option.map suc (get s later j) else get s later j))
        × (default_span s' ≡ default_span s)
