-- ===== src/Cached/Methods/Examples.antt =====
-- The keys of some calls of app/db/cached/accessor.go.
use idena_indexer_api.Prelude.Decimal.{format_digits, format_uint}
use idena_indexer_api.Prelude.{ℕ, ◌≡◌, refl, some, List, [], ◌∷◌}
use idena_indexer_api.Prelude.Text.{Text, codes}
use idena_indexer_api.Cached.Key.{Arg, number, text, render_all}
use idena_indexer_api.Cached.Key.Separation.{cache_key-render_all, all_words}
use idena_indexer_api.Cached.Accessor.{CachedValue}
use idena_indexer_api.Cached.Methods.Epochs.{epoch_flips}
use idena_indexer_api.Cached.Methods.{Call, epochs_call}

abbrev args : List Arg
args = number 41 ∷ text (codes "0xa") ∷ []

cache_key-render_all_example : render_all args ≡ render_all (number 41 ∷ text (codes "0xa") ∷ [])
unfolding all_words render_all format_uint format_digits
cache_key-render_all_example =
    cache_key-render_all args (number 41 ∷ text (codes "0xa") ∷ []) refl refl refl

-- Two pages of the flips of an epoch whose tokens differ and stand at one address.
abbrev page : Text → Call
page token = epochs_call (epoch_flips 90 30 (some (4096, token)))

abbrev Value : Type 0
Value = CachedValue ℕ ℕ
