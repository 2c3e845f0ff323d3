-- ===== src/Prelude/Assoc.antt =====
-- Go maps keyed by strings, as association lists.
use mathlib.Core.Path.{◌≡◌, refl}
use mathlib.Core.Option.{Option, none, some}
use mathlib.Core.List.{List, [], ◌∷◌}
use native.Mathlib.Omega.{arith}
use idena_indexer_api.Prelude.Tests.{if◌then◌else◌}
use idena_indexer_api.Prelude.Text.{Text, text_eq, text_eq_iff}

module _ {ℓ} {V : Type ℓ} where
  unfoldable pub find : List (Text × V) → Text → Option V
  find [] k = none
  find ((j, v) ∷ m) k = if text_eq j k then some v else find m k

  unfoldable pub insert : List (Text × V) → Text → V → List (Text × V)
  insert [] k v = (k, v) ∷ []
  insert ((j, w) ∷ m) k v = if text_eq j k then (k, v) ∷ m else (j, w) ∷ insert m k v

  pub find-insert :
      (m : List (Text × V)) (k : Text) (v : V) (j : Text)
      → find (insert m k v) j ≡ (if text_eq k j then some v else find m j)
  unfolding find insert
  find-insert [] k v j = refl
  find-insert ((i, w) ∷ m) k v j =
      ground (arith, text_eq_iff i k, text_eq_iff i j, text_eq_iff k j, find-insert m k v j)
