-- ===== src/Monitoring/Sorting.antt =====
-- sort.Slice: the sort of the standard library, by a test of its caller.
use idena_indexer_api.Prelude.{◌≡◌, refl, suc, Bool, List, [], ◌∷◌, arith, if◌then◌else◌, length}

module _ {A : Type 0} (less : A → A → Bool) where
  unfoldable pub insert_by : A → List A → List A
  insert_by a [] = a ∷ []
  insert_by a (b ∷ bs) = let rest = b ∷ insert_by a bs in if less a b then a ∷ b ∷ bs else rest

  unfoldable pub sort_by : List A → List A
  unfolding insert_by
  sort_by [] = []
  sort_by (a ∷ rest) = insert_by a (sort_by rest)

  length-insert_by : (a : A) (bs : List A) → length (insert_by a bs) ≡ suc (length bs)
  unfolding insert_by
  length-insert_by a [] = refl
  length-insert_by a (b ∷ bs) = ground (arith, length-insert_by a bs)

  pub length-sort_by : (xs : List A) → length (sort_by xs) ≡ length xs
  unfolding sort_by
  length-sort_by [] = refl
  length-sort_by (a ∷ rest) = omega (arith, length-insert_by a (sort_by rest), length-sort_by rest)
