-- ===== src/Postgres/Answers/Examples.antt =====
-- The short answers of an identity in app/db/postgres/epoch_identity.go on one list of rows.
use idena_indexer_api.Prelude.{ℕ, ◌≡◌, refl, Bool, true, false, some, List, [], ◌∷◌, map}
use mathlib.Core.List.{Perm}
use idena_indexer_api.Prelude.Text.{Text, codes, text_eq}
use idena_indexer_api.Prelude.Result.{ok}
use idena_indexer_api.Postgres.Answers.{Answer, epoch_identity_answers}
use idena_indexer_api.Postgres.Answers.Trimming.{IsOrdered, Trims, epoch_identity_answers-short}

abbrev answer : Text → ℕ → Bool → Answer ℕ
answer a i c = record { resp_answer = a; index = i; considered = c; rest = 0 }

-- The last two answers are unanswered; so is that with the index 1, which stays.
abbrev answers : List (Answer ℕ)
answers =
    answer (codes "None") 3 false
    ∷ answer (codes "Left") 2 true
    ∷ answer (codes "None") 1 false
    ∷ answer (codes "None") 4 false
    ∷ []

answers_trimmed :
    epoch_identity_answers (ok (map (λ a. some a) answers)) true
    ≡ ok (answer (codes "None") 1 false ∷ answer (codes "Left") 2 true ∷ [])
unfolding epoch_identity_answers text_eq
answers_trimmed = refl

epoch_identity_answers-short_example :
    (sorted : List (Answer ℕ)) × (res : List (Answer ℕ)) × (epoch_identity_answers
        (ok (map (λ a. some a) answers))
        true
      ≡ ok res)
    × Perm sorted answers
    × IsOrdered sorted
    × Trims sorted res
epoch_identity_answers-short_example = epoch_identity_answers-short answers
