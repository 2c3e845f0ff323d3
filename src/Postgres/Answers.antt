-- ===== src/Postgres/Answers.antt =====
-- epochIdentityAnswers of app/db/postgres/epoch_identity.go: the answers of an identity in order, the
-- short ones without what was not answered at the end.
pub mod Trimming
mod Examples
use idena_indexer_api.Prelude.{
  ℕ, zero, suc, ◌-◌, Bool, not, true, false, ◌&&◌, Option, none, some, List, [], ◌∷◌, if◌then◌else◌,
  ltb, length, take, get_elem?,
}
use idena_indexer_api.Prelude.Text.{Text, codes, text_eq}
use idena_indexer_api.Prelude.Result.{Result, ok, err, ◌>>=◌}
use idena_indexer_api.Postgres.Paging.{PageError, scan_failed}
use idena_indexer_api.Monitoring.Sorting.{sort_by}

-- The fields of types.Answer that the code reads, and the others in one.
pub record Answer (Rest : Type 0) : Type 0 where
  pub resp_answer : Text
  pub index : ℕ
  pub considered : Bool
  pub rest : Rest

module _ {Rest : Type 0} where
  unfoldable pub less : Answer Rest → Answer Rest → Bool
  less a b = ltb a.index b.index

  unfoldable pub is_dropped : Answer Rest → Bool
  is_dropped a = not a.considered && text_eq a.resp_answer (codes "None")

  -- The test of the loop, on res[len(res)-1].
  unfoldable pub drops_last : List (Answer Rest) → Bool
  unfolding is_dropped
  drops_last res = elim (get_elem? res (length res - 1)) [
    | none ↦ false
    | some last ↦ is_dropped last
  ]

  -- The loop; each round cuts the last answer.
  unfoldable pub trim : ℕ → List (Answer Rest) → List (Answer Rest)
  unfolding drops_last
  trim zero res = res
  trim (suc rounds) res = elim (drops_last res) [
    | true ↦ trim rounds (take (length res - 1) res)
    | false ↦ res
  ]

  -- readAnswers: `none` is a row that Scan fails on.
  unfoldable pub read_answers : List (Option (Answer Rest)) → Result PageError (List (Answer Rest))
  read_answers [] = ok []
  read_answers (none ∷ rows) = err scan_failed
  read_answers (some a ∷ rows) = do rest ← read_answers rows; ok (a ∷ rest)

  -- There are as many rounds as answers.
  unfoldable pub epoch_identity_answers :
      Result PageError (List (Option (Answer Rest))) → Bool → Result PageError (List (Answer Rest))
  unfolding read_answers sort_by less trim
  epoch_identity_answers query is_short = do
    rows ← query
    res ← read_answers rows
    let sorted = sort_by less res
    ok (if is_short then trim (length sorted) sorted else sorted)
