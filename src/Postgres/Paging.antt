-- ===== src/Postgres/Paging.antt =====
-- The paging of app/db/postgres/common.go: a page is asked for with one row more than it shows, and
-- the id of that row is the continuation token.
pub mod Script
pub mod Walk
pub mod Broken
use idena_indexer_api.Prelude.{
  ℕ, zero, suc, ◌+◌, ◌-◌, ◌%◌, Bool, true, false, ◌&&◌, Option, none, some, List, [], ◌∷◌,
  if◌then◌else◌, leb, ltb, length, take,
}
use idena_indexer_api.Prelude.Int.{ℤ, pos, to_i64, ◌==ℤ◌}
use idena_indexer_api.Prelude.Text.{Text}
use idena_indexer_api.Prelude.Decimal.{format_uint, parse_uint, u64_mod}
use idena_indexer_api.Prelude.Result.{Result, ok, err, ◌>>=◌}

pub data PageError : Type 0 where
  invalid_continuation_token : PageError
  query_failed : PageError
  scan_failed : PageError
  invalid_amount : PageError

-- What the driver comes to when Next is called: a row that Scan fails on, a row that it reads as an id and
-- an item, or a connection that failed, for which Next returns false as it does behind the last row.
pub data Row (A : Type 0) : Type 0 where
  unreadable : Row A
  failure : Row A
  row : ℕ → A → Row A

-- The token may be nil; "" is not a number.
unfoldable pub parse_uint_continuation_token : Option Text → Result PageError (Option ℕ)
parse_uint_continuation_token none = ok none
parse_uint_continuation_token (some token) = elim (parse_uint token) [
  | none ↦ err invalid_continuation_token
  | some n ↦ ok (some n)
]

module _ {A : Type 0} where
  -- The loop of the readers: the items, and the id that was scanned last. No reader asks rows.Err()
  -- behind its loop.
  unfoldable pub read_rows_from : ℕ → List (Row A) → Result PageError (List A × ℕ)
  read_rows_from id [] = ok ([], id)
  read_rows_from id (unreadable ∷ rows) = err scan_failed
  read_rows_from id (failure ∷ rows) = ok ([], id)
  read_rows_from id (row next item ∷ rows) = do
    (items, last) ← read_rows_from next rows
    ok (item ∷ items, last)

  unfoldable pub read_rows : List (Row A) → Result PageError (List A × ℕ)
  unfolding read_rows_from
  read_rows rows = read_rows_from 0 rows

  unfoldable pub get_res_with_continuation_token : Text → ℕ → List A → List A × Option Text
  unfolding to_i64
  get_res_with_continuation_token last_token count slice =
      if leb 1 (length slice) && pos (length slice) ==ℤ to_i64 ((count + 1) % u64_mod)
      then (take (length slice - 1) slice, some last_token)
      else (slice, none)

  -- `query` runs the script with the two last arguments that page appends.
  unfoldable pub page :
      (ℕ → Option ℕ → Result PageError (List (Row A)))
      → ℕ
      → Option Text
      → Result PageError (List A × Option Text)
  unfolding parse_uint_continuation_token read_rows get_res_with_continuation_token
  page query count continuation_token = do
    continuation_id ← parse_uint_continuation_token continuation_token
    rows ← query ((count + 1) % u64_mod) continuation_id
    (res, next_id) ← read_rows rows
    ok (get_res_with_continuation_token (format_uint next_id) count res)
