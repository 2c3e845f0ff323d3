-- ===== src/Postgres/Keyed.antt =====
-- The readers of app/db/postgres that page by a key of two parts: Pools and PoolDelegators of pools.go,
-- EpochDelegateeTotalRewards of epoch.go, EpochDelegateeRewards of epoch_delegatee.go and TokenHolders of
-- tokens.go. They have the same steps over different tokens, rows and scripts.
pub mod Script
pub mod Page
pub mod Amounts
pub mod Pools
pub mod Epochs
pub mod Signed
mod Examples
use idena_indexer_api.Prelude.{ℕ, ◌+◌, ◌%◌, Option, none, some, List, [], ◌∷◌, ◌++◌}
use idena_indexer_api.Prelude.Text.{Text}
use idena_indexer_api.Prelude.Decimal.{format_uint, u64_mod}
use idena_indexer_api.Prelude.Result.{Result, ok, err, ◌>>=◌}
use idena_indexer_api.Postgres.Paging.{
  PageError, invalid_continuation_token, scan_failed, parse_uint_continuation_token,
  get_res_with_continuation_token,
}
use idena_indexer_api.Postgres.Tokens.{split_dash}

module _ {Key A : Type 0} where
  -- The loop over the rows: `none` is a row that Scan fails on; the key is that of the last row.
  unfoldable pub read_keyed_from :
      Option Key → List (Option (Key × A)) → Result PageError (List A × Option Key)
  read_keyed_from key [] = ok ([], key)
  read_keyed_from key (none ∷ rows) = err scan_failed
  read_keyed_from key (some (next, item) ∷ rows) = do
    (items, last) ← read_keyed_from (some next) rows
    ok (item ∷ items, last)

  -- The lines behind the loop, with the test that getResWithContinuationToken makes too.
  unfoldable pub cut_keyed : (Key → Text) → ℕ → List A → Option Key → List A × Option Text
  unfolding get_res_with_continuation_token
  cut_keyed token_of count res none = (res, none)
  cut_keyed token_of count res (some key) = get_res_with_continuation_token (token_of key) count res

-- `Args` is what the token becomes as arguments of the script, which `query` runs.
unfoldable pub keyed_page :
    {Key Args A : Type 0}
    → (Option Text → Result PageError Args)
    → (Key → Text)
    → (ℕ → Args → Result PageError (List (Option (Key × A))))
    → ℕ
    → Option Text
    → Result PageError (List A × Option Text)
unfolding read_keyed_from cut_keyed
keyed_page parse token_of query count continuation_token = do
  args ← parse continuation_token
  rows ← query ((count + 1) % u64_mod) args
  (res, last) ← read_keyed_from none rows
  ok (cut_keyed token_of count res last)

-- parseToken of Pools and of PoolDelegators
abbrev pub of_number_parts : List Text → Result PageError (Option ℕ × Option ℕ)
of_number_parts [] = err invalid_continuation_token
of_number_parts (id ∷ []) = err invalid_continuation_token
of_number_parts (id ∷ second ∷ []) = parse_uint_continuation_token (some id) >>= λ n.
    parse_uint_continuation_token (some second) >>= λ m. ok (n, m)
of_number_parts (id ∷ second ∷ more ∷ rest) = err invalid_continuation_token

unfoldable pub parse_numbers : Option Text → Result PageError (Option ℕ × Option ℕ)
unfolding split_dash parse_uint_continuation_token
parse_numbers none = ok (none, none)
parse_numbers (some t) = of_number_parts (split_dash t)

unfoldable pub numbers_token : ℕ × ℕ → Text
numbers_token (id, second) = format_uint id ++ b'-' ∷ format_uint second
