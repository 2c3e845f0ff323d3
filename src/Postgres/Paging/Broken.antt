-- ===== src/Postgres/Paging/Broken.antt =====
-- Connections that fail while app/db/postgres/common.go reads rows: Next of database/sql then returns
-- false as it does behind the last row, and the error is what Err returns, which no reader of pages calls.
use idena_indexer_api.Prelude.{
  ℕ, zero, suc, ◌+◌, ◌%◌, ◌^◌, ◌≤◌, ◌<◌, ◌≡◌, refl, ap, ◌∙◌, Option, none, List, [], ◌∷◌, map,
  arith, take, length-map, length-take,
}
use idena_indexer_api.Prelude.Text.{Text}
use idena_indexer_api.Prelude.Decimal.{format_uint, u64_mod}
use idena_indexer_api.Prelude.Result.{Result, ok}
use idena_indexer_api.Postgres.Paging.{
  PageError, Row, failure, read_rows_from, read_rows, get_res_with_continuation_token, page,
}
use idena_indexer_api.Postgres.Paging.Script.{from_id, to_row, items, get_res_short, Selects}

module _ {A : Type 0} where
  -- An answer whose connection fails behind the first `k` rows, or that ends before that.
  pub fails_behind : ℕ → List (Row A) → List (Row A)
  fails_behind zero rows = failure ∷ []
  fails_behind (suc k) [] = []
  fails_behind (suc k) (r ∷ rows) = r ∷ fails_behind k rows

  -- The script over a table, with a connection that fails behind `k` rows.
  pub run_failing : ℕ → List (ℕ × A) → ℕ → Option ℕ → Result PageError (List (Row A))
  unfolding fails_behind
  run_failing k table limit id = ok (fails_behind k (map to_row (take limit (from_id id table))))

  read_failing :
      (k n id : ℕ) (t : List (ℕ × A))
      → k ≤ n
      → (last : ℕ) × (read_rows_from id (fails_behind k (map to_row (take n t)))
          ≡ ok (items (take k t), last))
  unfolding read_rows_from fails_behind
  read_failing zero n id t h = (id, refl)
  read_failing (suc k) zero id t h = absurd (omega arith)
  read_failing (suc k) (suc n) id [] h = (id, refl)
  read_failing (suc k) (suc n) id (e ∷ t) h =
      let (last, reads) = read_failing k n e.0 t (omega arith) in (last, rw reads refl)

  page_rows :
      (table rest : List (ℕ × A)) (token : Option Text) (n k last : ℕ) (xs : List A)
      → n + 1 < 2 ^ 63
      → Selects table token rest
      → read_rows (fails_behind k (map to_row (take (suc n) rest))) ≡ ok (xs, last)
      → page (run_failing k table) n token
        ≡ ok (get_res_with_continuation_token (format_uint last) n xs)
  page_rows table rest token n k last xs small s rows =
      let limit : (n + 1) % u64_mod ≡ suc n = omega arith in
      unfold page run_failing in rw (s.parses, limit, s.selects, rows) refl

  -- If the connection fails behind `k` rows of a page of `n`, k ≤ n, n < 2 ^ 63 - 1, then page returns
  -- those rows as a success with no token, whatever rows of the table stand behind them.
  pub page-run_failing :
      (table rest : List (ℕ × A)) (token : Option Text) (n k : ℕ)
      → n + 1 < 2 ^ 63
      → k ≤ n
      → Selects table token rest
      → page (run_failing k table) n token ≡ ok (items (take k rest), none)
  page-run_failing table rest token n k small h s =
      let (last, reads) = read_failing k (suc n) 0 rest (omega arith) in
      page_rows table rest token n k last (items (take k rest)) small s (unfold read_rows in reads)
      ∙ ap ok (
          get_res_short (format_uint last) n (items (take k rest)) small
            (omega (arith, length-map (take k rest) (λ (e : ℕ × A). e.1), length-take k rest)))
