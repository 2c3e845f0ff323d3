-- ===== src/Postgres/Keyed/Signed/Examples.antt =====
-- Tokens and pages with signed ids of app/db/postgres/common.go.
use idena_indexer_api.Prelude.{ℕ, ◌≡◌, refl, some, List, [], ◌∷◌, arith}
use idena_indexer_api.Prelude.Int.{ℤ, pos, negsuc}
use idena_indexer_api.Prelude.Text.{codes}
use idena_indexer_api.Prelude.Decimal.{parse_uint, itoa}
use idena_indexer_api.Prelude.Result.{ok}
use idena_indexer_api.Postgres.Keyed.Script.{run_keyed}
use idena_indexer_api.Postgres.Keyed.Signed.{
  parse_int_continuation_token, page2, updates_selects, updates_precedes, page2_lem,
}

signs_read : parse_int_continuation_token (some (codes "+12")) ≡ ok (some (pos 12))
unfolding parse_int_continuation_token parse_uint
signs_read = refl

-- Updates with falling ids, the last one negative.
abbrev updates : List (ℤ × ℕ)
updates = (pos 8, 10) ∷ (pos 3, 11) ∷ (negsuc 1, 12) ∷ []

page2_lem_example :
    page2 (run_keyed updates_selects updates) 1 (some (itoa (pos 3)))
    ≡ ok (11 ∷ [], some (itoa (negsuc 1)))
page2_lem_example =
    page2_lem updates 1 1 (omega arith) (omega arith) (omega arith)
      (unfold updates_precedes in ((refl, (refl, tt)), ((refl, tt), (tt, tt)))) (omega arith)
