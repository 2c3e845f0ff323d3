-- ===== src/Indexer/Examples.antt =====
-- Some answers of the indexer.
use idena_indexer_api.Prelude.{◌≡◌, refl, none, some}
use idena_indexer_api.Prelude.Text.{codes}
use idena_indexer_api.Prelude.Decimal.{itoa, format_digits}
use idena_indexer_api.Prelude.Int.{to_i64}
use idena_indexer_api.Indexer.{page_query}

page_query_plain :
    page_query (codes "api/Validators") 100 (some (codes "t"))
    ≡ codes "api/Validators?limit=100&continuationToken=t"
unfolding page_query itoa to_i64 format_digits
page_query_plain = refl

-- The largest uint64 is sent as -1.
page_query_wraps :
    page_query (codes "api/Validators") 18446744073709551615 none ≡ codes "api/Validators?limit=-1"
unfolding page_query itoa to_i64 format_digits
page_query_wraps = refl
