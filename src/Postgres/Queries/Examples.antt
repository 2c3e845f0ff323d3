-- ===== src/Postgres/Queries/Examples.antt =====
-- The scripts of a call.
use idena_indexer_api.Prelude.{◌≡◌, refl, true, none, some, [], ◌∷◌}
use idena_indexer_api.Prelude.Text.{codes, text_eq}
use idena_indexer_api.Prelude.Decimal.{parse_uint, digits_value, digit_step}
use idena_indexer_api.Postgres.Paging.{parse_uint_continuation_token}
use idena_indexer_api.Cached.Methods.{blocks_call}
use idena_indexer_api.Cached.Methods.Blocks.{block_txs_by_hash, flip_content}
use idena_indexer_api.Postgres.Queries.{query, string, limit, token_part}
use idena_indexer_api.Postgres.Queries.Calls.{queries_of}
use idena_indexer_api.Postgres.Queries.Fit.{all_fit, queries_of-fit, get_query}
use idena_indexer_api.Postgres.Queries.Uncached.{
  uncached_queries, oracle_voting_contracts, address_contract_tx_balance_updates,
}
use idena_indexer_api.Postgres.Queries.Uncached.Fit.{uncached_queries-fit}

block_txs_queries :
    queries_of (blocks_call (block_txs_by_hash (codes "0xa") 30 none))
    ≡ query (codes "blockTxsByHash.sql") (string (codes "0xa") ∷ limit 30 ∷ token_part none ∷ [])
      ∷ []
unfolding queries_of
block_txs_queries = refl

other_script : get_query (codes "blockTxsByhash.sql") ≡ none
unfolding get_query text_eq
other_script = refl

queries_of-fit_example : all_fit (queries_of (blocks_call (flip_content (codes "bafy")))) ≡ true
queries_of-fit_example = queries_of-fit (blocks_call (flip_content (codes "bafy")))

uncached_queries-fit_example :
    all_fit (
      uncached_queries
        (oracle_voting_contracts [] (codes "0xa") (codes "Open" ∷ []) true none 20 none))
    ≡ true
uncached_queries-fit_example =
    uncached_queries-fit
      (oracle_voting_contracts [] (codes "0xa") (codes "Open" ∷ []) true none 20 none)

-- A token that is no number runs no script.
no_updates :
    uncached_queries
      (address_contract_tx_balance_updates (codes "0xa") (codes "0xb") 20 (some (codes "x")))
    ≡ []
unfolding uncached_queries parse_uint_continuation_token parse_uint digits_value digit_step
no_updates = refl
