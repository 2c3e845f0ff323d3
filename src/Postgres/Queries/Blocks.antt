-- ===== src/Postgres/Queries/Blocks.antt =====
-- The scripts that methods of app/db/postgres run: those in block.go, flip.go.
use idena_indexer_api.Prelude.{List, [], ◌∷◌}
use idena_indexer_api.Prelude.Text.{codes}
use idena_indexer_api.Postgres.Queries.{Query, query, flag, limit, string, token_part, uint}
use idena_indexer_api.Cached.Methods.Blocks.{
  BlockCall, block_by_height, block_txs_count_by_height, block_txs_by_height, block_by_hash,
  block_txs_count_by_hash, block_txs_by_hash, block_coins_by_height, block_coins_by_hash,
  last_block, flip, flip_content, flip_answers, flip_epoch_adjacent_flips,
}

unfoldable pub block_queries : BlockCall → List Query
block_queries (block_by_height height) = query (codes "blockByHeight.sql") (uint height ∷ []) ∷ []
block_queries (block_txs_count_by_height height) =
    query (codes "blockTxsCountByHeight.sql") (uint height ∷ []) ∷ []
block_queries (block_txs_by_height height count continuation_token) =
    query (codes "blockTxsByHeight.sql")
      (uint height ∷ limit count ∷ token_part continuation_token ∷ [])
    ∷ []
block_queries (block_by_hash hash) = query (codes "blockByHash.sql") (string hash ∷ []) ∷ []
block_queries (block_txs_count_by_hash hash) =
    query (codes "blockTxsCountByHash.sql") (string hash ∷ []) ∷ []
block_queries (block_txs_by_hash hash count continuation_token) =
    query (codes "blockTxsByHash.sql")
      (string hash ∷ limit count ∷ token_part continuation_token ∷ [])
    ∷ []
block_queries (block_coins_by_height height) =
    query (codes "blockCoinsByHeight.sql") (uint height ∷ []) ∷ []
block_queries (block_coins_by_hash hash) =
    query (codes "blockCoinsByHash.sql") (string hash ∷ []) ∷ []
block_queries last_block = query (codes "lastBlock.sql") [] ∷ []
block_queries (flip hash) = query (codes "flip.sql") (string hash ∷ []) ∷ []
block_queries (flip_content hash) =
    query (codes "flipPics.sql") (string hash ∷ [])
    ∷ query (codes "flipPicOrders.sql") (string hash ∷ [])
    ∷ []
block_queries (flip_answers hash is_short) =
    query (codes "flipAnswers.sql") (string hash ∷ flag is_short ∷ []) ∷ []
block_queries (flip_epoch_adjacent_flips hash) =
    query (codes "flipEpochAdjacentFlips.sql") (string hash ∷ []) ∷ []
