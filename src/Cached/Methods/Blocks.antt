-- ===== src/Cached/Methods/Blocks.antt =====
-- The methods of app/db/cached/accessor.go on blocks and flips.
use idena_indexer_api.Prelude.{ℕ, Bool, Option, [], ◌∷◌}
use idena_indexer_api.Prelude.Text.{Text, codes}
use idena_indexer_api.Cached.Key.{boolean, number, text}
use idena_indexer_api.Cached.Entry.{Entry, entry, pointer_to}

pub data BlockCall : Type 0 where
  block_by_height : ℕ → BlockCall
  block_txs_count_by_height : ℕ → BlockCall
  block_txs_by_height : ℕ → ℕ → Option (ℕ × Text) → BlockCall
  block_by_hash : Text → BlockCall
  block_txs_count_by_hash : Text → BlockCall
  block_txs_by_hash : Text → ℕ → Option (ℕ × Text) → BlockCall
  block_coins_by_height : ℕ → BlockCall
  block_coins_by_hash : Text → BlockCall
  last_block : BlockCall
  flip : Text → BlockCall
  flip_content : Text → BlockCall
  flip_answers : Text → Bool → BlockCall
  flip_epoch_adjacent_flips : Text → BlockCall

unfoldable pub block_entry : BlockCall → Entry
block_entry (block_by_height height) =
    entry (codes "BlockByHeight") (number height ∷ []) (codes "BlockByHeight") (number height ∷ [])
block_entry (block_txs_count_by_height height) =
    entry (codes "BlockTxsCountByHeight") (number height ∷ []) (codes "BlockTxsCountByHeight")
      (number height ∷ [])
block_entry (block_txs_by_height height count continuation_token) =
    entry (codes "BlockTxsByHeight")
      (number height ∷ number count ∷ pointer_to continuation_token ∷ []) (codes "BlockTxsByHeight")
      (number height ∷ number count ∷ pointer_to continuation_token ∷ [])
block_entry (block_by_hash hash) =
    entry (codes "BlockByHash") (text hash ∷ []) (codes "BlockByHash") (text hash ∷ [])
block_entry (block_txs_count_by_hash hash) =
    entry (codes "BlockTxsCountByHash") (text hash ∷ []) (codes "BlockTxsCountByHash")
      (text hash ∷ [])
block_entry (block_txs_by_hash hash count continuation_token) =
    entry (codes "BlockTxsByHash") (text hash ∷ number count ∷ pointer_to continuation_token ∷ [])
      (codes "BlockTxsByHash") (text hash ∷ number count ∷ pointer_to continuation_token ∷ [])
block_entry (block_coins_by_height height) =
    entry (codes "BlockCoinsByHeight") (number height ∷ []) (codes "BlockCoinsByHeight")
      (number height ∷ [])
block_entry (block_coins_by_hash hash) =
    entry (codes "BlockCoinsByHash") (text hash ∷ []) (codes "BlockCoinsByHash") (text hash ∷ [])
block_entry last_block = entry (codes "LastBlock") [] (codes "LastBlock") []
block_entry (flip hash) = entry (codes "Flip") (text hash ∷ []) (codes "Flip") (text hash ∷ [])
block_entry (flip_content hash) =
    entry (codes "FlipContent") (text hash ∷ []) (codes "FlipContent") (text hash ∷ [])
block_entry (flip_answers hash is_short) =
    entry (codes "FlipAnswers") (text hash ∷ boolean is_short ∷ []) (codes "FlipAnswers")
      (text hash ∷ boolean is_short ∷ [])
block_entry (flip_epoch_adjacent_flips hash) =
    entry (codes "FlipEpochAdjacentFlips") (text hash ∷ []) (codes "FlipEpochAdjacentFlips")
      (text hash ∷ [])
