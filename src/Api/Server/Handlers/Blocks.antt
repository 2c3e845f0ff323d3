-- ===== src/Api/Server/Handlers/Blocks.antt =====
-- The handlers of app/api/server.go on blocks, flips and transactions.
use idena_indexer_api.Prelude.{true, false, [], ◌∷◌}
use idena_indexer_api.Api.Server.{
  number, count, continuation_token, text, flag, result, page, Handler, monitored, call, var,
  read_id, read_page,
}

abbrev pub block : Handler
block = monitored "block" λ s r.
    read_id r (λ hash. result (call "BlockByHash" (text hash ∷ [])))
      (λ height. result (call "BlockByHeight" (number height ∷ [])))

abbrev pub block_txs_count : Handler
block_txs_count = monitored "blockTxsCount" λ s r.
    read_id r (λ hash. result (call "BlockTxsCountByHash" (text hash ∷ [])))
      (λ height. result (call "BlockTxsCountByHeight" (number height ∷ [])))

abbrev pub block_txs : Handler
block_txs = monitored "blockTxs" λ s r. read_page r λ n t.
    read_id r
      (λ hash. page (call "BlockTxsByHash" (text hash ∷ count n ∷ continuation_token t ∷ [])))
      (λ height.
        page (call "BlockTxsByHeight" (number height ∷ count n ∷ continuation_token t ∷ [])))

abbrev pub block_coins : Handler
block_coins = monitored "blockCoins" λ s r.
    read_id r (λ hash. result (call "BlockCoinsByHash" (text hash ∷ [])))
      (λ height. result (call "BlockCoinsByHeight" (number height ∷ [])))

abbrev pub last_block : Handler
last_block = monitored "lastBlock" λ s r. result (call "LastBlock" [])

abbrev pub flip : Handler
flip = monitored "flip" λ s r. result (call "Flip" (text (var r "hash") ∷ []))

abbrev pub flip_content : Handler
flip_content = monitored "flipContent" λ s r. result (call "FlipContent" (text (var r "hash") ∷ []))

abbrev pub flip_short_answers : Handler
flip_short_answers =
    monitored "flipShortAnswers"
      λ s r. result (call "FlipAnswers" (text (var r "hash") ∷ flag true ∷ []))

abbrev pub flip_long_answers : Handler
flip_long_answers =
    monitored "flipLongAnswers"
      λ s r. result (call "FlipAnswers" (text (var r "hash") ∷ flag false ∷ []))

abbrev pub flip_epoch_adjacent_flips : Handler
flip_epoch_adjacent_flips =
    monitored "flipEpochAdjacentFlips"
      λ s r. result (call "FlipEpochAdjacentFlips" (text (var r "hash") ∷ []))

abbrev pub transaction : Handler
transaction = monitored "transaction" λ s r. result (call "Transaction" (text (var r "hash") ∷ []))

abbrev pub transaction_raw : Handler
transaction_raw =
    monitored "transactionRaw" λ s r. result (call "TransactionRaw" (text (var r "hash") ∷ []))

abbrev pub transaction_events : Handler
transaction_events = monitored "transactionEvents" λ s r. read_page r λ n t.
    page (call "TransactionEvents" (text (var r "hash") ∷ count n ∷ continuation_token t ∷ []))
