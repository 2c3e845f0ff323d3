-- ===== src/Postgres/Search/Texts.antt =====
-- What Search of app/db/postgres/postgres.go asks for a text that is not a number.
use idena_indexer_api.Prelude.{◌≡◌, refl, Bool, false}
use idena_indexer_api.Prelude.Text.{Text, codes}
use idena_indexer_api.Prelude.Result.{Result}
use idena_indexer_api.Postgres.Search.{is_number, add_found, add_block, search}

module _ {E : Type 0} where
  -- For a value that is no number the result depends on neither the script of heights nor that of
  -- epochs: two databases that answer the other four scripts alike find the same, or fail alike.
  pub search_of_text :
      (exists exists' : Text → Result E Bool) (value : Text)
      → is_number value ≡ false
      → exists (codes "isAddress.sql") ≡ exists' (codes "isAddress.sql")
      → exists (codes "isBlockHash.sql") ≡ exists' (codes "isBlockHash.sql")
      → exists (codes "isFlip.sql") ≡ exists' (codes "isFlip.sql")
      → exists (codes "isTx.sql") ≡ exists' (codes "isTx.sql")
      → search exists value ≡ search exists' value
  unfolding search add_found add_block
  search_of_text exists exists' value text address hash flip tx =
      rw (text, address, hash, flip, tx) refl
