-- ===== src/Postgres/Search.antt =====
-- Search of app/db/postgres/postgres.go, and what Search of app/api/service.go adds.
pub mod Texts
use idena_indexer_api.Prelude.{
  Bool, true, false, Option, none, some, List, [], ◌∷◌, ◌++◌, if◌then◌else◌,
}
use idena_indexer_api.Prelude.Text.{Text, codes}
use idena_indexer_api.Prelude.Decimal.{parse_uint}
use idena_indexer_api.Prelude.Result.{Result, ok, err, ◌>>=◌}

-- types.Entity
pub record Entity : Type 0 where
  pub name_old : Text
  pub value_old : Text
  pub ref_old : Text
  pub name : Text
  pub value : Text
  pub ref : Text

-- An entity of a value, whose old fields say the same.
abbrev pub entity : Text → Text → Entity
entity kind value =
    let path = codes "/api/" ++ kind ++ b'/' ∷ value in
    record {
      name_old = kind;
      value_old = value;
      ref_old = path;
      name = kind;
      value = value;
      ref = path;
    }

-- strconv.ParseUint succeeds.
unfoldable pub is_number : Text → Bool
unfolding parse_uint
is_number value = elim (parse_uint value) [ none ↦ false | some n ↦ true ]

module _ {E : Type 0} where
  -- One test: `exists` runs a script on the value, and may fail.
  unfoldable pub add_found :
      (Text → Result E Bool) → Text → List Entity → List Entity → Result E (List Entity)
  add_found exists script found res =
      exists script >>= λ there. ok (if there then res ++ found else res)

  -- The test of a block: by its hash, and of a number that is no hash by its height.
  unfoldable pub add_block : (Text → Result E Bool) → Text → List Entity → Result E (List Entity)
  unfolding add_found is_number
  add_block exists value res = exists (codes "isBlockHash.sql") >>= λ there.
      if there
      then ok (res ++ entity (codes "Block") value ∷ [])
      else if is_number value
      then add_found exists (codes "isBlockHeight.sql") (entity (codes "Block") value ∷ []) res
      else ok res

  unfoldable pub search : (Text → Result E Bool) → Text → Result E (List Entity)
  unfolding add_found add_block is_number
  search exists value = do
    res1 ←
        add_found exists (codes "isAddress.sql")
          (entity (codes "Identity") value ∷ entity (codes "Address") value ∷ []) []
    res2 ← add_block exists value res1
    res3 ←
        if is_number value
        then add_found exists (codes "isEpoch.sql") (entity (codes "Epoch") value ∷ []) res2
        else ok res2
    res4 ← add_found exists (codes "isFlip.sql") (entity (codes "Flip") value ∷ []) res3
    add_found exists (codes "isTx.sql") (entity (codes "Transaction") value ∷ []) res4

  -- Search of the service: `in_mem_pool` tells whether GetTransaction returns a transaction, whatever
  -- its error.
  unfoldable pub search_with_mem_pool :
      Result E (List Entity) → Bool → Text → Result E (List Entity)
  search_with_mem_pool from_db in_mem_pool value = from_db >>= λ res.
      ok (if in_mem_pool then res ++ entity (codes "Transaction") value ∷ [] else res)
