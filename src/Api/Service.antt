-- ===== src/Api/Service.antt =====
-- app/api/service.go: what the service joins from the database, the indexer and the change log.
pub mod Pages
pub mod Pools
pub mod Links
mod Examples
use idena_indexer_api.Prelude.{
  ℕ, ◌+◌, ◌-◌, ◌%◌, Bool, true, false, ◌==◌, Option, none, some, List, [], ◌∷◌, ◌++◌, map,
  if◌then◌else◌, length,
}
use idena_indexer_api.Prelude.Int.{ℤ, pos, to_i64, ◌==ℤ◌}
use idena_indexer_api.Prelude.Text.{Text}
use idena_indexer_api.Prelude.Result.{Result, ok, err, ◌>>=◌}
use idena_indexer_api.Prelude.Page.{Page}
use idena_indexer_api.Service.Contracts.{is_nil, fill_page}

-- The loop over the mem pool transactions, which stops at `int(count)` of them.
unfoldable pub take_txs : {A : Type 0} → List A → List A → ℕ → List A
unfolding to_i64
take_txs res [] count = res
take_txs res (tx ∷ txs) count =
    let next = res ++ tx ∷ [] in
    let rest = take_txs next txs count in if pos (length next) ==ℤ to_i64 count then next else rest

-- IdentityTxs: `mem_pool` is GetAddressTransactions, whose error is dropped. The rest of the page comes
-- from the database as in the contracts service.
unfoldable pub identity_txs :
    {E A : Type 0} → (ℤ → List A) → (ℕ → Option Text → Page E A) → ℕ → Option Text → Page E A
unfolding take_txs fill_page to_i64
identity_txs mem_pool from_db count continuation_token =
    fill_page
      (if is_nil continuation_token then take_txs [] (mem_pool (to_i64 count)) count else []) count
      continuation_token from_db

-- An upgrade that was activated, with the version that it has or not, and a link.
pub record ActivatedUpgrade : Type 0 where
  pub upgrade : Option ℕ
  pub url : Text

-- Upgrades: each with a version gets the link of the change log.
unfoldable pub with_url : (ℕ → Text) → ActivatedUpgrade → ActivatedUpgrade
with_url url u = elim u.upgrade [ none ↦ u | some v ↦ record u { url = url v } ]

unfoldable pub upgrades :
    {E : Type 0}
    → (ℕ → Text)
    → Result E (List ActivatedUpgrade × Option Text)
    → Result E (List ActivatedUpgrade × Option Text)
unfolding with_url
upgrades url from_db = from_db >>= λ page. ok (map (with_url url) page.0, page.1)

-- An answer, an error, or the panic of a nil pointer.
pub data Answer (E A : Type 0) : Type 0 where
  returned : A → Answer E A
  failed : E → Answer E A
  panicked : Answer E A

-- types.Pool, the fields that are set here, and the others as one
pub record Pool (Rest Stake : Type 0) : Type 0 where
  pub rest : Rest
  pub total_stake : Stake
  pub total_validated_stake : Stake

module _ {E Rest Stake : Type 0} where
  abbrev of_indexer : Pool Rest Stake → Option (Pool Rest Stake) → Answer E (Pool Rest Stake)
  of_indexer res none = panicked
  of_indexer res (some p) =
      returned (record res {
        total_stake = p.total_stake;
        total_validated_stake = p.total_validated_stake;
      })

  abbrev with_indexer :
      Pool Rest Stake → Result E (Option (Pool Rest Stake)) → Answer E (Pool Rest Stake)
  with_indexer res (err e) = failed e
  with_indexer res (ok p) = of_indexer res p

  -- Pool: the indexer's answer may be nil with no error.
  unfoldable pub pool :
      Result E (Pool Rest Stake) → Result E (Option (Pool Rest Stake)) → Answer E (Pool Rest Stake)
  pool (err e) indexer = failed e
  pool (ok res) indexer = with_indexer res indexer

-- types.MultisigContract, the field that is set here, and the others as one
pub record MultisigContract (Rest Signers : Type 0) : Type 0 where
  pub rest : Rest
  pub signers : Signers

module _ {E Rest Signers : Type 0} where
  abbrev signers_of_indexer :
      MultisigContract Rest Signers
      → Option (MultisigContract Rest Signers)
      → Answer E (MultisigContract Rest Signers)
  signers_of_indexer res none = panicked
  signers_of_indexer res (some c) = returned (record res { signers = c.signers })

  abbrev with_indexer_contract :
      MultisigContract Rest Signers
      → Result E (Option (MultisigContract Rest Signers))
      → Answer E (MultisigContract Rest Signers)
  with_indexer_contract res (err e) = failed e
  with_indexer_contract res (ok c) = signers_of_indexer res c

  -- MultisigContract
  unfoldable pub multisig_contract :
      Result E (MultisigContract Rest Signers)
      → Result E (Option (MultisigContract Rest Signers))
      → Answer E (MultisigContract Rest Signers)
  multisig_contract (err e) indexer = failed e
  multisig_contract (ok res) indexer = with_indexer_contract res indexer
