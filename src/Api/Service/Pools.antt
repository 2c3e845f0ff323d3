-- ===== src/Api/Service/Pools.antt =====
-- Pool and MultisigContract of app/api/service.go on every answer of the database and the indexer.
use idena_indexer_api.Prelude.{◌≡◌, ◌↔◌, refl, arith, Option, none, some}
use idena_indexer_api.Prelude.Result.{Result, ok, err}
use idena_indexer_api.Api.Service.{panicked, Pool, pool, MultisigContract, multisig_contract}

module _ {E Rest Stake : Type 0} where
  -- Pool panics just when the database has the pool and the indexer answers with no error and a nil
  -- pool.
  pub pool-panicked :
      (db : Result E (Pool Rest Stake)) (indexer : Result E (Option (Pool Rest Stake)))
      → (pool db indexer ≡ panicked) ↔ ((p : Pool Rest Stake) × (db ≡ ok p) × (indexer ≡ ok none))
  unfolding pool
  pool-panicked (err e) indexer =
      (λ h. absurd (ground (arith, h)), λ h. absurd (ground (arith, h.1)))
  pool-panicked (ok p) (err e) =
      (λ h. absurd (ground (arith, h)), λ h. absurd (ground (arith, h.2)))
  pool-panicked (ok p) (ok none) = (λ h. (p, refl, refl), λ h. refl)
  pool-panicked (ok p) (ok (some q)) =
      (λ h. absurd (ground (arith, h)), λ h. absurd (ground (arith, h.2)))

module _ {E Rest Signers : Type 0} where
  -- MultisigContract panics just when the database has the contract and the indexer answers with no
  -- error and a nil contract.
  pub multisig_contract-panicked :
      (db : Result E (MultisigContract Rest Signers))
      (indexer : Result E (Option (MultisigContract Rest Signers)))
      → (multisig_contract db indexer ≡ panicked)
        ↔ ((c : MultisigContract Rest Signers) × (db ≡ ok c) × (indexer ≡ ok none))
  unfolding multisig_contract
  multisig_contract-panicked (err e) indexer =
      (λ h. absurd (ground (arith, h)), λ h. absurd (ground (arith, h.1)))
  multisig_contract-panicked (ok c) (err e) =
      (λ h. absurd (ground (arith, h)), λ h. absurd (ground (arith, h.2)))
  multisig_contract-panicked (ok c) (ok none) = (λ h. (c, refl, refl), λ h. refl)
  multisig_contract-panicked (ok c) (ok (some d)) =
      (λ h. absurd (ground (arith, h)), λ h. absurd (ground (arith, h.2)))
