-- ===== src/Postgres/Queries/Contracts.antt =====
-- The scripts that methods of app/db/postgres run: those in contract.go, contracts.go.
use idena_indexer_api.Prelude.{List, [], ◌∷◌}
use idena_indexer_api.Prelude.Text.{codes}
use idena_indexer_api.Postgres.Queries.{Query, query, limit, string, token, token_part}
use idena_indexer_api.Cached.Methods.Contracts.{
  ContractCall, contract, contract_tx_balance_updates, contract_verified_code_file,
  time_lock_contract, multisig_contract, oracle_lock_contract, refundable_oracle_lock_contract,
  address_oracle_voting_contracts,
}

unfoldable pub contract_queries : ContractCall → List Query
contract_queries (contract address) = query (codes "contract.sql") (string address ∷ []) ∷ []
contract_queries (contract_tx_balance_updates contract_address count continuation_token) =
    query (codes "contractTxBalanceUpdates.sql")
      (string contract_address ∷ limit count ∷ token_part continuation_token ∷ [])
    ∷ []
contract_queries (contract_verified_code_file address) =
    query (codes "contractVerifiedCodeFile.sql") (string address ∷ []) ∷ []
contract_queries (time_lock_contract address) =
    query (codes "timeLockContract.sql") (string address ∷ []) ∷ []
contract_queries (multisig_contract address) =
    query (codes "multisigContract.sql") (string address ∷ []) ∷ []
contract_queries (oracle_lock_contract address) =
    query (codes "oracleLockContract.sql") (string address ∷ []) ∷ []
contract_queries (refundable_oracle_lock_contract address) =
    query (codes "refundableOracleLockContract.sql") (string address ∷ []) ∷ []
contract_queries (address_oracle_voting_contracts address count continuation_token) =
    query (codes "addressOracleVotingContracts.sql")
      (string address ∷ limit count ∷ token continuation_token ∷ [])
    ∷ []
