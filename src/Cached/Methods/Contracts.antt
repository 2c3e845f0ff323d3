-- ===== src/Cached/Methods/Contracts.antt =====
-- The methods of app/db/cached/accessor.go on contracts.
use idena_indexer_api.Prelude.{ℕ, Option, [], ◌∷◌}
use idena_indexer_api.Prelude.Text.{Text, codes}
use idena_indexer_api.Cached.Key.{number, text}
use idena_indexer_api.Cached.Entry.{Entry, entry, pointer_to}

pub data ContractCall : Type 0 where
  contract : Text → ContractCall
  contract_tx_balance_updates : Text → ℕ → Option (ℕ × Text) → ContractCall
  contract_verified_code_file : Text → ContractCall
  time_lock_contract : Text → ContractCall
  multisig_contract : Text → ContractCall
  oracle_lock_contract : Text → ContractCall
  refundable_oracle_lock_contract : Text → ContractCall
  address_oracle_voting_contracts : Text → ℕ → Option (ℕ × Text) → ContractCall

unfoldable pub contract_entry : ContractCall → Entry
contract_entry (contract address) =
    entry (codes "Contract") (text address ∷ []) (codes "Contract") (text address ∷ [])
contract_entry (contract_tx_balance_updates contract_address count continuation_token) =
    entry (codes "ContractTxBalanceUpdates")
      (text contract_address ∷ number count ∷ pointer_to continuation_token ∷ [])
      (codes "ContractTxBalanceUpdates")
      (text contract_address ∷ number count ∷ pointer_to continuation_token ∷ [])
contract_entry (contract_verified_code_file address) =
    entry (codes "ContractVerifiedCodeFile") (text address ∷ []) (codes "ContractVerifiedCodeFile")
      (text address ∷ [])
contract_entry (time_lock_contract address) =
    entry (codes "TimeLockContract") (text address ∷ []) (codes "TimeLockContract")
      (text address ∷ [])
contract_entry (multisig_contract address) =
    entry (codes "MultisigContract") (text address ∷ []) (codes "MultisigContract")
      (text address ∷ [])
contract_entry (oracle_lock_contract address) =
    entry (codes "OracleLockContract") (text address ∷ []) (codes "OracleLockContract")
      (text address ∷ [])
contract_entry (refundable_oracle_lock_contract address) =
    entry (codes "RefundableOracleLockContract") (text address ∷ [])
      (codes "RefundableOracleLockContract") (text address ∷ [])
contract_entry (address_oracle_voting_contracts address count continuation_token) =
    entry (codes "AddressOracleVotingContracts")
      (text address ∷ number count ∷ pointer_to continuation_token ∷ [])
      (codes "AddressOracleVotingContracts")
      (text address ∷ number count ∷ pointer_to continuation_token ∷ [])
