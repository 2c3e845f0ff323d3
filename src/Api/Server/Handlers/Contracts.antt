-- ===== src/Api/Server/Handlers/Contracts.antt =====
-- The handlers of app/api/server.go on contracts and tokens.
use idena_indexer_api.Prelude.{[], ◌∷◌, if◌then◌else◌, leb, length}
use idena_indexer_api.Prelude.Text.{codes, text_eq}
use idena_indexer_api.Api.Server.{
  count, continuation_token, text, texts, optional, flag, bytes, too_large_file, refused, result,
  page, outcome, Handler, monitored, call, call_contracts, var, get_form_value, read_body,
  read_page, read_sort_by, split_states,
}

abbrev pub oracle_voting_contracts : Handler
oracle_voting_contracts = monitored "oracleVotingContracts" λ s r. read_page r λ n t. page (
    call_contracts "OracleVotingContracts" (
      text (get_form_value r (codes "author"))
      ∷ text (get_form_value r (codes "oracle"))
      ∷ texts (split_states (r.form (codes "states[]")))
      ∷ flag (text_eq (get_form_value r (codes "all")) (codes "true"))
      ∷ optional (read_sort_by r)
      ∷ count n
      ∷ continuation_token t
      ∷ []))

abbrev pub address_oracle_voting_contracts : Handler
address_oracle_voting_contracts = monitored "addressOracleVotingContracts" λ s r. read_page r λ n t.
    page (
      call "AddressOracleVotingContracts"
        (text (var r "address") ∷ count n ∷ continuation_token t ∷ []))

abbrev pub time_lock_contract : Handler
time_lock_contract =
    monitored "timeLockContract"
      λ s r. result (call "TimeLockContract" (text (var r "address") ∷ []))

abbrev pub oracle_lock_contract : Handler
oracle_lock_contract =
    monitored "oracleLockContract"
      λ s r. result (call "OracleLockContract" (text (var r "address") ∷ []))

abbrev pub refundable_oracle_lock_contract : Handler
refundable_oracle_lock_contract =
    monitored "refundableOracleLockContract"
      λ s r. result (call "RefundableOracleLockContract" (text (var r "address") ∷ []))

abbrev pub oracle_voting_contract : Handler
oracle_voting_contract = monitored "oracleVotingContract" λ s r. result (
    call_contracts "OracleVotingContract"
      (text (var r "address") ∷ text (get_form_value r (codes "oracle")) ∷ []))

abbrev pub multisig_contract : Handler
multisig_contract =
    monitored "multisigContract"
      λ s r. result (call "MultisigContract" (text (var r "address") ∷ []))

abbrev pub estimated_oracle_rewards : Handler
estimated_oracle_rewards =
    monitored "estimatedOracleRewards" λ s r. result (call "EstimatedOracleRewards" [])

abbrev pub address_contract_tx_balance_updates : Handler
address_contract_tx_balance_updates = monitored "addressContractTxBalanceUpdates" λ s r.
    read_page r λ n t. page (
      call_contracts "AddressContractTxBalanceUpdates" (
        text (var r "address")
        ∷ text (var r "contractaddress")
        ∷ count n
        ∷ continuation_token t
        ∷ []))

abbrev pub contract : Handler
contract = monitored "contract" λ s r. result (call "Contract" (text (var r "address") ∷ []))

abbrev pub verify_contract : Handler
verify_contract = monitored "verifyContract" λ s r. read_body r λ body_read.
    if leb s.contract_size_limit (length body_read)
    then refused too_large_file
    else outcome (call "VerifyContract" (text (var r "address") ∷ bytes body_read ∷ []))

abbrev pub contract_tx_balance_updates : Handler
contract_tx_balance_updates = monitored "contractTxBalanceUpdates" λ s r. read_page r λ n t. page (
    call_contracts "ContractTxBalanceUpdates"
      (text (var r "address") ∷ count n ∷ continuation_token t ∷ []))

abbrev pub token : Handler
token = monitored "token" λ s r. result (call "Token" (text (var r "address") ∷ []))

abbrev pub token_holders : Handler
token_holders = monitored "tokenHolders" λ s r.
    read_page r λ n t.
      page (call "TokenHolders" (text (var r "address") ∷ count n ∷ continuation_token t ∷ []))
