-- ===== src/Indexer/Answers.antt =====
-- Which answers of the indexer succeed in indexer/client.go and indexer/api.go.
use idena_indexer_api.Prelude.{◌≡◌, ◌==◌, Option, none, some, arith, if◌then◌else◌, ltb, length}
use idena_indexer_api.Indexer.{
  Response, Exchange, not_sent, answered, ApiError, indexer_error, message_error, single,
  verify_contract,
}

-- A response that was sent with status 200 and parsed.
abbrev parsed : {R : Type 0} → Exchange R → Option (Response R)
parsed not_sent = none
parsed (answered status body) = if status == 200 then body else none

module _ {R : Type 0} where
  abbrev single_of : Option (Response R) → Option R × Option ApiError
  single_of none = (none, some indexer_error)
  single_of (some resp) = elim resp.error [
    | none ↦ (resp.result, none)
    | some e ↦ (none, some indexer_error)
  ]

  -- A lookup in the indexer returns what a parsed answer of status 200 without an error holds, nil
  -- included, and the one error of the interface, with no value, in every other case.
  pub single_lem : (exchange : Exchange R) → single exchange ≡ single_of (parsed exchange)
  unfolding single
  single_lem not_sent = ground arith
  single_lem (answered status body) = ground arith

  abbrev verdict : Option (Response R) → Option ApiError
  verdict none = some indexer_error
  verdict (some resp) = elim resp.error [
    | none ↦ none
    | some e ↦
        if ltb 0 (length e.user_message)
        then some (message_error e.user_message)
        else if ltb 0 (length e.message)
        then some indexer_error
        else none
  ]

  -- VerifyContract passes the message for the user on as it is, hides every other failure behind one
  -- error, and succeeds only on a parsed answer of status 200 whose messages are empty or missing.
  pub verify_contract_lem :
      (exchange : Exchange R) → verify_contract exchange ≡ verdict (parsed exchange)
  unfolding verify_contract
  verify_contract_lem not_sent = ground arith
  verify_contract_lem (answered status body) = ground arith
