-- ===== src/Indexer.antt =====
-- indexer/client.go and indexer/api.go: the answers of the indexer, and what the program makes of them.
pub mod Answers
mod Examples
use idena_indexer_api.Prelude.{
  ℕ, Bool, true, false, ◌==◌, Option, none, some, List, [], ◌∷◌, ◌++◌, if◌then◌else◌, ltb, length,
}
use idena_indexer_api.Prelude.Text.{Text, codes}
use idena_indexer_api.Prelude.Decimal.{itoa}
use idena_indexer_api.Prelude.Int.{to_i64}
use idena_indexer_api.Prelude.Result.{Result, ok, err, ◌>>=◌}

-- respError
pub record RespError : Type 0 where
  pub user_message : Text
  pub message : Text

-- `response` after json.Unmarshal; a null in the JSON text makes the result nil.
pub record Response (R : Type 0) : Type 0 where
  pub result : Option R
  pub error : Option RespError
  pub continuation_token : Option Text

-- What the HTTP client returns: an error, or a status and what parsing the body gives.
pub data Exchange (R : Type 0) : Type 0 where
  not_sent : Exchange R
  answered : ℕ → Option (Response R) → Exchange R

pub data ClientError : Type 0 where
  unable_to_send : ClientError
  bad_status : ℕ → ClientError
  unable_to_parse : ClientError
  error_response : Text → ClientError

-- Both methods check the exchange in the same way.
unfoldable pub response_of : {R : Type 0} → Exchange R → Result ClientError (Response R)
response_of not_sent = err unable_to_send
response_of (answered status body) =
    if status == 200
    then elim body [ none ↦ err unable_to_parse | some resp ↦ ok resp ]
    else err (bad_status status)

abbrev pub unless_error :
    {R : Type 0} → Response R → Option RespError → Result ClientError (Option R × Option Text)
unless_error resp none = ok (resp.result, resp.continuation_token)
unless_error resp (some e) = err (error_response e.message)

-- Get
unfoldable pub get : {R : Type 0} → Exchange R → Result ClientError (Option R × Option Text)
unfolding response_of
get exchange = response_of exchange >>= λ resp. unless_error resp resp.error

-- The two errors of Post: for the user, and of the exchange.
pub record PostErrors : Type 0 where
  pub user_err : Option Text
  pub err : Option ClientError

abbrev pub post_errors : Option RespError → PostErrors
post_errors none = record { user_err = none; err = none }
post_errors (some e) =
    if ltb 0 (length e.user_message)
    then record { user_err = some e.user_message; err = none }
    else if ltb 0 (length e.message)
    then record { user_err = none; err = some (error_response e.message) }
    else record { user_err = none; err = none }

-- Post, with the `error` that the body gives, which starts as one of empty messages.
unfoldable pub post : {R : Type 0} → Exchange R → PostErrors
unfolding response_of
post exchange = elim (response_of exchange) [
  | err e ↦ record { user_err = none; err = some e }
  | ok resp ↦ post_errors resp.error
]

-- The errors of Api: handleError hides what went wrong behind one.
pub data ApiError : Type 0 where
  indexer_error : ApiError
  message_error : Text → ApiError

unfoldable pub handle_error : Option ClientError → Option ApiError
handle_error none = none
handle_error (some e) = some indexer_error

-- OnlineIdentity, MemPoolTransaction, MultisigContract, Pool: a nil result and no error if the indexer
-- answers null.
unfoldable pub single : {R : Type 0} → Exchange R → Option R × Option ApiError
unfolding get handle_error
single exchange = elim (get exchange) [
  | err e ↦ (none, handle_error (some e))
  | ok (res, next) ↦ elim res [ none ↦ (none, handle_error none) | some r ↦ (some r, none) ]
]

-- OnlineIdentities, Validators, OnlineValidators: a variable that starts as its zero value.
unfoldable pub list_page : {R : Type 0} → R → Exchange R → R × Option Text × Option ApiError
unfolding get handle_error
list_page zero_value exchange = elim (get exchange) [
  | err e ↦ (zero_value, none, handle_error (some e))
  | ok (res, next) ↦ (elim res [ none ↦ zero_value | some r ↦ r ], next, none)
]

-- The query of a page, with the token if there is one; the count, a uint64, is printed as an int.
unfoldable pub page_query : Text → ℕ → Option Text → Text
page_query path count token =
    path
    ++ codes "?limit="
    ++ itoa (to_i64 count)
    ++ elim token [ none ↦ [] | some t ↦ codes "&continuationToken=" ++ t ]

-- VerifyContract
unfoldable pub verify_contract : {R : Type 0} → Exchange R → Option ApiError
unfolding post handle_error
verify_contract exchange =
    let errors = post exchange in
    elim errors.user_err [ some m ↦ some (message_error m) | none ↦ handle_error errors.err ]
