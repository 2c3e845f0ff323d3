-- ===== src/Api/Server.antt =====
-- app/api/server.go: what a handler of the HTTP server reads of a request, and what it replies.
pub mod Handlers
pub mod Router
pub mod Routes
pub mod Dynamic
pub mod Filter
mod Examples
use idena_indexer_api.Prelude.{
  ℕ, ◌+◌, ◌-◌, ◌*◌, Bool, true, false, ◌&&◌, Option, none, some, List, [], ◌∷◌, ◌++◌, String,
  if◌then◌else◌, ltb, leb, length, ◌==◌, map,
}
use mathlib.Core.Option
use idena_indexer_api.Prelude.Text.{Text, codes, lower_byte, to_lower}
use idena_indexer_api.Prelude.Int.{ℤ}
use idena_indexer_api.Prelude.Strings.{split}
use idena_indexer_api.Prelude.Result.{ok, err}
use idena_indexer_api.Prelude.Decimal.{parse_uint}
use idena_indexer_api.Api.Params.{
  ParamError, wrong_value, read_uint_url_value, read_paginator_params,
}

-- The arguments of a call of the service. `count` is the size of a page, `hours_ago` the time that lies
-- so many hours back.
pub data Arg : Type 0 where
  number : ℕ → Arg
  count : ℕ → Arg
  continuation_token : Option Text → Arg
  text : Text → Arg
  texts : List Text → Arg
  optional : Option Text → Arg
  flag : Bool → Arg
  bytes : List ℕ → Arg
  hours_ago : ℤ → Arg

-- The two services that the server calls.
pub data Service : Type 0 where
  api : Service
  contracts : Service

pub record Call : Type 0 where
  pub service : Service
  pub method : Text
  pub args : List Arg

pub data HandlerError : Type 0 where
  wrong_param : ParamError → HandlerError
  unknown_format : Text → HandlerError
  failed_to_read : HandlerError
  too_large_file : HandlerError

-- What a handler writes. The first is an error with no call; the others show the value or the error
-- of a call: in an object, as a page with a token, as an error only, as a plain text made of the value,
-- as an integer in an object, or as a file. The last two call nothing.
pub data Reply : Type 0 where
  refused : HandlerError → Reply
  result : Call → Reply
  page : Call → Reply
  outcome : Call → Reply
  plain_text : Call → Reply
  whole_amount : Call → Reply
  file : Text → Call → Reply
  dump_link : Reply
  current_time : Reply

-- mux.Vars(r), r.Form and the body, `none` if it cannot be read; a missing name reads as "" or [].
pub record Request : Type 0 where
  pub vars : Text → Text
  pub form : Text → List Text
  pub body : Option (List ℕ)

-- The fields of httpServer that handlers read, and the address of the public key of a private key, or
-- `none` for an invalid key, by package crypto.
pub record HttpServer : Type 0 where
  pub latest_hours : ℤ
  pub contract_size_limit : ℕ
  pub frozen_balance_addrs : List Text
  pub key_to_address : List ℕ → Option Text

-- A handler, with the name under which the performance monitor sees it, if it does.
pub record Handler : Type 0 where
  pub monitored_as : Option Text
  pub run : HttpServer → Request → Reply

abbrev pub monitored : String → (HttpServer → Request → Reply) → Handler
monitored name run = record { monitored_as = some (codes name); run = run }

abbrev pub unmonitored : (HttpServer → Request → Reply) → Handler
unmonitored run = record { monitored_as = none; run = run }

abbrev pub call : String → List Arg → Call
call method args = record { service = api; method = codes method; args = args }

abbrev pub call_contracts : String → List Arg → Call
call_contracts method args = record { service = contracts; method = codes method; args = args }

abbrev pub var : Request → String → Text
var r name = r.vars (codes name)

-- getFormValue and r.Form.Get
unfoldable pub get_form_value : Request → Text → Text
get_form_value r name = elim (r.form name) [ [] ↦ [] | v ∷ _ ↦ v ]

-- ReadUint, with the error written
unfoldable pub read_uint : Request → String → (ℕ → Reply) → Reply
read_uint r name next = elim (parse_uint (var r name)) [
  | none ↦ refused (wrong_param (wrong_value (codes name) (var r name)))
  | some n ↦ next n
]

-- ReadUint of the "id" of a block: by its hash where that is no number, by its height otherwise
unfoldable pub read_id : Request → (Text → Reply) → (ℕ → Reply) → Reply
read_id r by_hash by_height = elim (parse_uint (var r "id")) [
  | none ↦ by_hash (var r "id")
  | some height ↦ by_height height
]

-- io.ReadAll of the body, with the error written
unfoldable pub read_body : Request → (List ℕ → Reply) → Reply
read_body r next = elim r.body [ none ↦ refused failed_to_read | some body ↦ next body ]

-- ReadPaginatorParams, with the error written
unfoldable pub read_page : Request → (ℕ → Option Text → Reply) → Reply
read_page r next = elim (read_paginator_params (get_form_value r)) [
  | err e ↦ refused (wrong_param e)
  | ok (n, t) ↦ next n t
]

-- readPeersHistoryCount, with the error written
unfoldable pub read_peers_history_count : Request → (ℕ → Reply) → Reply
unfolding read_uint_url_value get_form_value
read_peers_history_count r next =
    if length (get_form_value r (codes "limit")) == 0
    then next 500
    else elim (read_uint_url_value (get_form_value r) (codes "limit")) [
      | err e ↦ refused (wrong_param e)
      | ok n ↦ next (if ltb 500 n then 500 else n)
    ]

-- The "sortby" of a form, or nil
unfoldable pub read_sort_by : Request → Option Text
unfolding get_form_value
read_sort_by r =
    let v = get_form_value r (codes "sortby") in if ltb 0 (length v) then some v else none

-- strings.ToUpper of one ASCII byte
abbrev upper_byte : ℕ → ℕ
upper_byte c = if leb b'a' c && leb c b'z' then c - 32 else c

abbrev capitalized : List Text → List Text
capitalized [] = []
capitalized ([] ∷ states) = capitalized states
capitalized ((c ∷ s) ∷ states) = (upper_byte c ∷ to_lower s) ∷ capitalized states

-- convertStates; nil and an empty slice are not told apart.
unfoldable pub convert_states : List Text → List Text
unfolding split to_lower
convert_states [] = []
convert_states (v ∷ vs) = capitalized (split v b',') ++ convert_states vs

-- the closure convertStates of oracleVotingContracts
unfoldable pub split_states : List Text → List Text
unfolding split
split_states [] = []
split_states (v ∷ vs) = split v b',' ++ split_states vs

abbrev hex_digit : ℕ → Option ℕ
hex_digit c =
    if leb b'0' c && leb c b'9'
    then some (c - b'0')
    else if leb b'a' c && leb c b'f'
    then some (c - 87)
    else if leb b'A' c && leb c b'F'
    then some (c - 55)
    else none

-- hex.DecodeString
unfoldable pub decode_hex : Text → Option (List ℕ)
decode_hex [] = some []
decode_hex (c ∷ []) = none
decode_hex (c ∷ d ∷ s) =
    Option.bind (hex_digit c)
      λ x. Option.bind (hex_digit d) λ y. Option.map (λ bs. (x * 16 + y) ∷ bs) (decode_hex s)

-- keyToAddrOrEmpty
unfoldable pub key_to_addr_or_empty : HttpServer → Text → Text
unfolding decode_hex
key_to_addr_or_empty s pk_hex = elim (Option.bind (decode_hex pk_hex) s.key_to_address) [
  | none ↦ []
  | some address ↦ address
]
