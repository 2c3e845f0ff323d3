-- ===== src/Api/Server/Routes/Limits.antt =====
-- The number of rows that the handlers of app/api/server.go ask for, but that of the prefix /data/,
-- which passes on the limit of the configured endpoint.
use idena_indexer_api.Prelude.{
  ℕ, Bool, true, false, String, ◌≤◌, ◌≡◌, refl, Option, none, some, List, [], ◌∷◌, if◌then◌else◌,
  ltb, arith, length, ◌==◌,
}
use idena_indexer_api.Prelude.Text.{Text, codes, text_eq}
use idena_indexer_api.Prelude.Decimal.{parse_uint}
use idena_indexer_api.Prelude.Result.{Result, ok, err, or_error}
use idena_indexer_api.Api.Params.{ParamError, wrong_value, read_paginator_params}
use idena_indexer_api.Api.Params.Reading.{read_paginator_params_lem}
use idena_indexer_api.Api.Server.{
  Arg, count, Reply, refused, wrong_param, result, page, outcome, plain_text, whole_amount, file,
  dump_link, current_time, Request, HttpServer, var, read_uint, read_id, read_body, failed_to_read,
  read_page, read_peers_history_count, get_form_value,
}
use idena_indexer_api.Api.Server.Router.{Route}

-- The call asks for that many rows at most.
abbrev pub AsksAtMost : ℕ → List Arg → Type 0
AsksAtMost n [] = Unit
AsksAtMost n (count k ∷ args) = (k ≤ n) × AsksAtMost n args
AsksAtMost n (_ ∷ args) = AsksAtMost n args

-- Every call of the reply asks for at most so many rows.
abbrev pub IsLimited : ℕ → Reply → Type 0
IsLimited n (refused e) = Unit
IsLimited n (result c) = AsksAtMost n c.args
IsLimited n (page c) = AsksAtMost n c.args
IsLimited n (outcome c) = AsksAtMost n c.args
IsLimited n (plain_text c) = AsksAtMost n c.args
IsLimited n (whole_amount c) = AsksAtMost n c.args
IsLimited n (file name c) = AsksAtMost n c.args
IsLimited n dump_link = Unit
IsLimited n current_time = Unit

-- The points of a history are limited to 500, the rows of a page to 100.
abbrev pub row_limit : Text → ℕ
unfolding text_eq
row_limit template = if text_eq template (codes "/peers/history") then 500 else 100

read_uint-IsLimited :
    (m : ℕ) (r : Request) (name : String) (next : ℕ → Reply)
    → ((n : ℕ) → IsLimited m (next n))
    → IsLimited m (read_uint r name next)
unfolding read_uint
read_uint-IsLimited m r name next h =
    elim (parse_uint (var r name))
      as (λ o. IsLimited m (elim o [
        | none ↦ refused (wrong_param (wrong_value (codes name) (var r name)))
        | some n ↦ next n
      ])) [ none ↦ tt | some n ↦ h n ]

-- What is read as the parameters of a page, with the equation that says so.
read_page-IsLimited :
    (r : Request) (next : ℕ → Option Text → Reply)
    → ((n : ℕ) (t : Option Text) → n ≤ 100 → IsLimited 100 (next n t))
    → IsLimited 100 (read_page r next)
unfolding read_page
read_page-IsLimited r next h = read (read_paginator_params (get_form_value r)) refl
  where
    read :
        (o : Result ParamError (ℕ × Option Text))
        → read_paginator_params (get_form_value r) ≡ o
        → IsLimited 100 (elim o [ err e ↦ refused (wrong_param e) | ok (n, t) ↦ next n t ])
    read (err e) q = tt
    read (ok (n, t)) q = h n t (read_paginator_params_lem (get_form_value r) n t q).1

if-IsLimited :
    (m : ℕ) (b : Bool) (x y : Reply)
    → IsLimited m x
    → IsLimited m y
    → IsLimited m (if b then x else y)
if-IsLimited m true x y hx hy = hx
if-IsLimited m false x y hx hy = hy

read_id-IsLimited :
    (m : ℕ) (r : Request) (by_hash : Text → Reply) (by_height : ℕ → Reply)
    → ((hash : Text) → IsLimited m (by_hash hash))
    → ((n : ℕ) → IsLimited m (by_height n))
    → IsLimited m (read_id r by_hash by_height)
unfolding read_id
read_id-IsLimited m r by_hash by_height h k =
    elim (parse_uint (var r "id"))
      as (λ o. IsLimited m (elim o [ none ↦ by_hash (var r "id") | some n ↦ by_height n ])) [
        | none ↦ h (var r "id")
        | some n ↦ k n
      ]

read_body-IsLimited :
    (m : ℕ) (r : Request) (next : List ℕ → Reply)
    → ((body : List ℕ) → IsLimited m (next body))
    → IsLimited m (read_body r next)
unfolding read_body
read_body-IsLimited m r next h =
    elim r.body
      as (λ o. IsLimited m (elim o [ none ↦ refused failed_to_read | some body ↦ next body ])) [
        | none ↦ tt
        | some body ↦ h body
      ]

read_peers_history_count-IsLimited :
    (r : Request) (next : ℕ → Reply)
    → ((n : ℕ) → n ≤ 500 → IsLimited 500 (next n))
    → IsLimited 500 (read_peers_history_count r next)
unfolding read_peers_history_count
read_peers_history_count-IsLimited r next h =
    if-IsLimited 500 (length (get_form_value r (codes "limit")) == 0) _ _ (h 500 (omega arith))
      (elim (parse_uint (get_form_value r (codes "limit")))
        as (λ o.
          IsLimited 500
            (elim (or_error (wrong_value (codes "limit") (get_form_value r (codes "limit"))) o) [
              | err e ↦ refused (wrong_param e)
              | ok n ↦ next (if ltb 500 n then 500 else n)
            ])) [ none ↦ tt | some n ↦ h (if ltb 500 n then 500 else n) (ground arith) ])

ruleset limits = (
  read_uint-IsLimited, read_page-IsLimited, read_peers_history_count-IsLimited, if-IsLimited,
  read_id-IsLimited, read_body-IsLimited,
)

-- What the route's handler asks for, whatever the request.
abbrev pub RouteIsLimited : HttpServer → Request → Route → Type 0
RouteIsLimited s r x = IsLimited (row_limit x.template) (x.handler.run s r)
