-- ===== src/Api/Params.antt =====
-- app/api/common.go: the parameters of a request and the address of its client.
pub mod Reading
use idena_indexer_api.Prelude.{
  ℕ, Bool, true, false, ◌&&◌, Option, none, some, List, [], ◌∷◌, if◌then◌else◌, ltb, length,
}
use idena_indexer_api.Prelude.Text.{Text, codes, contains, has_prefix}
use idena_indexer_api.Prelude.Decimal.{parse_uint}
use idena_indexer_api.Prelude.Result.{Result, ok, err, or_error, ◌>>=◌}

pub data ParamError : Type 0 where
  wrong_value : Text → Text → ParamError
  too_big_value : ℕ → ParamError

-- ReadUintUrlValue and ReadUint: a missing key reads as "".
unfoldable pub read_uint_url_value : (Text → Text) → Text → Result ParamError ℕ
read_uint_url_value params name =
    or_error (wrong_value name (params name)) (parse_uint (params name))

-- ReadPaginatorParams
unfoldable pub read_paginator_params : (Text → Text) → Result ParamError (ℕ × Option Text)
unfolding read_uint_url_value
read_paginator_params params =
    let v = params (codes "continuationtoken") in
    read_uint_url_value params (codes "limit") >>= λ count.
    if ltb 100 count
    then err (too_big_value count)
    else ok (count, if ltb 0 (length v) then some v else none)

-- strings.Split(s, sep)[0]
unfoldable pub first_part : Text → Text → Text
unfolding has_prefix
first_part [] sep = []
first_part (c ∷ s) sep =
    let rest = first_part s sep in if has_prefix (c ∷ s) sep then [] else c ∷ rest

-- GetIP, of the header X-Forwarded-For and the remote address
unfoldable pub get_ip : Text → Text → Text
unfolding first_part contains
get_ip header remote_addr =
    if ltb 0 (length header)
    then first_part header (codes ", ")
    else if contains remote_addr (codes ":")
    then first_part remote_addr (codes ":")
    else remote_addr
