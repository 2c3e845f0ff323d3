-- ===== src/Api/Params/Reading.antt =====
-- What ReadPaginatorParams and GetIP of app/api/common.go accept and return.
use idena_indexer_api.Prelude.{
  ℕ, ◌≤◌, ◌≡◌, Bool, true, not, ◌&&◌, Option, none, some, [], ◌∷◌, ◌++◌, arith, if◌then◌else◌, ltb,
  ◌==◌, length,
}
use idena_indexer_api.Prelude.Text.{Text, codes, contains, has_prefix}
use idena_indexer_api.Prelude.Decimal.{parse_uint}
use idena_indexer_api.Prelude.Result.{ok}
use idena_indexer_api.Api.Params.{read_uint_url_value, read_paginator_params, first_part, get_ip}

-- Accepted parameters have a decimal limit of at most 100, which is the count, and the token is the one
-- given, or none for an empty one.
pub read_paginator_params_lem :
    (params : Text → Text) (count : ℕ) (token : Option Text)
    → read_paginator_params params ≡ ok (count, token)
    → (parse_uint (params (codes "limit")) ≡ some count)
      × (count ≤ 100)
      × (token ≡ (
          if ltb 0 (length (params (codes "continuationtoken")))
          then some (params (codes "continuationtoken"))
          else none))
unfolding read_paginator_params read_uint_url_value
read_paginator_params_lem params count token h = ground (arith, h)

-- A text without a colon.
unfoldable pub has_no_colon : Text → Bool
has_no_colon [] = true
has_no_colon (c ∷ s) = not (c == b':') && has_no_colon s

first_part-append :
    (host port : Text)
    → has_no_colon host ≡ true
    → first_part (host ++ b':' ∷ port) (b':' ∷ []) ≡ host
unfolding first_part has_no_colon has_prefix
first_part-append [] port h = ground arith
first_part-append (c ∷ host) port h = ground (arith, first_part-append host port)

contains-append : (host port : Text) → contains (host ++ b':' ∷ port) (b':' ∷ []) ≡ true
unfolding contains has_prefix
contains-append [] port = ground arith
contains-append (c ∷ host) port = ground (arith, contains-append host port)

-- Without a header of a proxy, the client of a remote address is what stands before its first colon:
-- the host of an IPv4 address, and only the first group of an IPv6 address.
pub get_ip-append :
    (host port : Text) → has_no_colon host ≡ true → get_ip [] (host ++ b':' ∷ port) ≡ host
unfolding get_ip
get_ip-append host port h = rw contains-append (first_part-append host port h)
