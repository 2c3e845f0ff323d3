-- ===== src/Api/Server/Dynamic.antt =====
-- The dynamic endpoints of app/api/server.go: refreshDynamicEndpoints, and the handler of "/Data/".
pub mod Lookup
use idena_indexer_api.Prelude.{
  ℕ, Bool, true, false, Option, none, some, List, [], ◌∷◌, ◌++◌, if◌then◌else◌, ltb, length,
}
use idena_indexer_api.Prelude.Text.{Text, codes, text_eq, to_lower, drop_prefix}
use idena_indexer_api.Prelude.Decimal.{itoa}
use idena_indexer_api.Prelude.Int.{ℤ, pos}
use idena_indexer_api.Prelude.Assoc.{find, insert}
use idena_indexer_api.Api.Params.{first_part}

-- types.DynamicEndpoint, its fields that are read here
pub record DynamicEndpoint : Type 0 where
  pub data_source : Text
  pub method : Text
  pub limit : Option ℤ

-- The fields of httpServer on dynamic endpoints
pub record Endpoints : Type 0 where
  pub hash : Text
  pub by_method : List (Text × DynamicEndpoint)

abbrev limit_or_zero : DynamicEndpoint → ℤ
limit_or_zero e = elim e.limit [ none ↦ pos 0 | some n ↦ n ]

-- The texts of all endpoints, joined with nothing between them
unfoldable pub hash_of : List DynamicEndpoint → Text
unfolding itoa
hash_of [] = []
hash_of (e ∷ es) = e.data_source ++ (e.method ++ (itoa (limit_or_zero e) ++ hash_of es))

unfoldable pub put_endpoints :
    List (Text × DynamicEndpoint) → List DynamicEndpoint → List (Text × DynamicEndpoint)
put_endpoints m [] = m
put_endpoints m (e ∷ es) = put_endpoints (insert m (to_lower e.method) e) es

-- refreshDynamicEndpoints, with what the loader returns
unfoldable pub refresh_dynamic_endpoints : Endpoints → Option (List DynamicEndpoint) → Endpoints
refresh_dynamic_endpoints s none = s
refresh_dynamic_endpoints s (some es) =
    if text_eq s.hash (hash_of es)
    then s
    else record { hash = hash_of es; by_method = put_endpoints [] es }

-- What stands behind the first place of a text in another, or nothing.
unfoldable pub behind_first : Text → Text → Option Text
unfolding drop_prefix
behind_first [] sep = drop_prefix [] sep
behind_first (c ∷ s) sep = elim (drop_prefix (c ∷ s) sep) [
  | some rest ↦ some rest
  | none ↦ behind_first s sep
]

-- What the handler of "/Data/" does: a call of the service, or status 404.
pub data DataReply : Type 0 where
  endpoint_data : Text → Option ℤ → DataReply
  unknown_method : DataReply

-- arr[1] of strings.Split(strings.ToLower(uri), "/api/data/"), or ""
unfoldable pub method_of : Text → Text
unfolding behind_first first_part
method_of request_uri = elim (behind_first (to_lower request_uri) (codes "/api/data/")) [
  | none ↦ []
  | some rest ↦ first_part rest (codes "/api/data/")
]

-- data
unfoldable pub data_handler : Endpoints → Text → DataReply
data_handler s request_uri = elim (find s.by_method (method_of request_uri)) [
  | none ↦ unknown_method
  | some e ↦ endpoint_data e.data_source e.limit
]
