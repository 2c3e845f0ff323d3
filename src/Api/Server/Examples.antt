-- ===== src/Api/Server/Examples.antt =====
-- The HTTP server of app/api/server.go on single requests.
use idena_indexer_api.Prelude.{
  ◌≡◌, ◌⊎◌, refl, false, none, some, List, [], ◌∷◌, All, if◌then◌else◌, arith,
}
use idena_indexer_api.Prelude.Text.{Text, codes, text_eq, to_lower, contains, has_prefix}
use idena_indexer_api.Prelude.Int.{pos}
use idena_indexer_api.Prelude.Decimal.{format_digits}
use idena_indexer_api.Prelude.Assoc.{find}
use idena_indexer_api.GoCache.Assoc.{assoc_counters, assoc_cache}
use idena_indexer_api.Api.Limiter.{new_limiter, take_resource, check_req_limit, select_send}
use idena_indexer_api.Api.Limiter.Queueing.{Reach}
use idena_indexer_api.Api.Params.{get_ip}
use idena_indexer_api.Api.Server.{Request, HttpServer}
use idena_indexer_api.Api.Server.Handlers.Blocks.{last_block, block}
use idena_indexer_api.Api.Server.Router.{path, fits_path}
use idena_indexer_api.Api.Server.Routes.{routes}
use idena_indexer_api.Api.Server.Routes.Variables.{ReadsOwn, routes-ReadOwn}
use idena_indexer_api.Api.Server.Routes.Overlap.{Mux, routes_overlap}
use idena_indexer_api.Api.Server.Dynamic.{
  DynamicEndpoint, Endpoints, hash_of, refresh_dynamic_endpoints, data_handler, endpoint_data,
}
use idena_indexer_api.Api.Server.Dynamic.Lookup.{data_handler-refresh}
use idena_indexer_api.Api.Server.Filter.{
  Form, Incoming, FilterState, generate_req_id, after_take, request_filter,
}
use idena_indexer_api.Api.Server.Filter.Balance.{world, request_filter-Reach}

abbrev server : HttpServer
server = record {
  latest_hours = pos 24;
  contract_size_limit = 1000;
  frozen_balance_addrs = codes "0x01" ∷ [];
  key_to_address = λ key. none;
}

-- A request for a page of 1000 rows.
abbrev request : Request
request = record {
  vars = λ name. if text_eq name (codes "epoch") then codes "7" else codes "a";
  form = λ name. if text_eq name (codes "limit") then codes "1000" ∷ [] else [];
  body = some (1 ∷ 2 ∷ []);
}

routes-ReadOwn_example : All (ReadsOwn server request) routes
routes-ReadOwn_example = routes-ReadOwn server request

-- A router that takes every path that fits.
abbrev mux : Mux
mux = record { matches = fits_path; matches-fits_path = λ t p h. h }

routes_overlap_example :
    ((codes "/circulatingsupply" ≡ codes "/block/last")
      × (codes "/circulatingsupply" ≡ codes "/block/{id}"))
    ⊎ ((codes "/block/last" ≡ codes "/block/last") × (codes "/block/{id}" ≡ codes "/block/{id}"))
unfolding fits_path to_lower
routes_overlap_example =
    routes_overlap mux (path "/Block/Last" last_block) (path "/Block/{id}" block)
      (codes "/block/last") 55 56 (omega arith) refl refl refl refl

abbrev new_endpoint : DynamicEndpoint
new_endpoint = record { data_source = codes "view_a"; method = codes "Top"; limit = some (pos 10) }

abbrev no_endpoints : Endpoints
no_endpoints = record { hash = []; by_method = [] }

data_handler-refresh_example :
    data_handler
      (refresh_dynamic_endpoints no_endpoints (some (new_endpoint ∷ [])))
      (codes "/api/data/TOP")
    ≡ endpoint_data (codes "view_a") (some (pos 10))
unfolding hash_of format_digits to_lower contains has_prefix text_eq
data_handler-refresh_example =
    data_handler-refresh no_endpoints (new_endpoint ∷ []) (codes "TOP") refl refl

abbrev idle_filter : FilterState assoc_counters
idle_filter = record { counter = 0; limiter = new_limiter assoc_counters 3 (pos 60) 30 }

abbrev form : Form
form = (codes "Limit", codes "10" ∷ []) ∷ (codes "sortby", codes "x" ∷ []) ∷ []

abbrev incoming : Incoming
incoming = record {
  url_path = codes "/api/Epochs";
  forwarded_for = [];
  remote_addr = codes "10.0.0.1:80";
  form = some form;
}

abbrev names : List Text
names = codes "sortby" ∷ codes "Limit" ∷ []

request_filter-Reach_example :
    Reach assoc_counters
      (world assoc_counters idle_filter [])
      (world assoc_counters (request_filter assoc_counters idle_filter 1 false names incoming).1 [])
unfolding request_filter generate_req_id after_take take_resource check_req_limit select_send
    new_limiter assoc_counters assoc_cache get_ip to_lower text_eq find
request_filter-Reach_example =
    request_filter-Reach assoc_counters idle_filter 1 false names incoming [] (ground arith)
