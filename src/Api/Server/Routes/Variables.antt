-- ===== src/Api/Server/Routes/Variables.antt =====
-- The variables of a template that the handlers of app/api/server.go read.
use idena_indexer_api.Prelude.{
  ◌≡◌, Bool, false, ◌||◌, List, [], ◌∷◌, ◌++◌, All, All-append, if◌then◌else◌,
}
use idena_indexer_api.Prelude.Text.{Text, codes, text_eq, to_lower}
use idena_indexer_api.Prelude.Strings.{split}
use idena_indexer_api.Api.Server.{
  Request, HttpServer, read_uint, read_page, read_id, read_body, read_peers_history_count,
  read_sort_by, get_form_value,
}
use idena_indexer_api.Api.Server.Router.{Route, Segment, literal, variable, digits, segments}
use idena_indexer_api.Api.Server.Routes.{routes}
use idena_indexer_api.Api.Server.Routes.Epochs.{epochs_routes}
use idena_indexer_api.Api.Server.Routes.Identities.{identities_routes}
use idena_indexer_api.Api.Server.Routes.Addresses.{addresses_routes}
use idena_indexer_api.Api.Server.Routes.Network.{network_routes}

abbrev variables : List Segment → List Text
variables [] = []
variables (literal t ∷ ss) = variables ss
variables (variable n ∷ ss) = n ∷ variables ss
variables (digits n ∷ ss) = n ∷ variables ss

-- The variables of a route, and for the circulating supply the format, which one of its two routes has.
abbrev pub names_of : Route → List Text
unfolding segments split to_lower text_eq
names_of x =
    (if text_eq x.template (codes "/circulatingsupply") then codes "format" ∷ [] else [])
    ++ (variables (segments (split x.template b'/')) ++ x.queries)

abbrev member : Text → List Text → Bool
unfolding text_eq
member n [] = false
member n (m ∷ ms) = text_eq m n || member n ms

-- The request with these variables alone.
abbrev pub own_variables : Route → Request → Request
unfolding member names_of
own_variables x r = record r { vars = λ n. if member n (names_of x) then r.vars n else [] }

abbrev pub ReadsOwn : HttpServer → Request → Route → Type 0
unfolding own_variables
ReadsOwn s r x = x.handler.run s (own_variables x r) ≡ x.handler.run s r

epochs-ReadOwn : (s : HttpServer) (r : Request) → All (ReadsOwn s r) epochs_routes
unfolding ReadsOwn read_uint get_form_value read_page
epochs-ReadOwn s r = search

identities-ReadOwn : (s : HttpServer) (r : Request) → All (ReadsOwn s r) identities_routes
unfolding ReadsOwn read_uint get_form_value read_page read_id
identities-ReadOwn s r = search

addresses-ReadOwn : (s : HttpServer) (r : Request) → All (ReadsOwn s r) addresses_routes
unfolding ReadsOwn get_form_value read_page
addresses-ReadOwn s r = search

network-ReadOwn : (s : HttpServer) (r : Request) → All (ReadsOwn s r) network_routes
unfolding ReadsOwn read_uint get_form_value read_page read_body read_peers_history_count
    read_sort_by
network-ReadOwn s r = search

-- For every route with a path of its own but those of /circulatingsupply, the reply of the handler
-- depends on no other variables than those of the route's template and its query: it reads none under a
-- name that its route does not fill. Both routes of /circulatingsupply may also read "format", which one
-- of them does not fill.
pub routes-ReadOwn : (s : HttpServer) (r : Request) → All (ReadsOwn s r) routes
routes-ReadOwn s r =
    All-append (ReadsOwn s r) epochs_routes
      (identities_routes ++ addresses_routes ++ network_routes) (epochs-ReadOwn s r)
      (All-append (ReadsOwn s r) identities_routes (addresses_routes ++ network_routes)
        (identities-ReadOwn s r)
        (All-append (ReadsOwn s r) addresses_routes network_routes (addresses-ReadOwn s r)
          (network-ReadOwn s r)))
