-- ===== src/Api/Server/Dynamic/Lookup.antt =====
-- Which dynamic endpoint of app/api/server.go answers a request.
use idena_indexer_api.Prelude.{
  ◌≡◌, refl, false, Option, none, some, List, [], ◌∷◌, ◌++◌, if◌then◌else◌, arith,
}
use idena_indexer_api.Prelude.Text.{Text, codes, text_eq, text_eq_iff, to_lower, contains}
use idena_indexer_api.Prelude.Assoc.{find, insert, find-insert}
use idena_indexer_api.Api.Params.{first_part}
use idena_indexer_api.Api.Server.Dynamic.{
  DynamicEndpoint, Endpoints, hash_of, put_endpoints, refresh_dynamic_endpoints, endpoint_data,
  unknown_method, method_of, data_handler,
}

-- The last endpoint of a method, in lower case.
abbrev pub last_endpoint : Text → List DynamicEndpoint → Option DynamicEndpoint
last_endpoint m [] = none
last_endpoint m (e ∷ es) = elim (last_endpoint m es) [
  | some f ↦ some f
  | none ↦ if text_eq (to_lower e.method) m then some e else none
]

find-put_endpoints :
    (m : List (Text × DynamicEndpoint)) (es : List DynamicEndpoint) (k : Text)
    → find (put_endpoints m es) k ≡ elim (last_endpoint k es) [ none ↦ find m k | some e ↦ some e ]
unfolding put_endpoints
find-put_endpoints m [] k = refl
find-put_endpoints m (e ∷ es) k = ground (
  arith,
  find-put_endpoints (insert m (to_lower e.method) e) es k,
  find-insert m (to_lower e.method) e k,
)

first_part_whole : (s sep : Text) → contains s sep ≡ false → first_part s sep ≡ s
unfolding first_part contains
first_part_whole [] sep h = refl
first_part_whole (c ∷ s) sep h = ground (arith, first_part_whole s sep)

method_of_path :
    (m : Text)
    → contains (to_lower m) (codes "/api/data/") ≡ false
    → method_of (codes "/api/data/" ++ m) ≡ to_lower m
unfolding method_of to_lower
method_of_path m h = first_part_whole (to_lower m) (codes "/api/data/") h

-- After a refresh that loads endpoints with another hash than the last, a request of /api/data/ with a
-- method is answered by a call for the last of them that has this method, in whatever case, with its
-- data source and limit, and with status 404 if none has it.
pub data_handler-refresh :
    (s : Endpoints) (es : List DynamicEndpoint) (m : Text)
    → text_eq s.hash (hash_of es) ≡ false
    → contains (to_lower m) (codes "/api/data/") ≡ false
    → data_handler (refresh_dynamic_endpoints s (some es)) (codes "/api/data/" ++ m)
      ≡ elim (last_endpoint (to_lower m) es) [
        | none ↦ unknown_method
        | some e ↦ endpoint_data e.data_source e.limit
      ]
unfolding data_handler refresh_dynamic_endpoints find
data_handler-refresh s es m new h =
    ground (arith, method_of_path m h, find-put_endpoints [] es (to_lower m))

-- Endpoints whose data sources, methods and limits join to the text that those loaded before join to
-- are not taken over, though they may be other endpoints: nothing separates the parts, and no limit
-- counts as the limit 0.
pub refresh_dynamic_endpoints-same_hash :
    (s : Endpoints) (es fs : List DynamicEndpoint)
    → hash_of es ≡ hash_of fs
    → refresh_dynamic_endpoints (refresh_dynamic_endpoints s (some es)) (some fs)
      ≡ refresh_dynamic_endpoints s (some es)
unfolding refresh_dynamic_endpoints
refresh_dynamic_endpoints-same_hash s es fs e = ground (
  arith,
  text_eq_iff s.hash (hash_of es),
  text_eq_iff s.hash (hash_of fs),
  text_eq_iff (hash_of es) (hash_of fs),
)
