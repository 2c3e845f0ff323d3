-- ===== src/Api/Examples.antt =====
-- The request limiter of app/api/req_limiter.go on small runs.
use idena_indexer_api.Prelude.{◌≤◌, ◌≡◌, refl, List, [], ◌∷◌, arith}
use idena_indexer_api.Prelude.Int.{pos}
use idena_indexer_api.Prelude.Text.{Text, codes, contains, text_eq}
use idena_indexer_api.GoCache.Assoc.{assoc_counters, assoc_cache}
use idena_indexer_api.Api.Limiter.{
  ReqLimiter, done, new_limiter, take_resource, check_req_limit, select_send, release_resource,
}
use idena_indexer_api.Api.Limiter.Counting.{Request, seen, accepted, accepted-eq-min}
use idena_indexer_api.Api.Limiter.Queueing.{
  World, admit, Reach, here, next, idle, number_adjacent, number_other, in_flight_bounds,
  release_resource_done,
}

abbrev Counters : Type 0
Counters = assoc_counters.Store

abbrev alice : Text
alice = codes "alice"

-- A limit of 5 a minute lets 2 through in 30 seconds.
abbrev limiter : ReqLimiter Counters
limiter = new_limiter assoc_counters 3 (pos 5) 30

abbrev requests : List Request
requests =
    record { at = 1; client = alice }
    ∷ record { at = 4; client = codes "bob" }
    ∷ record { at = 7; client = alice }
    ∷ record { at = 9; client = alice }
    ∷ []

accepted-eq-min_example : accepted assoc_counters alice limiter requests ≡ 2
unfolding new_limiter assoc_counters assoc_cache seen text_eq
accepted-eq-min_example =
    accepted-eq-min assoc_counters limiter alice 2 0 30 requests refl (omega arith) (λ now k. refl)
      (omega arith)
      (
        omega arith,
        omega arith,
        (omega arith, omega arith, (omega arith, omega arith, (omega arith, omega arith, tt))),
      )

abbrev adjacent_path : Text
adjacent_path = codes "/api/flip/1/epoch/adjacentflips"

-- One request for adjacent data has been let in.
abbrev busy : World assoc_counters
busy = record {
  limiter = record (new_limiter assoc_counters 3 (pos 0) 30) {
    adjacent_data_queue = record { capacity = 1; used = 1 };
  };
  in_flight = adjacent_path ∷ [];
}

reached : Reach assoc_counters (idle assoc_counters 3 (pos 0) 30) busy
unfolding new_limiter assoc_counters assoc_cache take_resource check_req_limit select_send contains
reached = next here (admit 0 alice adjacent_path busy.limiter refl)

in_flight_bounds_example : (number_adjacent busy.in_flight ≤ 1) × (number_other busy.in_flight ≤ 3)
in_flight_bounds_example = in_flight_bounds assoc_counters 3 30 (pos 0) busy reached

release_resource_done_example :
    (release_resource assoc_counters busy.limiter adjacent_path).0 ≡ done
release_resource_done_example =
    release_resource_done assoc_counters 3 30 (pos 0) busy reached [] [] adjacent_path refl
