-- ===== src/Monitoring/Examples.antt =====
-- The performance monitor of app/monitoring/performance.go on small runs.
use idena_indexer_api.Prelude.{ℕ, ◌≡◌, ◌⊎◌, Option, none, some, List, [], ◌∷◌, arith}
use idena_indexer_api.Prelude.Int.{ℤ, pos, ◌≤ℤ◌}
use idena_indexer_api.Prelude.Text.{codes}
use idena_indexer_api.Monitoring.{Entry, Monitor, determine_max_req_count}
use idena_indexer_api.Monitoring.Peak.{determine_max_req_count-IsPeak}
use idena_indexer_api.Monitoring.Timeline.{active_at}
use idena_indexer_api.Monitoring.Lifecycle.{}

abbrev entry : ℕ → ℕ → Option ℕ → Entry
entry id from until = record {
  id = id;
  name = codes "Search";
  details = [];
  start = from;
  finish = until;
}

-- Two requests that meet at time 4, and one that is running.
abbrev entries : List (ℕ × Entry)
entries = (1, entry 1 2 (some 4)) ∷ (2, entry 2 4 (some 6)) ∷ (3, entry 3 9 none) ∷ []

determine_max_req_count-IsPeak_example :
    ((t : ℕ) → pos (active_at t entries) ≤ℤ determine_max_req_count entries)
    × ((determine_max_req_count entries ≡ pos 0)
        ⊎ ((t : ℕ) × (determine_max_req_count entries ≤ℤ pos (active_at t entries))))
determine_max_req_count-IsPeak_example =
    determine_max_req_count-IsPeak entries (omega arith, (omega arith, (tt, tt)))

abbrev monitor : Monitor
monitor = record { records_by_id = entries; counter = 3 }

abbrev average : ℤ → ℕ → ℤ
average total n = total
