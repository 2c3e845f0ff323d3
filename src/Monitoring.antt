-- ===== src/Monitoring.antt =====
-- app/monitoring/performance.go: the requests that are running, and the report on those that ended.
pub mod Sorting
pub mod Timeline
pub mod Peak
pub mod Lifecycle
mod Examples
use idena_indexer_api.Prelude.{
  ℕ, zero, suc, ◌+◌, ◌%◌, ◌^◌, Bool, true, false, not, Option, none, some, List, [], ◌∷◌, ◌++◌, map,
  if◌then◌else◌, ltb, ◌==◌, length, take,
}
use idena_indexer_api.Prelude.Int.{ℤ, pos, sub_ℕ, ltb_ℤ, ◌+ℤ◌, suc_ℤ, pred_ℤ}
use idena_indexer_api.Prelude.Text.{Text}
use idena_indexer_api.Prelude.Assoc.{find, insert}
use idena_indexer_api.Monitoring.Sorting.{sort_by}

-- The type `record`; times are numbers of one unit.
pub record Entry : Type 0 where
  pub id : ℕ
  pub name : Text
  pub details : Text
  pub start : ℕ
  pub finish : Option ℕ

-- performanceMonitorImpl: its map by id, and its 32-bit counter.
pub record Monitor : Type 0 where
  pub records_by_id : List (ℕ × Entry)
  pub counter : ℕ

pub data Logged : Type 0 where
  quiet : Logged
  not_found : ℕ → Logged
  already_completed : ℕ → Logged

unfoldable pub find_record : List (ℕ × Entry) → ℕ → Option Entry
find_record [] id = none
find_record ((j, e) ∷ m) id = if j == id then some e else find_record m id

unfoldable pub put_record : List (ℕ × Entry) → ℕ → Entry → List (ℕ × Entry)
put_record [] id e = (id, e) ∷ []
put_record ((j, f) ∷ m) id e = if j == id then (id, e) ∷ m else (j, f) ∷ put_record m id e

-- Start, at a time; the new id is the new counter.
unfoldable pub start : Monitor → ℕ → Text → Text → ℕ × Monitor
unfolding put_record
start pm now name details =
    let id = (pm.counter + 1) % 2 ^ 32 in
    (
      id,
      record {
        records_by_id =
            put_record pm.records_by_id id
              (record { id = id; name = name; details = details; start = now; finish = none });
        counter = id;
      },
    )

-- The end of Complete, once the record is found.
unfoldable pub finish_record : Monitor → ℕ → ℕ → Entry → Logged × Monitor
finish_record pm now id rec = elim rec.finish [
  | some t ↦ (already_completed id, pm)
  | none ↦ (
    quiet,
    record pm { records_by_id = put_record pm.records_by_id id (record rec { finish = some now }) },
  )
]

unfoldable pub complete : Monitor → ℕ → ℕ → Logged × Monitor
unfolding find_record put_record finish_record
complete pm now id = elim (find_record pm.records_by_id id) [
  | none ↦ (not_found id, pm)
  | some rec ↦ finish_record pm now id rec
]

abbrev pub is_finished : Entry → Bool
is_finished e = elim e.finish [ none ↦ false | some t ↦ true ]

unfoldable pub running : List (ℕ × Entry) → List (ℕ × Entry)
running [] = []
running ((id, e) ∷ m) = let rest = running m in if is_finished e then rest else (id, e) ∷ rest

-- copyRecords: all the records, and the monitor without the finished ones.
unfoldable pub copy_records : Monitor → List (ℕ × Entry) × Monitor
unfolding running
copy_records pm = (pm.records_by_id, record pm { records_by_id = running pm.records_by_id })

-- getCompletedRecordsByName
abbrev or_nil : {A : Type 0} → Option (List A) → List A
or_nil none = []
or_nil (some xs) = xs

unfoldable pub add_completed : List (Text × List Entry) → Entry → List (Text × List Entry)
add_completed res e =
    if is_finished e then insert res e.name (or_nil (find res e.name) ++ e ∷ []) else res

unfoldable pub completed_by_name :
    List (Text × List Entry) → List (ℕ × Entry) → List (Text × List Entry)
unfolding add_completed
completed_by_name res [] = res
completed_by_name res ((id, e) ∷ m) = completed_by_name (add_completed res e) m

-- An event of determineMaxReqCount.
pub record Event : Type 0 where
  pub time : ℕ
  pub is_start : Bool

abbrev pub event_less : Event → Event → Bool
event_less a b = if ltb a.time b.time then true else if ltb b.time a.time then false else a.is_start

unfoldable pub events : List (ℕ × Entry) → List Event
events [] = []
events ((id, e) ∷ m) = elim e.finish [
  | none ↦ record { time = e.start; is_start = true } ∷ events m
  | some t ↦
      record { time = e.start; is_start = true } ∷ record { time = t; is_start = false } ∷ events m
]

-- One event of the loop over the sorted events: the counter, and its maximum.
abbrev pub next_cnt : ℤ → Event → ℤ
next_cnt cnt e = if e.is_start then suc_ℤ cnt else pred_ℤ cnt

abbrev pub next_res : ℤ → ℤ → Event → ℤ
next_res cnt res e = if e.is_start then (if ltb_ℤ res (suc_ℤ cnt) then suc_ℤ cnt else res) else res

unfoldable pub sweep : ℤ → ℤ → List Event → ℤ
sweep cnt res [] = res
sweep cnt res (e ∷ es) = sweep (next_cnt cnt e) (next_res cnt res e) es

unfoldable pub determine_max_req_count : List (ℕ × Entry) → ℤ
unfolding events sweep
determine_max_req_count m = sweep (pos 0) (pos 0) (sort_by event_less (events m))

pub record NameReport : Type 0 where
  pub name : Text
  pub count : ℕ
  pub average_duration : ℤ
  pub top_max : List Entry
  pub top_min : List Entry

-- record.finish.Sub(record.start); the records of a name report are finished.
unfoldable pub duration : Entry → ℤ
duration e = elim e.finish [ none ↦ pos 0 | some t ↦ sub_ℕ t e.start ]

unfoldable pub total_duration : List Entry → ℤ
unfolding duration
total_duration [] = pos 0
total_duration (e ∷ es) = duration e +ℤ total_duration es

abbrev pub shorter : Entry → Entry → Bool
shorter a b = ltb_ℤ (duration a) (duration b)

-- The loops that collect at most three records, from the front and from the back.
unfoldable pub top_three : ℕ → List Entry → List Entry
top_three zero es = []
top_three (suc room) [] = []
top_three (suc room) (e ∷ es) = e ∷ top_three room es

unfoldable pub backwards : List Entry → List Entry → List Entry
backwards [] acc = acc
backwards (e ∷ es) acc = backwards es (e ∷ acc)

-- `average` is the division of a duration by a count, through float64.
module _ (average : ℤ → ℕ → ℤ) where
  unfoldable pub get_name_report : Text → List Entry → NameReport
  unfolding total_duration top_three backwards
  get_name_report name es =
      let sorted = sort_by shorter es in
      record {
        name = name;
        count = length sorted;
        average_duration =
            if ltb 0 (length sorted) then average (total_duration es) (length sorted) else pos 0;
        top_max = top_three 3 (backwards sorted []);
        top_min = top_three 3 sorted;
      }

  abbrev pub slower : NameReport → NameReport → Bool
  slower a b = ltb_ℤ b.average_duration a.average_duration

  unfoldable pub name_reports : List (Text × List Entry) → List NameReport
  unfolding get_name_report
  name_reports [] = []
  name_reports ((name, es) ∷ m) = get_name_report name es ∷ name_reports m

  -- getReport: the name reports, slowest first, and the peak
  unfoldable pub get_report : List (ℕ × Entry) → List NameReport × ℤ
  unfolding name_reports determine_max_req_count completed_by_name
  get_report m = (sort_by slower (name_reports (completed_by_name [] m)), determine_max_req_count m)
