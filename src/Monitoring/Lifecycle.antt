-- ===== src/Monitoring/Lifecycle.antt =====
-- The life of a record in app/monitoring/performance.go: Start, Complete, one report.
use idena_indexer_api.Prelude.{
  ℕ, ◌+◌, ◌%◌, ◌^◌, ◌≡◌, refl, ◌∙◌, Bool, none, some, List, [], ◌∷◌, ◌++◌, arith, if◌then◌else◌,
  ◌==◌, length, length-append,
}
use idena_indexer_api.Prelude.Int.{ℤ}
use idena_indexer_api.Prelude.Text.{Text}
use idena_indexer_api.Prelude.Assoc.{find, insert}
use idena_indexer_api.Monitoring.Sorting.{insert_by, sort_by, length-sort_by}
use idena_indexer_api.Monitoring.{
  Entry, Monitor, quiet, already_completed, find_record, put_record, start, complete, is_finished,
  running, copy_records, add_completed, completed_by_name, or_nil, NameReport, get_name_report,
  name_reports, get_report, slower, shorter, finish_record,
}

find_record-put_record :
    (m : List (ℕ × Entry)) (id : ℕ) (e : Entry) (j : ℕ)
    → find_record (put_record m id e) j ≡ (if id == j then some e else find_record m j)
unfolding find_record put_record
find_record-put_record [] id e j = refl
find_record-put_record ((i, f) ∷ m) id e j = ground (arith, find_record-put_record m id e j)

-- The record that Start adds.
abbrev pub started : Monitor → ℕ → Text → Text → Entry
started pm now name details = record {
  id = (pm.counter + 1) % 2 ^ 32;
  name = name;
  details = details;
  start = now;
  finish = none;
}

find_record-start :
    (pm : Monitor) (now : ℕ) (name details : Text)
    → find_record (start pm now name details).1.records_by_id (start pm now name details).0
      ≡ some (started pm now name details)
unfolding start
find_record-start pm now name details =
    find_record-put_record pm.records_by_id ((pm.counter + 1) % 2 ^ 32)
      (started pm now name details) ((pm.counter + 1) % 2 ^ 32)
    ∙ ground arith

complete_running :
    (pm : Monitor) (now id : ℕ) (e : Entry)
    → find_record pm.records_by_id id ≡ some e
    → e.finish ≡ none
    → complete pm now id ≡ (
      quiet,
      record pm { records_by_id = put_record pm.records_by_id id (record e { finish = some now }) },
    )
complete_running pm now id e h k =
    unfold complete in rw (h, complete) (unfold finish_record in ground arith)

complete_finished :
    (pm : Monitor) (now id t : ℕ) (e : Entry)
    → find_record pm.records_by_id id ≡ some e
    → e.finish ≡ some t
    → complete pm now id ≡ (already_completed id, pm)
complete_finished pm now id t e h k =
    unfold complete in rw (h, complete) (unfold finish_record in ground arith)

-- A request that is started and completed is found with both times, no other id is touched, and
-- completing it again changes nothing and is reported as such.
pub complete_after_start :
    (pm : Monitor) (now later again : ℕ) (name details : Text)
    → (pm' : Monitor) × (complete (start pm now name details).1 later (start pm now name details).0
        ≡ (quiet, pm'))
      × ((j : ℕ)
          → find_record pm'.records_by_id j ≡ (
              if (start pm now name details).0 == j
              then some (record (started pm now name details) { finish = some later })
              else find_record pm.records_by_id j))
      × (complete pm' again (start pm now name details).0
          ≡ (already_completed (start pm now name details).0, pm'))
complete_after_start pm now later again name details =
    let (id, pm₁) = start pm now name details in
    let e = started pm now name details in
    let done = record e { finish = some later } in
    let pm₂ : Monitor = record pm₁ { records_by_id = put_record pm₁.records_by_id id done } in
    let found : find_record pm₂.records_by_id id ≡ some done =
      find_record-put_record pm₁.records_by_id id done id ∙ ground arith in
    (
      pm₂,
      complete_running pm₁ later id e (find_record-start pm now name details) refl,
      λ j.
          unfold start in
          ground (
            arith,
            find_record-put_record pm₁.records_by_id id done j,
            find_record-put_record pm.records_by_id id e j,
          ),
      complete_finished pm₂ again id later done found refl,
    )

pub number_finished : List (ℕ × Entry) → ℕ
number_finished [] = 0
number_finished ((id, e) ∷ m) = (if is_finished e then 1 else 0) + number_finished m

number_finished-running : (m : List (ℕ × Entry)) → number_finished (running m) ≡ 0
unfolding number_finished running
number_finished-running [] = refl
number_finished-running ((id, e) ∷ m) = ground (arith, number_finished-running m)

-- The sum of the counts of the name reports.
pub total_count : List NameReport → ℕ
total_count [] = 0
total_count (r ∷ rs) = r.count + total_count rs

total_count-insert_by :
    (less : NameReport → NameReport → Bool) (r : NameReport) (rs : List NameReport)
    → total_count (insert_by less r rs) ≡ r.count + total_count rs
unfolding total_count insert_by
total_count-insert_by less r [] = refl
total_count-insert_by less r (s ∷ rs) = ground (arith, total_count-insert_by less r rs)

total_count-sort_by :
    (less : NameReport → NameReport → Bool) (rs : List NameReport)
    → total_count (sort_by less rs) ≡ total_count rs
unfolding total_count sort_by
total_count-sort_by less [] = refl
total_count-sort_by less (r ∷ rs) =
    omega (arith, total_count-insert_by less r (sort_by less rs), total_count-sort_by less rs)

sizes : List (Text × List Entry) → ℕ
sizes [] = 0
sizes ((name, es) ∷ m) = length es + sizes m

sizes-insert :
    (m : List (Text × List Entry)) (name : Text) (es : List Entry)
    → sizes (insert m name es) + length (or_nil (find m name)) ≡ sizes m + length es
unfolding sizes insert find
sizes-insert [] name es = omega arith
sizes-insert ((j, fs) ∷ m) name es = ground (arith, sizes-insert m name es)

sizes-completed_by_name :
    (res : List (Text × List Entry)) (m : List (ℕ × Entry))
    → sizes (completed_by_name res m) ≡ sizes res + number_finished m
unfolding completed_by_name number_finished
sizes-completed_by_name res [] = omega arith
sizes-completed_by_name res ((id, e) ∷ m) = ground (
  arith,
  sizes-completed_by_name (add_completed res e) m,
  sizes-insert res e.name (or_nil (find res e.name) ++ e ∷ []),
  length-append (or_nil (find res e.name)) (e ∷ []),
)

module _ (average : ℤ → ℕ → ℤ) where
  total_count-name_reports :
      (m : List (Text × List Entry)) → total_count (name_reports average m) ≡ sizes m
  unfolding total_count name_reports sizes get_name_report
  total_count-name_reports [] = refl
  total_count-name_reports ((name, es) ∷ m) =
      omega (arith, length-sort_by shorter es, total_count-name_reports m)

  -- Two reports in a row count every request that has completed once: the first counts all the
  -- finished records, under their names, and the second, with no Start or Complete in between,
  -- counts none of them.
  pub get_report_counts :
      (pm : Monitor)
      → (total_count (get_report average (copy_records pm).0).0 ≡ number_finished pm.records_by_id)
        × (total_count (get_report average (copy_records (copy_records pm).1).0).0 ≡ 0)
  unfolding copy_records
  get_report_counts pm = (
    counts pm.records_by_id,
    counts (running pm.records_by_id) ∙ number_finished-running pm.records_by_id,
  )
    where
      counts : (m : List (ℕ × Entry)) → total_count (get_report average m).0 ≡ number_finished m
      counts m =
          unfold get_report in
          total_count-sort_by (slower average) (name_reports average (completed_by_name [] m))
          ∙ total_count-name_reports (completed_by_name [] m)
          ∙ sizes-completed_by_name [] m
          ∙ unfold sizes in omega arith
