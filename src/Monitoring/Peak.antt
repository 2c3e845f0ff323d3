-- ===== src/Monitoring/Peak.antt =====
-- determineMaxReqCount of app/monitoring/performance.go and the number of requests that run at a time.
use idena_indexer_api.Prelude.{
  ℕ, ◌+◌, ◌*◌, ◌≤◌, ◌<◌, ◌≡◌, refl, sym, ap, ◌∙◌, Bool-cases, ◌⊎◌, inl, inr, true, false, List, [],
  ◌∷◌, arith,
}
use mathlib.Core.Path.{subst}
use idena_indexer_api.Prelude.Int.{
  ℤ, pos, ◌≤ℤ◌, pos_part, neg_part, suc_ℤ, pred_ℤ, suc_ℤ_parts, pred_ℤ_parts,
}
use idena_indexer_api.Monitoring.Sorting.{sort_by}
use idena_indexer_api.Monitoring.{
  Entry, Event, event_less, events, next_cnt, next_res, sweep, determine_max_req_count,
}
use idena_indexer_api.Monitoring.Timeline.{
  active_at, AllTimed, is_up, is_down, ups, downs, ups-sort_by, downs-sort_by, active_at-events,
  rank, AllFrom, InOrder, InOrder-sort_by, ups_after, downs_after, next_res-ge, sweep-ge, next-le,
}

Event-cases :
    (t : ℕ) (e : Event)
    → ((is_up t e ≡ 1) × (is_down t e ≡ 0) × (e.is_start ≡ true) × (e.time ≤ t))
      ⊎ (((is_up t e ≡ 0) × (is_down t e ≡ 1) × (e.is_start ≡ false))
          ⊎ ((is_up t e ≡ 0) × (is_down t e ≡ 0) × (2 * t < rank e)))
Event-cases t e = ground arith

next_cnt-start : (cnt : ℤ) (e : Event) → e.is_start ≡ true → next_cnt cnt e ≡ suc_ℤ cnt
next_cnt-start cnt e h = rw h

next_cnt-finish : (cnt : ℤ) (e : Event) → e.is_start ≡ false → next_cnt cnt e ≡ pred_ℤ cnt
next_cnt-finish cnt e h = rw h

sweep-upper :
    (t : ℕ) (cnt res : ℤ) (es : List Event)
    → InOrder es
    → cnt ≤ℤ res
    → pos_part cnt + ups t es + neg_part (sweep cnt res es)
      ≤ pos_part (sweep cnt res es) + neg_part cnt + downs t es
unfolding sweep ups downs
sweep-upper t cnt res [] o h = omega arith
sweep-upper t cnt res (e ∷ es) (a, o) h =
    let ih = sweep-upper t (next_cnt cnt e) (next_res cnt res e) es o (next-le cnt res e h) in
    let ge = sweep-ge (next_cnt cnt e) (next_res cnt res e) es in
    let ge' = next_res-ge cnt res e in
    elim (Event-cases t e) [
      | inl (u, d, s, le) ↦ omega (
        arith,
        ih,
        u,
        d,
        ap pos_part (next_cnt-start cnt e s),
        ap neg_part (next_cnt-start cnt e s),
        suc_ℤ_parts cnt,
      )
      | inr (inl (u, d, s)) ↦ omega (
        arith,
        ih,
        u,
        d,
        ap pos_part (next_cnt-finish cnt e s),
        ap neg_part (next_cnt-finish cnt e s),
        pred_ℤ_parts cnt,
      )
      | inr (inr (u, d, late)) ↦ omega (
        arith,
        ge,
        ge',
        u,
        d,
        ups_after t (rank e) es a late,
        downs_after t (rank e) es a (omega arith),
      )
    ]

next_res-cases :
    (cnt res : ℤ) (e : Event)
    → (next_res cnt res e ≡ res) ⊎ ((next_res cnt res e ≡ suc_ℤ cnt) × (e.is_start ≡ true))
next_res-cases cnt res e = ground arith

start_counts :
    (e : Event)
    → e.is_start ≡ true
    → (is_up e.time e ≡ 1) × (is_down e.time e ≡ 0) × (rank e ≡ 2 * e.time)
start_counts e h = ground arith

-- The maximum is the first one, or it was reached at a time.
Attained : ℤ → ℤ → List Event → Type 0
Attained cnt r es =
    (t : ℕ) × (pos_part r + neg_part cnt + downs t es ≤ pos_part cnt + ups t es + neg_part r)

Attained-at_start :
    (cnt r : ℤ) (e : Event) (es : List Event)
    → e.is_start ≡ true
    → AllFrom (rank e) es
    → r ≤ℤ suc_ℤ cnt
    → Attained cnt r (e ∷ es)
unfolding Attained ups downs
Attained-at_start cnt r e es s a h =
    let (u, d, k) = start_counts e s in
    (e.time, omega (arith, u, d, downs_after e.time (rank e) es a (omega arith), suc_ℤ_parts cnt))

Attained-later :
    (cnt r : ℤ) (e : Event) (es : List Event)
    → AllFrom (rank e) es
    → Attained (next_cnt cnt e) r es
    → Attained cnt r (e ∷ es)
unfolding Attained
Attained-later cnt r e es a (t, h) = elim (Event-cases t e) [
  | inl (u, d, s, le) ↦ (
    t,
    unfold ups downs in
        omega (
          arith,
          h,
          u,
          d,
          ap pos_part (next_cnt-start cnt e s),
          ap neg_part (next_cnt-start cnt e s),
          suc_ℤ_parts cnt,
        ),
  )
  | inr (inl (u, d, s)) ↦ (
    t,
    unfold ups downs in
        omega (
          arith,
          h,
          u,
          d,
          ap pos_part (next_cnt-finish cnt e s),
          ap neg_part (next_cnt-finish cnt e s),
          pred_ℤ_parts cnt,
        ),
  )
  | inr (inr (u, d, late)) ↦ elim (Bool-cases e.is_start) [
    | inl s ↦ Attained-at_start cnt r e es s a (
        omega (
          arith,
          h,
          ups_after t (rank e) es a late,
          ap pos_part (next_cnt-start cnt e s),
          ap neg_part (next_cnt-start cnt e s),
        ))
    | inr s ↦ (
      t,
      unfold ups downs in
          omega (
            arith,
            h,
            u,
            d,
            ap pos_part (next_cnt-finish cnt e s),
            ap neg_part (next_cnt-finish cnt e s),
            pred_ℤ_parts cnt,
          ),
    )
  ]
]

sweep-Attained :
    (cnt res : ℤ) (es : List Event)
    → InOrder es
    → (sweep cnt res es ≡ res) ⊎ Attained cnt (sweep cnt res es) es
unfolding sweep
sweep-Attained cnt res [] o = inl refl
sweep-Attained cnt res (e ∷ es) (a, o) =
    elim (sweep-Attained (next_cnt cnt e) (next_res cnt res e) es o) [
      | inl same ↦ elim (next_res-cases cnt res e) [
        | inl kept ↦ inl (same ∙ kept)
        | inr (new, s) ↦ inr (
            Attained-at_start cnt (sweep (next_cnt cnt e) (next_res cnt res e) es) e es s a
              (subst (λ r. r ≤ℤ suc_ℤ cnt) (sym (same ∙ new)) (omega arith)))
      ]
      | inr later ↦
          inr (Attained-later cnt (sweep (next_cnt cnt e) (next_res cnt res e) es) e es a later)
    ]

-- If no request ends before it starts, the reported maximum is the peak: at no time do more
-- requests run, and it is 0, or at some time that many run.
pub determine_max_req_count-IsPeak :
    (m : List (ℕ × Entry))
    → AllTimed m
    → ((t : ℕ) → pos (active_at t m) ≤ℤ determine_max_req_count m)
      × ((determine_max_req_count m ≡ pos 0)
          ⊎ ((t : ℕ) × (determine_max_req_count m ≤ℤ pos (active_at t m))))
unfolding determine_max_req_count Attained
determine_max_req_count-IsPeak m h =
    let es = sort_by event_less (events m) in
    let o = InOrder-sort_by (events m) in
    (
      λ t. omega (
        arith,
        sweep-upper t (pos 0) (pos 0) es o (omega arith),
        ups-sort_by t (events m),
        downs-sort_by t (events m),
        active_at-events t m h,
      ),
      elim (sweep-Attained (pos 0) (pos 0) es o) [
        | inl none' ↦ inl none'
        | inr (t, reached) ↦ inr (
          t,
          omega (
            arith,
            reached,
            ups-sort_by t (events m),
            downs-sort_by t (events m),
            active_at-events t m h,
          ),
        )
      ],
    )
