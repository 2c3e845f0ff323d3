-- ===== src/Monitoring/Timeline.antt =====
-- The starts and finishes of the records of app/monitoring/performance.go in the order of their times.
use idena_indexer_api.Prelude.{
  ℕ, ◌+◌, ◌*◌, ◌≤◌, ◌<◌, ◌≡◌, refl, Bool, true, false, Option, none, some, List, [], ◌∷◌, arith,
  if◌then◌else◌, ltb, leb,
}
use idena_indexer_api.Prelude.Int.{ℤ, ◌≤ℤ◌, suc_ℤ_parts, pred_ℤ_parts}
use idena_indexer_api.Monitoring.Sorting.{insert_by, sort_by}
use idena_indexer_api.Monitoring.{Entry, Event, event_less, events, next_cnt, next_res, sweep}

-- An entry runs at a time from its start to its finish, both included.
abbrev runs_at : ℕ → Entry → Bool
runs_at t e = if leb e.start t then elim e.finish [ none ↦ true | some f ↦ leb t f ] else false

-- The number of entries that run at a time.
pub active_at : ℕ → List (ℕ × Entry) → ℕ
active_at t [] = 0
active_at t ((id, e) ∷ m) = (if runs_at t e then 1 else 0) + active_at t m

-- No entry finishes before it starts.
abbrev IsTimed : Option ℕ → ℕ → Type 0
IsTimed none s = Unit
IsTimed (some f) s = s ≤ f

abbrev pub AllTimed : List (ℕ × Entry) → Type 0
AllTimed [] = Unit
AllTimed ((id, e) ∷ m) = IsTimed e.finish e.start × AllTimed m

-- The starts up to a time, and the finishes before it.
abbrev pub is_up : ℕ → Event → ℕ
is_up t e = if e.is_start then (if leb e.time t then 1 else 0) else 0

abbrev pub is_down : ℕ → Event → ℕ
is_down t e = if e.is_start then 0 else if ltb e.time t then 1 else 0

unfoldable pub ups : ℕ → List Event → ℕ
ups t [] = 0
ups t (e ∷ es) = is_up t e + ups t es

unfoldable pub downs : ℕ → List Event → ℕ
downs t [] = 0
downs t (e ∷ es) = is_down t e + downs t es

ups-insert_by :
    (t : ℕ) (e : Event) (es : List Event) → ups t (insert_by event_less e es) ≡ is_up t e + ups t es
unfolding ups insert_by
ups-insert_by t e [] = refl
ups-insert_by t e (f ∷ es) = ground (arith, ups-insert_by t e es)

downs-insert_by :
    (t : ℕ) (e : Event) (es : List Event)
    → downs t (insert_by event_less e es) ≡ is_down t e + downs t es
unfolding downs insert_by
downs-insert_by t e [] = refl
downs-insert_by t e (f ∷ es) = ground (arith, downs-insert_by t e es)

pub ups-sort_by : (t : ℕ) (es : List Event) → ups t (sort_by event_less es) ≡ ups t es
unfolding ups sort_by
ups-sort_by t [] = refl
ups-sort_by t (e ∷ es) = omega (arith, ups-insert_by t e (sort_by event_less es), ups-sort_by t es)

pub downs-sort_by : (t : ℕ) (es : List Event) → downs t (sort_by event_less es) ≡ downs t es
unfolding downs sort_by
downs-sort_by t [] = refl
downs-sort_by t (e ∷ es) =
    omega (arith, downs-insert_by t e (sort_by event_less es), downs-sort_by t es)

pub active_at-events :
    (t : ℕ) (m : List (ℕ × Entry))
    → AllTimed m
    → active_at t m + downs t (events m) ≡ ups t (events m)
unfolding active_at ups downs events
active_at-events t [] h = refl
active_at-events t ((id, e) ∷ m) (h, hs) = ground (arith, active_at-events t m hs)

-- Events are in order: by time, and starts first.
abbrev pub rank : Event → ℕ
rank e = 2 * e.time + (if e.is_start then 0 else 1)

abbrev pub AllFrom : ℕ → List Event → Type 0
AllFrom r [] = Unit
AllFrom r (e ∷ es) = (r ≤ rank e) × AllFrom r es

abbrev pub InOrder : List Event → Type 0
InOrder [] = Unit
InOrder (e ∷ es) = AllFrom (rank e) es × InOrder es

pub AllFrom-le : (r s : ℕ) (es : List Event) → r ≤ s → AllFrom s es → AllFrom r es
AllFrom-le r s [] h a = tt
AllFrom-le r s (e ∷ es) h (b, a) = (omega arith, AllFrom-le r s es h a)

AllFrom-insert_by :
    (r : ℕ) (e : Event) (es : List Event)
    → r ≤ rank e
    → AllFrom r es
    → AllFrom r (insert_by event_less e es)
unfolding insert_by
AllFrom-insert_by r e [] h a = (h, tt)
AllFrom-insert_by r e (f ∷ es) h (b, a) = ground (arith, AllFrom-insert_by r e es h a)

InOrder-insert_by : (e : Event) (es : List Event) → InOrder es → InOrder (insert_by event_less e es)
unfolding insert_by
InOrder-insert_by e [] o = (tt, tt)
InOrder-insert_by e (f ∷ es) (a, o) = ground (
  arith,
  InOrder-insert_by e es o,
  AllFrom-insert_by (rank f) e es,
  AllFrom-le (rank e) (rank f) es,
  a,
  o,
)

pub InOrder-sort_by : (es : List Event) → InOrder (sort_by event_less es)
unfolding sort_by
InOrder-sort_by [] = tt
InOrder-sort_by (e ∷ es) = InOrder-insert_by e (sort_by event_less es) (InOrder-sort_by es)

-- What comes after a time has no start up to it, and no finish before it.
pub ups_after : (t r : ℕ) (es : List Event) → AllFrom r es → 2 * t < r → ups t es ≡ 0
unfolding ups
ups_after t r [] a h = refl
ups_after t r (e ∷ es) (b, a) h = ground (arith, ups_after t r es a h)

pub downs_after : (t r : ℕ) (es : List Event) → AllFrom r es → 2 * t ≤ r → downs t es ≡ 0
unfolding downs
downs_after t r [] a h = refl
downs_after t r (e ∷ es) (b, a) h = ground (arith, downs_after t r es a h)

pub ≤ℤ_trans : (a b c : ℤ) → a ≤ℤ b → b ≤ℤ c → a ≤ℤ c
≤ℤ_trans a b c h k = omega arith

pub next_res-ge : (cnt res : ℤ) (e : Event) → res ≤ℤ next_res cnt res e
next_res-ge cnt res e = ground arith

pub sweep-ge : (cnt res : ℤ) (es : List Event) → res ≤ℤ sweep cnt res es
unfolding sweep
sweep-ge cnt res [] = omega arith
sweep-ge cnt res (e ∷ es) =
    ≤ℤ_trans res (next_res cnt res e) (sweep (next_cnt cnt e) (next_res cnt res e) es)
      (next_res-ge cnt res e) (sweep-ge (next_cnt cnt e) (next_res cnt res e) es)

pub next-le : (cnt res : ℤ) (e : Event) → cnt ≤ℤ res → next_cnt cnt e ≤ℤ next_res cnt res e
next-le cnt res e h = ground (arith, suc_ℤ_parts cnt, pred_ℤ_parts cnt)

-- Whether an event counts at a time.
