-- ===== src/Postgres/Keyed/Pools/Pages.antt =====
-- The pages of Pools and PoolDelegators of app/db/postgres/pools.go over tables that their scripts read.
use idena_indexer_api.Prelude.{
  ℕ, ◌+◌, ◌-◌, ◌^◌, ◌≤◌, ◌<◌, ◌≡◌, refl, sym, ap, ◌∙◌, true, false, Option, none, some, List, [],
  ◌∷◌, map, arith, length, take, drop,
}
use idena_indexer_api.Prelude.Text.{Text}
use idena_indexer_api.Prelude.Decimal.{u64_mod, format_uint, parse_uint, parse_uint-format_uint}
use idena_indexer_api.Prelude.Result.{ok}
use idena_indexer_api.Postgres.Paging.{parse_uint_continuation_token}
use idena_indexer_api.Postgres.Tokens.RoundTrip.{split_dash-two, has_no_dash-format_uint}
use idena_indexer_api.Postgres.Rewards.{}
use idena_indexer_api.Postgres.Keyed.{parse_numbers, of_number_parts, numbers_token}
use idena_indexer_api.Postgres.Keyed.Script.{Script, run_keyed, IsSorted}
use idena_indexer_api.Postgres.Keyed.Page.{Tokens, values, token_behind, HaveTokens, keyed_page_lem}
use idena_indexer_api.Postgres.Keyed.Pools.{
  scan_pool, pools, pools_selects, pools_precedes, Delegator, pool_delegators, delegators_selects,
  delegators_precedes,
}

abbrev pub of_numbers : ℕ × ℕ → Option ℕ × Option ℕ
of_numbers (i, n) = (some i, some n)

abbrev pub FitNumbers : ℕ × ℕ → Type 0
FitNumbers k = (k.0 < u64_mod) × (k.1 < u64_mod)

pub pools_selects-start : (k : ℕ × ℕ) → pools_selects (none, none) k ≡ true
unfolding pools_selects
pools_selects-start k = refl

pub delegators_selects-start : (k : ℕ × ℕ) → delegators_selects (none, none) k ≡ true
unfolding delegators_selects
delegators_selects-start k = refl

pub parse_numbers-none : parse_numbers none ≡ ok (none, none)
unfolding parse_numbers
parse_numbers-none = refl

of_number_parts_two :
    (s t : Text) (n m : ℕ)
    → parse_uint s ≡ some n
    → parse_uint t ≡ some m
    → of_number_parts (s ∷ t ∷ []) ≡ ok (some n, some m)
unfolding parse_uint_continuation_token
of_number_parts_two s t n m h k = ground (arith, h, k)

pub parse_numbers-numbers_token :
    (k : ℕ × ℕ) → FitNumbers k → parse_numbers (some (numbers_token k)) ≡ ok (of_numbers k)
unfolding parse_numbers numbers_token
parse_numbers-numbers_token (i, n) (h, g) =
    rw
      (split_dash-two (format_uint i) (format_uint n) (has_no_dash-format_uint i)
        (has_no_dash-format_uint n))
      (of_number_parts_two (format_uint i) (format_uint n) i n (parse_uint-format_uint i h)
        (parse_uint-format_uint n g))

abbrev number_tokens :
    (script : Script (ℕ × ℕ) (Option ℕ × Option ℕ))
    → script.start ≡ (none, none)
    → ((k : ℕ × ℕ) → script.from k ≡ of_numbers k)
    → Tokens (ℕ × ℕ) (Option ℕ × Option ℕ)
number_tokens script h g = record {
  script = script;
  parse = parse_numbers;
  token_of = numbers_token;
  HasToken = FitNumbers;
  parse-none = rw h parse_numbers-none;
  parse-token_of = λ k fit. parse_numbers-numbers_token k fit ∙ ap ok (sym (g k));
}

pub pools_selects_self : (k : ℕ × ℕ) → pools_selects (of_numbers k) k ≡ true
unfolding pools_selects
pools_selects_self (i, s) = ground arith

pub pools_selects_behind :
    (k l : ℕ × ℕ) → pools_precedes k l ≡ true → pools_selects (of_numbers k) l ≡ true
unfolding pools_selects pools_precedes
pools_selects_behind (i, s) (j, t) h = ground arith

pub pools_selects_before :
    (k l : ℕ × ℕ) → pools_precedes l k ≡ true → pools_selects (of_numbers k) l ≡ false
unfolding pools_selects pools_precedes
pools_selects_before (i, s) (j, t) h = ground arith

pub delegators_selects_self : (k : ℕ × ℕ) → delegators_selects (of_numbers k) k ≡ true
unfolding delegators_selects
delegators_selects_self (i, s) = ground arith

pub delegators_selects_behind :
    (k l : ℕ × ℕ) → delegators_precedes k l ≡ true → delegators_selects (of_numbers k) l ≡ true
unfolding delegators_selects delegators_precedes
delegators_selects_behind (i, s) (j, t) h = ground arith

pub delegators_selects_before :
    (k l : ℕ × ℕ) → delegators_precedes l k ≡ true → delegators_selects (of_numbers k) l ≡ false
unfolding delegators_selects delegators_precedes
delegators_selects_before (i, s) (j, t) h = ground arith

abbrev pub pools_script : Script (ℕ × ℕ) (Option ℕ × Option ℕ)
pools_script = record {
  selects = pools_selects;
  precedes = pools_precedes;
  start = (none, none);
  from = of_numbers;
  selects-start = pools_selects-start;
  selects_self = pools_selects_self;
  selects_behind = pools_selects_behind;
  selects_before = pools_selects_before;
}

abbrev pub delegators_script : Script (ℕ × ℕ) (Option ℕ × Option ℕ)
delegators_script = record {
  selects = delegators_selects;
  precedes = delegators_precedes;
  start = (none, none);
  from = of_numbers;
  selects-start = delegators_selects-start;
  selects_self = delegators_selects_self;
  selects_behind = delegators_selects_behind;
  selects_before = delegators_selects_before;
}

abbrev pub pools_tokens : Tokens (ℕ × ℕ) (Option ℕ × Option ℕ)
pools_tokens = number_tokens pools_script refl (λ k. refl)

abbrev pub delegators_tokens : Tokens (ℕ × ℕ) (Option ℕ × Option ℕ)
delegators_tokens = number_tokens delegators_script refl (λ k. refl)

-- Over a table in the order of pools.sql, by falling size and then by id, whose ids and sizes fit 64
-- bits, a call of Pools for `n` rows, 0 < n < 2 ^ 63 - 1, with the token of the rows behind the first
-- `k`, where k is 0 or there are more than k, returns the next `n` of them, and the token of the rows
-- behind those, or none at the end.
pub pools-page :
    (columns : List (ℕ × Text × ℕ)) (n k : ℕ)
    → n + 1 < 2 ^ 63
    → 0 < n
    → k ≤ length (map scan_pool columns) - 1
    → IsSorted pools_script (map scan_pool columns)
    → HaveTokens pools_tokens (map scan_pool columns)
    → pools
        (run_keyed pools_selects (map scan_pool columns))
        n
        (token_behind pools_tokens k (map scan_pool columns))
      ≡ ok (
        values (take n (drop k (map scan_pool columns))),
        token_behind pools_tokens (k + n) (map scan_pool columns),
      )
unfolding pools
pools-page columns n k small p h sorted fit =
    keyed_page_lem pools_tokens (map scan_pool columns) n k small p h sorted fit

-- Over the delegations of a pool in the order of poolDelegators.sql, by birth epoch and then by id, a
-- call of PoolDelegators with the token of the rows behind the first `k` returns the next `n`.
pub pool_delegators-page :
    {Decimal : Type 0} (tables : Text → List ((ℕ × ℕ) × Delegator Decimal)) (address : Text)
    (n k : ℕ)
    → n + 1 < 2 ^ 63
    → 0 < n
    → k ≤ length (tables address) - 1
    → IsSorted delegators_script (tables address)
    → HaveTokens delegators_tokens (tables address)
    → pool_delegators
        (λ pool. run_keyed delegators_selects (tables pool))
        address
        n
        (token_behind delegators_tokens k (tables address))
      ≡ ok (
        values (take n (drop k (tables address))),
        token_behind delegators_tokens (k + n) (tables address),
      )
unfolding pool_delegators
pool_delegators-page tables address n k small p h sorted fit =
    keyed_page_lem delegators_tokens (tables address) n k small p h sorted fit
