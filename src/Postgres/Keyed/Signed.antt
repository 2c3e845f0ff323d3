-- ===== src/Postgres/Keyed/Signed.antt =====
-- page2 and parseIntContinuationToken of app/db/postgres/common.go, which page by signed ids, and the
-- selection of resources/scripts/api/addressBalanceUpdates.sql, the one script that page2 runs.
mod Examples
use idena_indexer_api.Prelude.{
  ℕ, zero, suc, ◌+◌, ◌-◌, ◌^◌, ◌≤◌, ◌<◌, ◌≡◌, refl, inl, inr, Bool, true, false, Option, none, some,
  List, [], ◌∷◌, arith, if◌then◌else◌, ◌==◌, ltb, leb, length, take, drop, List-cases,
}
use idena_indexer_api.Prelude.Int.{ℤ, pos, negsuc, ltb_ℤ, leb_ℤ}
use idena_indexer_api.Prelude.Text.{Text}
use idena_indexer_api.Prelude.Decimal.{
  itoa, format_uint, parse_uint, digits_value, digit_step, in_u64, parse_uint-format_uint,
}
use idena_indexer_api.Prelude.Result.{Result, ok, err}
use idena_indexer_api.Postgres.Paging.{PageError, invalid_continuation_token}
use idena_indexer_api.Postgres.Keyed.{keyed_page}
use idena_indexer_api.Postgres.Keyed.Script.{Script, run_keyed, IsSorted}
use idena_indexer_api.Postgres.Keyed.Page.{Tokens, values, token_behind, HaveTokens, keyed_page_lem}

-- ParseInt of Go's strconv in base 10 for 64 bits: the sign, then the range of what ParseUint reads.
unfoldable pub positive : Option ℕ → Option ℤ
positive none = none
positive (some n) = if ltb n (2 ^ 63) then some (pos n) else none

unfoldable pub negative : Option ℕ → Option ℤ
negative none = none
negative (some zero) = some (pos 0)
negative (some (suc n)) = if ltb n (2 ^ 63) then some (negsuc n) else none

unfoldable pub parse_int : Text → Option ℤ
unfolding positive negative
parse_int [] = none
parse_int (c ∷ s) =
    if c == b'-'
    then negative (parse_uint s)
    else if c == b'+'
    then positive (parse_uint s)
    else positive (parse_uint (c ∷ s))

unfoldable pub parse_int_continuation_token : Option Text → Result PageError (Option ℤ)
unfolding parse_int
parse_int_continuation_token none = ok none
parse_int_continuation_token (some token) = elim (parse_int token) [
  | none ↦ err invalid_continuation_token
  | some n ↦ ok (some n)
]

-- The key of a row is the id that the reader of the rows returns for the last one.
unfoldable pub page2 :
    {A : Type 0}
    → (ℕ → Option ℤ → Result PageError (List (Option (ℤ × A))))
    → ℕ
    → Option Text
    → Result PageError (List A × Option Text)
unfolding keyed_page parse_int_continuation_token itoa
page2 query = keyed_page parse_int_continuation_token itoa query

-- `$3::bigint IS NULL OR bu.id <= $3`, by falling id
unfoldable pub updates_selects : Option ℤ → ℤ → Bool
updates_selects none id = true
updates_selects (some from) id = leb_ℤ id from

unfoldable pub updates_precedes : ℤ → ℤ → Bool
updates_precedes a b = ltb_ℤ b a

digits_value-none : (s : Text) → digits_value none s ≡ none
unfolding digits_value digit_step
digits_value-none [] = refl
digits_value-none (c ∷ s) = digits_value-none s

no_sign :
    (c n : ℕ) (s : Text)
    → parse_uint (c ∷ s) ≡ some n
    → ((c == b'-') ≡ false) × ((c == b'+') ≡ false)
unfolding parse_uint digits_value digit_step in_u64
no_sign c n s h = ground (arith, digits_value-none s)

abbrev pub FitsInt64 : ℤ → Type 0
FitsInt64 (pos n) = n < 2 ^ 63
FitsInt64 (negsuc n) = n < 2 ^ 63

parse_int_pos : (n : ℕ) (s : Text) → n < 2 ^ 63 → parse_uint s ≡ some n → parse_int s ≡ some (pos n)
unfolding parse_int
parse_int_pos n [] h e = absurd (unfold parse_uint in ground arith)
parse_int_pos n (c ∷ s) h e =
    let (minus, plus) = no_sign c n s e in rw (minus, plus, e) (ground arith)

parse_int_negsuc :
    (n : ℕ) (s : Text)
    → n < 2 ^ 63
    → parse_uint s ≡ some (suc n)
    → parse_int (b'-' ∷ s) ≡ some (negsuc n)
unfolding parse_int
parse_int_negsuc n s h e = rw e (ground arith)

parse_int-itoa : (id : ℤ) → FitsInt64 id → parse_int (itoa id) ≡ some id
unfolding itoa
parse_int-itoa (pos n) h =
    parse_int_pos n (format_uint n) h (parse_uint-format_uint n (omega arith))
parse_int-itoa (negsuc n) h =
    parse_int_negsuc n (format_uint (suc n)) h (parse_uint-format_uint (suc n) (omega arith))

pub parse_int_continuation_token-itoa :
    (id : ℤ) → FitsInt64 id → parse_int_continuation_token (some (itoa id)) ≡ ok (some id)
unfolding parse_int_continuation_token
parse_int_continuation_token-itoa id h = rw (parse_int-itoa id h, parse_int_continuation_token) refl

pub parse-none : parse_int_continuation_token none ≡ ok none
unfolding parse_int_continuation_token
parse-none = refl

pub selects-start : (k : ℤ) → updates_selects none k ≡ true
unfolding updates_selects
selects-start k = refl

pub selects_self : (k : ℤ) → updates_selects (some k) k ≡ true
unfolding updates_selects
selects_self k = ground arith

pub selects_behind : (k l : ℤ) → updates_precedes k l ≡ true → updates_selects (some k) l ≡ true
unfolding updates_selects updates_precedes
selects_behind k l h = ground arith

pub selects_before : (k l : ℤ) → updates_precedes l k ≡ true → updates_selects (some k) l ≡ false
unfolding updates_selects updates_precedes
selects_before k l h = ground arith

abbrev pub updates_script : Script ℤ (Option ℤ)
updates_script = record {
  selects = updates_selects;
  precedes = updates_precedes;
  start = none;
  from = λ k. some k;
  selects-start = selects-start;
  selects_self = selects_self;
  selects_behind = selects_behind;
  selects_before = selects_before;
}

abbrev pub updates_tokens : Tokens ℤ (Option ℤ)
updates_tokens = record {
  script = updates_script;
  parse = parse_int_continuation_token;
  token_of = itoa;
  HasToken = FitsInt64;
  parse-none = parse-none;
  parse-token_of = parse_int_continuation_token-itoa;
}

-- Over a table with falling 64-bit ids, a call of page2 for `n` rows, 0 < n < 2 ^ 63 - 1, with the
-- token of the rows behind the first `k`, where k is 0 or there are more than k, returns the next `n` of
-- them, and the token of the rows behind those, or none at the end.
pub page2_lem :
    {A : Type 0} (table : List (ℤ × A)) (n k : ℕ)
    → n + 1 < 2 ^ 63
    → 0 < n
    → k ≤ length table - 1
    → IsSorted updates_script table
    → HaveTokens updates_tokens table
    → page2 (run_keyed updates_selects table) n (token_behind updates_tokens k table)
      ≡ ok (values (take n (drop k table)), token_behind updates_tokens (k + n) table)
unfolding page2
page2_lem table n k small p h sorted fit =
    keyed_page_lem updates_tokens table n k small p h sorted fit
