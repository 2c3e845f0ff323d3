-- ===== src/Postgres/Balances/Pages.antt =====
-- The pages of Balances of app/db/postgres/balances.go over a table that its scripts,
-- resources/scripts/api/balances.sql and stakes.sql, read.
use idena_indexer_api.Prelude.{
  ℕ, zero, suc, ◌+◌, ◌-◌, ◌^◌, ◌≤◌, ◌<◌, ◌≡◌, refl, ap, ◌∙◌, inl, inr, Bool, Option, some, List, [],
  ◌∷◌, map, length, take, drop, if◌then◌else◌, Bool-cases,
}
use mathlib.Core.Path.{fun_ext}
use idena_indexer_api.Prelude.Text.{Text}
use idena_indexer_api.Prelude.Result.{Result, ok}
use idena_indexer_api.Postgres.Paging.{PageError}
use idena_indexer_api.Postgres.Tokens.{Amounts, parse_uint_and_amount_token}
use idena_indexer_api.Postgres.Keyed.{keyed_page}
use idena_indexer_api.Postgres.Keyed.Script.{where_key, run_keyed, IsSorted}
use idena_indexer_api.Postgres.Keyed.Page.{values, token_behind, HaveTokens, keyed_page_lem}
use idena_indexer_api.Postgres.Keyed.Amounts.{
  Order, key_token, from_amount, amounts_script, amounts_tokens,
}
use idena_indexer_api.Postgres.Balances.{
  Balance, sorts_by_stake, amount_by, with_key, scan_balance, balances,
}

abbrev pub keyed :
    (amounts : Amounts)
    → Bool
    → List (ℕ × Balance amounts)
    → List ((ℕ × amounts.Amount) × Balance amounts)
keyed amounts by_stake = map (with_key amounts by_stake)

module _ (amounts : Amounts) (order : Order amounts) (by_stake : Bool) where
  open amounts use {Amount}

  -- The condition of the script on a row.
  unfoldable pub selected :
      Option ℕ × Option Amount → List (ℕ × Balance amounts) → List (ℕ × Balance amounts)
  unfolding from_amount amount_by
  selected args [] = []
  selected args ((i, b) ∷ t) =
      let rest = selected args t in
      if from_amount amounts order args (i, amount_by amounts by_stake b)
      then (i, b) ∷ rest
      else rest

  -- The script over a table.
  unfoldable pub run_sorted :
      List (ℕ × Balance amounts)
      → ℕ
      → Option ℕ × Option Amount
      → Result PageError (List (Option (ℕ × Balance amounts)))
  unfolding selected
  run_sorted table limit args = ok (map (λ e. some e) (take limit (selected args table)))

  keyed-selected :
      (args : Option ℕ × Option Amount) (t : List (ℕ × Balance amounts))
      → keyed amounts by_stake (selected args t)
        ≡ where_key (from_amount amounts order args) (keyed amounts by_stake t)
  unfolding selected where_key with_key
  keyed-selected args [] = refl
  keyed-selected args ((i, b) ∷ t) =
      elim (Bool-cases (from_amount amounts order args (i, amount_by amounts by_stake b))) [
        | inl on ↦ rw on (ap (◌∷◌ ((i, amount_by amounts by_stake b), b)) (keyed-selected args t))
        | inr off ↦ rw off (keyed-selected args t)
      ]

  scanned-take :
      (n : ℕ) (t : List (ℕ × Balance amounts))
      → map (scan_balance amounts by_stake) (map (λ e. some e) (take n t))
        ≡ map (λ e. some e) (take n (keyed amounts by_stake t))
  unfolding scan_balance
  scanned-take zero t = refl
  scanned-take (suc n) [] = refl
  scanned-take (suc n) (e ∷ t) = ap (◌∷◌ (some (with_key amounts by_stake e))) (scanned-take n t)

  -- What the script gives to the loop.
  scanned-run_sorted :
      (table : List (ℕ × Balance amounts)) (limit : ℕ) (args : Option ℕ × Option Amount)
      → map (scan_balance amounts by_stake) (map (λ e. some e) (take limit (selected args table)))
        ≡ map
            (λ e. some e)
            (take limit (where_key (from_amount amounts order args) (keyed amounts by_stake table)))
  scanned-run_sorted table limit args =
      scanned-take limit (selected args table)
      ∙ ap (λ t. map (λ e. some e) (take limit t)) (keyed-selected args table)

-- Over a table in the order that sortBy asks for, whose ids fit 64 bits and whose amounts print
-- without a dash, a call of Balances for `n` rows, 0 < n < 2 ^ 63 - 1, with the token of the rows behind
-- the first `k`, where k is 0 or there are more than k, returns the next `n` of them, and the token of
-- the rows behind those, or none at the end: calls that follow the tokens return each row once, in order.
pub balances-page :
    (amounts : Amounts) (order : Order amounts) (sort_by : Option Text)
    (table : List (ℕ × Balance amounts)) (n k : ℕ)
    → n + 1 < 2 ^ 63
    → 0 < n
    → k ≤ length (keyed amounts (sorts_by_stake sort_by) table) - 1
    → IsSorted (amounts_script amounts order) (keyed amounts (sorts_by_stake sort_by) table)
    → HaveTokens (amounts_tokens amounts order) (keyed amounts (sorts_by_stake sort_by) table)
    → balances amounts
        (λ by. run_sorted amounts order by table)
        sort_by
        n
        (token_behind
          (amounts_tokens amounts order)
          k
          (keyed amounts (sorts_by_stake sort_by) table))
      ≡ ok (
        values (take n (drop k (keyed amounts (sorts_by_stake sort_by) table))),
        token_behind
            (amounts_tokens amounts order)
            (k + n)
            (keyed amounts (sorts_by_stake sort_by) table),
      )
unfolding balances run_sorted run_keyed
balances-page amounts order sort_by table n k small p h sorted has =
    ap
      (λ query. keyed_page (parse_uint_and_amount_token amounts) (key_token amounts) query n (
        token_behind (amounts_tokens amounts order) k
          (keyed amounts (sorts_by_stake sort_by) table)))
      (fun_ext (λ limit. fun_ext (λ args.
        ap ok (scanned-run_sorted amounts order (sorts_by_stake sort_by) table limit args))))
    ∙ keyed_page_lem (amounts_tokens amounts order) (keyed amounts (sorts_by_stake sort_by) table) n
        k small p h sorted has
