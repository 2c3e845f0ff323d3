-- ===== src/Postgres/Paging/Walk.antt =====
-- A client that follows the continuation tokens of page of app/db/postgres/common.go, over a script
-- that selects by id as resources/scripts/api/identityTxs.sql does.
use idena_indexer_api.Prelude.{
  ℕ, zero, suc, ◌+◌, ◌^◌, ◌≤◌, ◌<◌, ◌≡◌, refl, sym, ap, ◌∙◌, Option, none, some, List, [], ◌∷◌,
  ◌++◌, List-cases, inl, inr, append_assoc, append-nil, arith, length, take, drop, take-append-drop,
  length-map, length-take, length-drop,
}
use mathlib.Core.Path.{subst}
use mathlib.Core.List.{map-append}
use idena_indexer_api.Prelude.Text.{Text}
use idena_indexer_api.Prelude.Decimal.{format_uint, u64_mod, parse_uint-format_uint}
use idena_indexer_api.Prelude.Result.{Result, ok, err}
use idena_indexer_api.Postgres.Paging.{PageError, Row, parse_uint_continuation_token, page}
use idena_indexer_api.Postgres.Paging.Script.{
  from_id, run_script, items, IsDescending, from_id_suffix, Selects, page_last, page_more,
}

module _ {A : Type 0} where
  -- Following the tokens, for as many pages as there is fuel.
  pub walk :
      (ℕ → Option ℕ → Result PageError (List (Row A)))
      → ℕ
      → ℕ
      → Option Text
      → Option (List (List A))
  walk query count zero token = none
  walk query count (suc fuel) token = elim (page query count token) [
    | err e ↦ none
    | ok (res, next) ↦ elim next [
      | none ↦ some (res ∷ [])
      | some t ↦ elim (walk query count fuel (some t)) [
        | none ↦ none
        | some pages ↦ some (res ∷ pages)
      ]
    ]
  ]

  -- Every id fits 64 bits.
  abbrev pub Fits : List (ℕ × A) → Type 0
  Fits [] = Unit
  Fits (e ∷ es) = (e.0 < u64_mod) × Fits es

  Fits-middle :
      (before : List (ℕ × A)) (e : ℕ × A) (t : List (ℕ × A))
      → Fits (before ++ e ∷ t)
      → e.0 < u64_mod
  Fits-middle [] e t h = h.0
  Fits-middle (f ∷ before) e t h = Fits-middle before e t h.1

  Selects-format :
      (before : List (ℕ × A)) (e : ℕ × A) (t : List (ℕ × A))
      → IsDescending (before ++ e ∷ t)
      → Fits (before ++ e ∷ t)
      → Selects (before ++ e ∷ t) (some (format_uint e.0)) (e ∷ t)
  Selects-format before e t d f = record {
    id = some e.0;
    parses =
        unfold parse_uint_continuation_token in
        rw (parse_uint-format_uint e.0 (Fits-middle before e t f), parse_uint_continuation_token);
    selects = from_id_suffix before e t d;
  }

  abbrev pub flat : List (List A) → List A
  flat [] = []
  flat (xs ∷ xss) = xs ++ flat xss

  abbrev pub AllShort : ℕ → List (List A) → Type 0
  AllShort n [] = Unit
  AllShort n (xs ∷ xss) = (length xs ≤ n) × AllShort n xss

  module _ (table : List (ℕ × A)) (n : ℕ) (small : n + 1 < 2 ^ 63) (d : IsDescending table)
      (fits : Fits table) where
    -- The rest of the table behind the items of one page.
    regroup :
        (before rest : List (ℕ × A)) (e : ℕ × A) (more : List (ℕ × A))
        → table ≡ before ++ rest
        → drop n rest ≡ e ∷ more
        → table ≡ (before ++ take n rest) ++ e ∷ more
    regroup before rest e more h k =
        h
        ∙ ap (λ r. before ++ r) (sym (take-append-drop n rest) ∙ ap (λ r. take n rest ++ r) k)
        ∙ sym (append_assoc before (take n rest) (e ∷ more))

    Selects-next :
        (before : List (ℕ × A)) (e : ℕ × A) (more : List (ℕ × A))
        → table ≡ before ++ e ∷ more
        → Selects table (some (format_uint e.0)) (e ∷ more)
    Selects-next before e more h =
        subst (λ t. Selects t (some (format_uint e.0)) (e ∷ more)) (sym h)
          (Selects-format before e more (subst IsDescending h d) (subst Fits h fits))

    walk_from :
        (fuel : ℕ) (before rest : List (ℕ × A)) (token : Option Text)
        → table ≡ before ++ rest
        → Selects table token rest
        → 0 < n
        → length rest < fuel
        → (pages : List (List A)) × (walk (run_script table) n fuel token ≡ some pages)
          × (flat pages ≡ items rest)
          × AllShort n pages
    unfolding walk
    walk_from zero before rest token e s p h = absurd (omega arith)
    walk_from (suc fuel) before rest token e s p h = elim (List-cases (drop n rest)) [
      | inl last ↦
          let short : length rest ≤ n = omega (arith, length-drop n rest, ap length last) in
          (
            items rest ∷ [],
            rw (page_last table rest token n small s short, walk) refl,
            append-nil (items rest),
            (omega (arith, length-map rest (λ (e : ℕ × A). e.1)), tt),
          )
      | inr (f, more, k) ↦
          let e' = regroup before rest f more e k in
          let shorter : length (f ∷ more) < fuel = omega (arith, length-drop n rest, ap length k) in
          let (pages, walks, all, fit) =
            walk_from fuel (before ++ take n rest) (f ∷ more) (some (format_uint f.0)) e'
              (Selects-next (before ++ take n rest) f more e') p shorter in
          (
            items (take n rest) ∷ pages,
            rw (page_more table rest token n small s f more k, walks, walk) refl,
            ap (λ r. items (take n rest) ++ r) (all ∙ ap items (sym k))
                ∙ sym (map-append (λ (e : ℕ × A). e.1) (take n rest) (drop n rest))
                ∙ ap items (take-append-drop n rest),
            (omega (arith, length-map (take n rest) (λ (e : ℕ × A). e.1), length-take n rest), fit),
          )
    ]

  -- Over a table whose ids fall strictly and fit 64 bits, a client that asks for pages of `n`
  -- items, 0 < n < 2 ^ 63 - 1, and follows the tokens gets, with as many requests as there are rows
  -- and one more, pages of at most `n` items that make up the whole table, in order and each row
  -- once; no token is refused, and the last page has none.
  pub walk_complete :
      (table : List (ℕ × A)) (n fuel : ℕ)
      → n + 1 < 2 ^ 63
      → 0 < n
      → IsDescending table
      → Fits table
      → length table < fuel
      → (pages : List (List A)) × (walk (run_script table) n fuel none ≡ some pages)
        × (flat pages ≡ items table)
        × AllShort n pages
  walk_complete table n fuel small p d fits h =
      walk_from table n small d fits fuel [] table none refl
        (record {
          id = none;
          parses = unfold parse_uint_continuation_token in refl;
          selects = unfold from_id in refl;
        })
        p h
