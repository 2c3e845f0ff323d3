-- ===== src/Postgres/Paging/Script.antt =====
-- One page of a script that selects by id, as resources/scripts/api/identityTxs.sql does, through page of
-- app/db/postgres/common.go.
use idena_indexer_api.Prelude.{
  ℕ, suc, ◌+◌, ◌-◌, ◌%◌, ◌^◌, ◌≤◌, ◌<◌, ◌≡◌, refl, ap, ◌∙◌, Option, none, some, List, [], ◌∷◌, ◌++◌,
  map, arith, if◌then◌else◌, leb, length, take, drop, length-append, length-map, length-take,
  length-drop, take_whole, take-suc, take_init,
}
use mathlib.Core.List.{map-append}
use idena_indexer_api.Prelude.Text.{Text}
use idena_indexer_api.Prelude.Decimal.{format_uint, u64_mod}
use idena_indexer_api.Prelude.Result.{Result, ok}
use idena_indexer_api.Postgres.Paging.{
  PageError, Row, row, parse_uint_continuation_token, read_rows_from, read_rows,
  get_res_with_continuation_token, page,
}

module _ {A : Type 0} where
  -- `WHERE $3::bigint IS NULL OR t.id <= $3`
  unfoldable pub from_id : Option ℕ → List (ℕ × A) → List (ℕ × A)
  from_id none t = t
  from_id (some id) [] = []
  from_id (some id) ((i, a) ∷ t) =
      let rest = from_id (some id) t in if leb i id then (i, a) ∷ rest else rest

  abbrev pub to_row : ℕ × A → Row A
  to_row (i, a) = row i a

  -- The script over a table: `order by t.id desc limit $2` after the selection.
  pub run_script : List (ℕ × A) → ℕ → Option ℕ → Result PageError (List (Row A))
  run_script table limit id = ok (map to_row (take limit (from_id id table)))

  abbrev pub items : List (ℕ × A) → List A
  items = map (λ e. e.1)

  -- The ids of a table fall strictly, and fit 64 bits.
  abbrev pub Below : ℕ → List (ℕ × A) → Type 0
  Below n [] = Unit
  Below n (e ∷ es) = (e.0 < n) × Below n es

  abbrev pub IsDescending : List (ℕ × A) → Type 0
  IsDescending [] = Unit
  IsDescending (e ∷ es) = Below e.0 es × IsDescending es

  from_id-Below : (id : ℕ) (t : List (ℕ × A)) → Below id t → from_id (some id) t ≡ t
  unfolding from_id
  from_id-Below id [] b = refl
  from_id-Below id (e ∷ t) (h, b) = ground (arith, from_id-Below id t b)

  pub Below-append :
      (n : ℕ) (before : List (ℕ × A)) (e : ℕ × A) (t : List (ℕ × A))
      → Below n (before ++ e ∷ t)
      → e.0 < n
  Below-append n [] e t b = b.0
  Below-append n (f ∷ before) e t b = Below-append n before e t b.1

  pub from_id_suffix :
      (before : List (ℕ × A)) (e : ℕ × A) (t : List (ℕ × A))
      → IsDescending (before ++ e ∷ t)
      → from_id (some e.0) (before ++ e ∷ t) ≡ e ∷ t
  unfolding from_id
  from_id_suffix [] e t (b, d) = ground (arith, from_id-Below e.0 t b)
  from_id_suffix (f ∷ before) e t (b, d) =
      ground (arith, from_id_suffix before e t d, Below-append f.0 before e t b)

  pub read_rows_from-map :
      (id : ℕ) (t : List (ℕ × A)) (e : ℕ × A)
      → read_rows_from id (map to_row (t ++ e ∷ [])) ≡ ok (items (t ++ e ∷ []), e.0)
  unfolding read_rows_from
  read_rows_from-map id [] e = refl
  read_rows_from-map id (f ∷ t) e = rw (read_rows_from-map f.0 t e) refl

  pub get_res_short :
      (token : Text) (n : ℕ) (xs : List A)
      → n + 1 < 2 ^ 63
      → length xs ≤ n
      → get_res_with_continuation_token token n xs ≡ (xs, none)
  unfolding get_res_with_continuation_token
  get_res_short token n xs small h = ground arith

  pub get_res_full :
      (token : Text) (n : ℕ) (xs : List A) (x : A)
      → n + 1 < 2 ^ 63
      → length xs ≡ n
      → get_res_with_continuation_token token n (xs ++ x ∷ []) ≡ (xs, some token)
  unfolding get_res_with_continuation_token
  get_res_full token n xs x small h =
      let longer : length (xs ++ x ∷ []) ≡ suc n = omega (arith, length-append xs (x ∷ [])) in
      let cut : take (length (xs ++ x ∷ []) - 1) (xs ++ x ∷ []) ≡ xs =
        ap (λ k. take k (xs ++ x ∷ [])) (omega arith) ∙ take_init xs x in
      ground arith

  pub read_rows_from-total :
      (id : ℕ) (t : List (ℕ × A))
      → (last : ℕ) × (read_rows_from id (map to_row t) ≡ ok (items t, last))
  unfolding read_rows_from
  read_rows_from-total id [] = (id, refl)
  read_rows_from-total id (e ∷ t) = let (last, h) = read_rows_from-total e.0 t in (last, rw h refl)

  -- The token stands for the rest of the table.
  pub record Selects (table : List (ℕ × A)) (token : Option Text) (rest : List (ℕ × A))
      : Type 0 where
    pub id : Option ℕ
    pub parses : parse_uint_continuation_token token ≡ ok id
    pub selects : from_id id table ≡ rest

  module _ (table rest : List (ℕ × A)) (token : Option Text) (n : ℕ) (small : n + 1 < 2 ^ 63)
      (s : Selects table token rest) where
    page_rows :
        (xs : List A) (last : ℕ)
        → read_rows (map to_row (take (suc n) rest)) ≡ ok (xs, last)
        → page (run_script table) n token
          ≡ ok (get_res_with_continuation_token (format_uint last) n xs)
    page_rows xs last h =
        let limit : (n + 1) % u64_mod ≡ suc n = omega arith in
        unfold page run_script in rw (s.parses, limit, s.selects, h) refl

    pub page_last : length rest ≤ n → page (run_script table) n token ≡ ok (items rest, none)
    page_last h =
        let (last, reads) = read_rows_from-total 0 rest in
        page_rows (items rest) last
          (unfold read_rows in rw (take_whole rest (suc n) (omega arith)) reads)
        ∙ ap ok (
            get_res_short (format_uint last) n (items rest) small
              (omega (arith, length-map rest (λ (e : ℕ × A). e.1))))

    pub page_more :
        (e : ℕ × A) (more : List (ℕ × A))
        → drop n rest ≡ e ∷ more
        → page (run_script table) n token ≡ ok (items (take n rest), some (format_uint e.0))
    page_more e more h =
        page_rows (items (take n rest ++ e ∷ [])) e.0
          (unfold read_rows in rw (take-suc n rest h) (read_rows_from-map 0 (take n rest) e))
        ∙ ap ok (
            rw map-append (
              get_res_full (format_uint e.0) n (items (take n rest)) e.1 small
                (length-map (take n rest) (λ (e : ℕ × A). e.1) ∙ length_take_full)))
      where
        length_take_full : length (take n rest) ≡ n
        length_take_full = omega (arith, length-take n rest, length-drop n rest, ap length h)
