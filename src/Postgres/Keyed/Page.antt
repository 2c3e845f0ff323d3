-- ===== src/Postgres/Keyed/Page.antt =====
-- The pages of the readers of app/db/postgres with keys of two parts, over a table that their script
-- reads.
use idena_indexer_api.Prelude.{
  ℕ, zero, suc, ◌+◌, ◌-◌, ◌%◌, ◌^◌, ◌≤◌, ◌<◌, ◌≡◌, refl, sym, ap, ◌∙◌, inl, inr, Option, none, some,
  List, [], ◌∷◌, ◌++◌, map, arith, length, take, drop, All, All_middle, length-map, length-take,
  length-drop, take_whole, take-suc, take-append-drop, drop-drop, List-cases,
}
use mathlib.Core.Path.{subst}
use mathlib.Core.List.{map-append}
use idena_indexer_api.Prelude.Text.{Text}
use idena_indexer_api.Prelude.Decimal.{u64_mod}
use idena_indexer_api.Prelude.Result.{Result, ok}
use idena_indexer_api.Postgres.Paging.{PageError}
use idena_indexer_api.Postgres.Paging.Script.{get_res_short, get_res_full}
use idena_indexer_api.Postgres.Keyed.{read_keyed_from, cut_keyed, keyed_page}
use idena_indexer_api.Postgres.Keyed.Script.{
  Script, where_key, run_keyed, IsSorted, where_key-start, where_key_suffix,
}

-- A reader's tokens over its script: the token of a key that can be printed is read as the arguments of
-- that key.
pub record Tokens (Key Args : Type 0) : Type 1 where
  pub script : Script Key Args
  pub parse : Option Text → Result PageError Args
  pub token_of : Key → Text
  pub HasToken : Key → Type 0
  pub parse-none : parse none ≡ ok script.start
  pub parse-token_of : (k : Key) → HasToken k → parse (some (token_of k)) ≡ ok (script.from k)

abbrev pub values : {Key A : Type 0} → List (Key × A) → List A
values = map (λ e. e.1)

module _ {Key A : Type 0} where
  read_keyed-last :
      (k : Option Key) (t : List (Key × A)) (e : Key × A)
      → read_keyed_from k (map (λ f. some f) (t ++ e ∷ [])) ≡ ok (values (t ++ e ∷ []), some e.0)
  unfolding read_keyed_from
  read_keyed-last k [] e = refl
  read_keyed-last k (f ∷ t) e = rw (read_keyed-last (some f.0) t e) refl

  read_keyed-total :
      (k : Option Key) (t : List (Key × A))
      → (last : Option Key) × (read_keyed_from k (map (λ f. some f) t) ≡ ok (values t, last))
  unfolding read_keyed_from
  read_keyed-total k [] = (k, refl)
  read_keyed-total k (e ∷ t) = let (last, h) = read_keyed-total (some e.0) t in (last, rw h refl)

  cut_keyed_short :
      (token_of : Key → Text) (n : ℕ) (xs : List A) (last : Option Key)
      → n + 1 < 2 ^ 63
      → length xs ≤ n
      → cut_keyed token_of n xs last ≡ (xs, none)
  unfolding cut_keyed
  cut_keyed_short token_of n xs none small h = refl
  cut_keyed_short token_of n xs (some k) small h = get_res_short (token_of k) n xs small h

module _ {Key Args A : Type 0} (tokens : Tokens Key Args) where
  open tokens use {script, parse, token_of, HasToken}

  abbrev token_at : List (Key × A) → Option Text
  token_at [] = none
  token_at (e ∷ t) = some (token_of e.0)

  -- The token that stands for the rows behind the first `k`.
  abbrev pub token_behind : ℕ → List (Key × A) → Option Text
  token_behind zero table = none
  token_behind (suc k) table = token_at (drop (suc k) table)

  abbrev pub HaveTokens : List (Key × A) → Type 0
  HaveTokens = All (λ e. HasToken e.0)

  -- The reader over a table.
  abbrev pub page_of : List (Key × A) → ℕ → Option Text → Result PageError (List A × Option Text)
  page_of table = keyed_page parse token_of (run_keyed script.selects table)

  module _ (table : List (Key × A)) where
    record Marks (token : Option Text) (rest : List (Key × A)) : Type 0 where
      args : Args
      parses : parse token ≡ ok args
      selects : where_key (script.selects args) table ≡ rest

    Marks-none : Marks none table
    Marks-none = record {
      args = script.start;
      parses = tokens.parse-none;
      selects = where_key-start script table;
    }

    Marks-token_at :
        (before : List (Key × A)) (e : Key × A) (t : List (Key × A))
        → table ≡ before ++ e ∷ t
        → IsSorted script table
        → HaveTokens table
        → Marks (token_at (e ∷ t)) (e ∷ t)
    Marks-token_at before e t h sorted has = record {
      args = script.from e.0;
      parses =
          tokens.parse-token_of e.0
            (All_middle (λ f. HasToken f.0) before e t (subst HaveTokens h has));
      selects = rw h (where_key_suffix script before e t (subst (IsSorted script) h sorted));
    }

    Marks-token_behind :
        (k : ℕ)
        → k ≤ length table - 1
        → IsSorted script table
        → HaveTokens table
        → Marks (token_behind k table) (drop k table)
    Marks-token_behind zero h sorted has = Marks-none
    Marks-token_behind (suc k) h sorted has = elim (List-cases (drop (suc k) table)) [
      | inl none_left ↦ absurd (omega (arith, length-drop (suc k) table, ap length none_left))
      | inr (e, t, cut) ↦ rw cut (
          Marks-token_at (take (suc k) table) e t
            (sym (take-append-drop (suc k) table) ∙ ap (λ r. take (suc k) table ++ r) cut) sorted
            has)
    ]

    module _ (rest : List (Key × A)) (token : Option Text) (n : ℕ) (small : n + 1 < 2 ^ 63)
        (marks : Marks token rest) where
      page_rows :
          (xs : List A) (last : Option Key)
          → read_keyed_from none (map (λ f. some f) (take (suc n) rest)) ≡ ok (xs, last)
          → page_of table n token ≡ ok (cut_keyed token_of n xs last)
      page_rows xs last h =
          let limit : (n + 1) % u64_mod ≡ suc n = omega arith in
          unfold keyed_page run_keyed in rw (marks.parses, limit, marks.selects, h) refl

      page_last : drop n rest ≡ [] → page_of table n token ≡ ok (values (take n rest), none)
      page_last h =
          let short : length rest ≤ n = omega (arith, length-drop n rest, ap length h) in
          let (last, reads) = read_keyed-total none rest in
          page_rows (values rest) last (rw (take_whole rest (suc n) (omega arith)) reads)
          ∙ ap ok (
              cut_keyed_short token_of n (values rest) last small
                (omega (arith, length-map rest (λ (e : Key × A). e.1))))
          ∙ ap (λ t. ok (values t, none)) (sym (take_whole rest n short))

      page_more :
          (e : Key × A) (more : List (Key × A))
          → drop n rest ≡ e ∷ more
          → page_of table n token ≡ ok (values (take n rest), token_at (e ∷ more))
      page_more e more h =
          let full : length (take n rest) ≡ n =
            omega (arith, length-take n rest, length-drop n rest, ap length h) in
          page_rows (values (take n rest ++ e ∷ [])) (some e.0)
            (rw (take-suc n rest h) (read_keyed-last none (take n rest) e))
          ∙ ap ok (
              unfold cut_keyed in
              rw map-append (
                get_res_full (token_of e.0) n (values (take n rest)) e.1 small
                  (length-map (take n rest) (λ (e : Key × A). e.1) ∙ full)))

      page_lem : page_of table n token ≡ ok (values (take n rest), token_at (drop n rest))
      page_lem = elim (List-cases (drop n rest)) [
        | inl none_left ↦ rw none_left (page_last none_left)
        | inr (e, more, h) ↦ rw h (page_more e more h)
      ]

    token_behind_more : (m : ℕ) → 0 < m → token_at (drop m table) ≡ token_behind m table
    token_behind_more zero h = absurd (omega arith)
    token_behind_more (suc m) h = refl

    -- A call for `n` rows with the token of the rows behind the first `k` returns the next `n`, and
    -- the token of what stands behind those.
    pub keyed_page_lem :
        (n k : ℕ)
        → n + 1 < 2 ^ 63
        → 0 < n
        → k ≤ length table - 1
        → IsSorted script table
        → HaveTokens table
        → page_of table n (token_behind k table)
          ≡ ok (values (take n (drop k table)), token_behind (k + n) table)
    keyed_page_lem n k small p h sorted has =
        page_lem (drop k table) (token_behind k table) n small (Marks-token_behind k h sorted has)
        ∙ ap (λ t. ok (values (take n (drop k table)), t))
            (ap token_at (drop-drop k n table) ∙ token_behind_more (k + n) (omega arith))
