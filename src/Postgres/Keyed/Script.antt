-- ===== src/Postgres/Keyed/Script.antt =====
-- The scripts that the readers of app/db/postgres with keys of two parts run: the rows from a key on, in
-- the order of the keys.
use idena_indexer_api.Prelude.{
  ℕ, ◌≡◌, refl, Bool, true, false, Option, some, List, [], ◌∷◌, ◌++◌, map, take, if◌then◌else◌, All,
  All_middle,
}
use idena_indexer_api.Prelude.Result.{Result, ok}
use idena_indexer_api.Postgres.Paging.{PageError}

-- The condition of a script, with its order: the arguments that a key becomes select the row of the key
-- and what stands behind it.
pub record Script (Key Args : Type 0) : Type 0 where
  pub selects : Args → Key → Bool
  pub precedes : Key → Key → Bool
  pub start : Args
  pub from : Key → Args
  pub selects-start : (k : Key) → selects start k ≡ true
  pub selects_self : (k : Key) → selects (from k) k ≡ true
  pub selects_behind : (k l : Key) → precedes k l ≡ true → selects (from k) l ≡ true
  pub selects_before : (k l : Key) → precedes l k ≡ true → selects (from k) l ≡ false

-- WHERE with a test on the key of a row.
unfoldable pub where_key : {Key A : Type 0} → (Key → Bool) → List (Key × A) → List (Key × A)
where_key test [] = []
where_key test (e ∷ t) = let rest = where_key test t in if test e.0 then e ∷ rest else rest

-- The rows of a table that meet the condition, at most `limit` of them.
unfoldable pub run_keyed :
    {Key Args A : Type 0}
    → (Args → Key → Bool)
    → List (Key × A)
    → ℕ
    → Args
    → Result PageError (List (Option (Key × A)))
unfolding where_key
run_keyed selects table limit args =
    ok (map (λ e. some e) (take limit (where_key (selects args) table)))

module _ {Key Args A : Type 0} (script : Script Key Args) where
  open script use {selects, precedes, start, from}

  abbrev pub IsSorted : List (Key × A) → Type 0
  IsSorted [] = Unit
  IsSorted (e ∷ es) = All (λ f. precedes e.0 f.0 ≡ true) es × IsSorted es

  pub where_key-start : (t : List (Key × A)) → where_key (selects start) t ≡ t
  unfolding where_key
  where_key-start [] = refl
  where_key-start (e ∷ t) = rw (script.selects-start e.0, where_key-start t) refl

  where_key_behind :
      (e : Key × A) (t : List (Key × A))
      → All (λ f. precedes e.0 f.0 ≡ true) t
      → where_key (selects (from e.0)) t ≡ t
  unfolding where_key
  where_key_behind e [] h = refl
  where_key_behind e (f ∷ t) (h, hs) =
      rw (script.selects_behind e.0 f.0 h, where_key_behind e t hs) refl

  pub where_key_suffix :
      (before : List (Key × A)) (e : Key × A) (t : List (Key × A))
      → IsSorted (before ++ e ∷ t)
      → where_key (selects (from e.0)) (before ++ e ∷ t) ≡ e ∷ t
  unfolding where_key
  where_key_suffix [] e t (h, s) = rw (script.selects_self e.0, where_key_behind e t h) refl
  where_key_suffix (f ∷ before) e t (h, s) =
      rw (script.selects_before e.0 f.0 (All_middle (λ g. precedes f.0 g.0 ≡ true) before e t h))
        (where_key_suffix before e t s)
