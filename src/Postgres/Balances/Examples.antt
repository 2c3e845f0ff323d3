-- ===== src/Postgres/Balances/Examples.antt =====
-- Pages of Balances of app/db/postgres/balances.go over a small table.
use idena_indexer_api.Prelude.{
  ℕ, ◌≡◌, refl, ltb, true, false, ◌==◌, Option, none, some, List, [], ◌∷◌, arith, take, drop,
}
use idena_indexer_api.Prelude.Text.{Text, codes, text_eq}
use idena_indexer_api.Prelude.Result.{ok}
use idena_indexer_api.Postgres.Tokens.{Amounts}
use idena_indexer_api.Postgres.Tokens.RoundTrip.{has_no_dash}
use idena_indexer_api.Postgres.Keyed.Script.{IsSorted}
use idena_indexer_api.Postgres.Keyed.Page.{values, token_behind, HaveTokens}
use idena_indexer_api.Postgres.Keyed.Amounts.{
  Order, amount_precedes, amounts_script, amounts_tokens,
}
use idena_indexer_api.Postgres.Balances.{Balance, balances, sorts_by_stake, with_key}
use idena_indexer_api.Postgres.Balances.Pages.{keyed, run_sorted, balances-page}

-- Amounts that print as one byte.
abbrev pub read_byte : Text → Option ℕ
read_byte [] = none
read_byte (c ∷ []) = some c
read_byte (c ∷ d ∷ s) = none

abbrev pub bytes : Amounts
bytes = record {
  Amount = ℕ;
  to_string = λ n. n ∷ [];
  new_from_string = read_byte;
  new_from_string-to_string = λ n. refl;
}

pub eq_self : (a : ℕ) → (a == a) ≡ true
eq_self a = ground arith

pub ltb_asym : (a b : ℕ) → ltb a b ≡ true → ltb b a ≡ false
ltb_asym a b h = ground arith

pub ltb_not_eq : (a b : ℕ) → ltb a b ≡ true → (b == a) ≡ false
ltb_not_eq a b h = ground arith

pub eq_not_ltb : (a b : ℕ) → (a == b) ≡ true → ltb b a ≡ false
eq_not_ltb a b h = ground arith

abbrev pub by_value : Order bytes
by_value = record {
  less = λ a b. ltb a b;
  equal = λ a b. a == b;
  equal_refl = eq_self;
  less_asym = ltb_asym;
  less_not_equal = ltb_not_eq;
  equal_not_less = eq_not_ltb;
}

abbrev balance : ℕ → ℕ → Balance bytes
balance b s = record { address = codes "0x1"; balance = b; stake = s }

-- Two rows with the same stake.
abbrev stakes : List (ℕ × Balance bytes)
stakes =
    (7, balance 50 90)
    ∷ (3, balance 60 80)
    ∷ (4, balance 99 80)
    ∷ (1, balance 0 70)
    ∷ (2, balance 1 60)
    ∷ []

abbrev by_stake : Option Text
by_stake = some (codes "stake")

abbrev keyed_stakes : List ((ℕ × ℕ) × Balance bytes)
keyed_stakes = keyed bytes (sorts_by_stake by_stake) stakes

stakes-IsSorted : IsSorted (amounts_script bytes by_value) keyed_stakes
unfolding amount_precedes sorts_by_stake text_eq with_key
stakes-IsSorted = (
  (refl, (refl, (refl, (refl, tt)))),
  ((refl, (refl, (refl, tt))), ((refl, (refl, tt)), ((refl, tt), (tt, tt)))),
)

stakes-HaveTokens : HaveTokens (amounts_tokens bytes by_value) keyed_stakes
unfolding sorts_by_stake text_eq with_key has_no_dash
stakes-HaveTokens = (
  (omega arith, refl),
  ((omega arith, refl), ((omega arith, refl), ((omega arith, refl), ((omega arith, refl), tt)))),
)

balances-page_example :
    balances bytes
      (λ by. run_sorted bytes by_value by stakes)
      by_stake
      2
      (token_behind (amounts_tokens bytes by_value) 2 keyed_stakes)
    ≡ ok (
      values (take 2 (drop 2 keyed_stakes)),
      token_behind (amounts_tokens bytes by_value) 4 keyed_stakes,
    )
balances-page_example =
    balances-page bytes by_value by_stake stakes 2 2 (omega arith) (omega arith)
      (unfold with_key in omega arith) stakes-IsSorted stakes-HaveTokens
