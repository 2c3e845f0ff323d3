-- ===== src/Postgres/Keyed/Amounts.antt =====
-- Keys of an id with an amount, in the order of the amount, the largest first, and of the id: those of
-- Balances, EpochDelegateeRewards and EpochDelegateeTotalRewards in app/db/postgres.
use idena_indexer_api.Prelude.{
  ℕ, ◌<◌, ◌≡◌, refl, Bool, true, false, ◌&&◌, ◌||◌, Option, none, some, arith, leb, ltb,
}
use idena_indexer_api.Prelude.Text.{Text}
use idena_indexer_api.Prelude.Decimal.{u64_mod}
use idena_indexer_api.Prelude.Result.{ok}
use idena_indexer_api.Postgres.Tokens.{Amounts, parse_uint_and_amount_token, amount_token}
use idena_indexer_api.Postgres.Tokens.RoundTrip.{
  has_no_dash, parse_uint_and_amount_token-amount_token,
}
use idena_indexer_api.Postgres.Keyed.Script.{Script}
use idena_indexer_api.Postgres.Keyed.Page.{Tokens}

-- The order of the amounts in SQL.
pub record Order (amounts : Amounts) : Type 0 where
  pub less : amounts.Amount → amounts.Amount → Bool
  pub equal : amounts.Amount → amounts.Amount → Bool
  pub equal_refl : (a : amounts.Amount) → equal a a ≡ true
  pub less_asym : (a b : amounts.Amount) → less a b ≡ true → less b a ≡ false
  pub less_not_equal : (a b : amounts.Amount) → less a b ≡ true → equal b a ≡ false
  pub equal_not_less : (a b : amounts.Amount) → equal a b ≡ true → less b a ≡ false

-- The key of a row is the id of an address with the reward, which the token holds.
abbrev pub key_token : (amounts : Amounts) → ℕ × amounts.Amount → Text
key_token amounts k = amount_token amounts k.0 k.1

module _ (amounts : Amounts) (order : Order amounts) where
  open amounts use {Amount}
  open order use {less, equal}

  -- The condition on the keys in balances.sql and stakes.sql, and in epochDelegateeRewards.sql, where it
  -- stands in parentheses behind those on the epoch and the delegatee; a comparison with NULL is not true.
  unfoldable pub from_amount : Option ℕ × Option Amount → ℕ × Amount → Bool
  from_amount (none, reward) k = true
  from_amount (some id, none) k = false
  from_amount (some id, some reward) (i, r) = equal r reward && leb id i || less r reward

  -- The order of the scripts: by falling amount, then by id.
  unfoldable pub amount_precedes : ℕ × Amount → ℕ × Amount → Bool
  amount_precedes (i, r) (j, q) = less q r || equal q r && ltb i j

  abbrev pub of_key : ℕ × Amount → Option ℕ × Option Amount
  of_key (i, r) = (some i, some r)

  pub from_amount-start : (k : ℕ × Amount) → from_amount (none, none) k ≡ true
  unfolding from_amount
  from_amount-start k = refl

  pub from_amount_self : (k : ℕ × Amount) → from_amount (of_key k) k ≡ true
  unfolding from_amount
  from_amount_self (i, r) = ground (arith, order.equal_refl r)

  pub from_amount_behind :
      (k l : ℕ × Amount) → amount_precedes k l ≡ true → from_amount (of_key k) l ≡ true
  unfolding from_amount amount_precedes
  from_amount_behind (i, r) (j, q) h = ground arith

  pub from_amount_before :
      (k l : ℕ × Amount) → amount_precedes l k ≡ true → from_amount (of_key k) l ≡ false
  unfolding from_amount amount_precedes
  from_amount_before (i, r) (j, q) h =
      ground (arith, order.less_asym r q, order.less_not_equal r q, order.equal_not_less r q)

  abbrev pub amounts_script : Script (ℕ × Amount) (Option ℕ × Option Amount)
  amounts_script = record {
    selects = from_amount;
    precedes = amount_precedes;
    start = (none, none);
    from = of_key;
    selects-start = from_amount-start;
    selects_self = from_amount_self;
    selects_behind = from_amount_behind;
    selects_before = from_amount_before;
  }

  pub parse-none : parse_uint_and_amount_token amounts none ≡ ok (none, none)
  unfolding parse_uint_and_amount_token
  parse-none = refl

  -- A 64-bit id and a reward that prints without a dash, one that is not negative.
  abbrev pub amounts_tokens : Tokens (ℕ × Amount) (Option ℕ × Option Amount)
  amounts_tokens = record {
    script = amounts_script;
    parse = parse_uint_and_amount_token amounts;
    token_of = key_token amounts;
    HasToken = λ k. (k.0 < u64_mod) × (has_no_dash (amounts.to_string k.1) ≡ true);
    parse-none = parse-none;
    parse-token_of = λ k h. parse_uint_and_amount_token-amount_token amounts k.0 k.1 h.0 h.1;
  }
