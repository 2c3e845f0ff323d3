-- ===== src/Postgres/Tokens/RoundTrip.antt =====
-- Printing and parsing the continuation tokens of two parts of app/db/postgres.
use idena_indexer_api.Prelude.{
  ℕ, zero, suc, ◌+◌, ◌/◌, ◌%◌, ◌<◌, ◌≡◌, refl, ap, ◌∙◌, Bool, true, not, ◌&&◌, ◌==◌, some, [], ◌∷◌,
  ◌++◌, arith,
}
use idena_indexer_api.Prelude.Text.{Text}
use idena_indexer_api.Prelude.Decimal.{
  format_uint, format_digits, u64_mod, parse_uint, parse_uint-format_uint,
}
use idena_indexer_api.Prelude.Result.{ok}
use idena_indexer_api.Postgres.Paging.{parse_uint_continuation_token}
use idena_indexer_api.Postgres.Tokens.{
  Amounts, split_dash, of_parts, parse_uint_and_amount_token, amount_token, parse_token,
  holder_token,
}

-- A text without a dash.
unfoldable pub has_no_dash : Text → Bool
has_no_dash [] = true
has_no_dash (c ∷ s) = not (c == b'-') && has_no_dash s

has_no_dash-append : (s t : Text) → has_no_dash (s ++ t) ≡ (has_no_dash s && has_no_dash t)
unfolding has_no_dash
has_no_dash-append [] t = refl
has_no_dash-append (c ∷ s) t = ground (arith, has_no_dash-append s t)

has_no_dash-format_digits : (f n : ℕ) → has_no_dash (format_digits f n) ≡ true
unfolding has_no_dash format_digits
has_no_dash-format_digits zero n = refl
has_no_dash-format_digits (suc f) n = ground (
  arith,
  has_no_dash-format_digits f (n / 10),
  has_no_dash-append (format_digits f (n / 10)) ((n % 10 + b'0') ∷ []),
)

pub has_no_dash-format_uint : (n : ℕ) → has_no_dash (format_uint n) ≡ true
unfolding format_uint
has_no_dash-format_uint n = has_no_dash-format_digits 20 n

split_dash-one : (s : Text) → has_no_dash s ≡ true → split_dash s ≡ s ∷ []
unfolding split_dash has_no_dash
split_dash-one [] h = refl
split_dash-one (c ∷ s) h = ground (arith, split_dash-one s)

split_dash-append :
    (s t : Text) → has_no_dash s ≡ true → split_dash (s ++ b'-' ∷ t) ≡ s ∷ split_dash t
unfolding split_dash has_no_dash
split_dash-append [] t h = refl
split_dash-append (c ∷ s) t h = ground (arith, split_dash-append s t)

pub split_dash-two :
    (s t : Text)
    → has_no_dash s ≡ true
    → has_no_dash t ≡ true
    → split_dash (s ++ b'-' ∷ t) ≡ s ∷ t ∷ []
split_dash-two s t h k = split_dash-append s t h ∙ ap (◌∷◌ s) (split_dash-one t k)

module _ (amounts : Amounts) where
  open amounts use {Amount, to_string, new_from_string}

  of_parts_two :
      (s t : Text) (n : ℕ) (a : Amount)
      → parse_uint s ≡ some n
      → new_from_string t ≡ some a
      → of_parts amounts (s ∷ t ∷ []) ≡ ok (some n, some a)
  unfolding parse_uint_continuation_token
  of_parts_two s t n a h k = ground (arith, h, k)

  -- The token of a 64-bit id and an amount that prints without a dash, one that is not negative, is read
  -- back as that id and that amount.
  pub parse_uint_and_amount_token-amount_token :
      (id : ℕ) (amount : Amount)
      → id < u64_mod
      → has_no_dash (to_string amount) ≡ true
      → parse_uint_and_amount_token amounts (some (amount_token amounts id amount))
        ≡ ok (some id, some amount)
  unfolding parse_uint_and_amount_token amount_token
  parse_uint_and_amount_token-amount_token id amount small h =
      rw (split_dash-two (format_uint id) (to_string amount) (has_no_dash-format_uint id) h) (
        of_parts_two (format_uint id) (to_string amount) id amount (parse_uint-format_uint id small)
          (amounts.new_from_string-to_string amount))

-- The token of an address and a balance that both print without a dash is read back as they are.
pub parse_token-holder_token :
    (address balance : Text)
    → has_no_dash address ≡ true
    → has_no_dash balance ≡ true
    → parse_token (some (holder_token address balance)) ≡ ok (some address, some balance)
unfolding parse_token holder_token
parse_token-holder_token address balance h k = rw (split_dash-two address balance h k) refl
