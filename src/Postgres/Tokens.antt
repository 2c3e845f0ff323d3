-- ===== src/Postgres/Tokens.antt =====
-- The continuation tokens of two parts: an id with an amount in app/db/postgres/common.go and epoch.go,
-- an address with a balance in app/db/postgres/tokens.go.
pub mod RoundTrip
use idena_indexer_api.Prelude.{
  ℕ, ◌≡◌, Bool, true, false, ◌==◌, Option, none, some, List, [], ◌∷◌, ◌++◌, if◌then◌else◌,
}
use idena_indexer_api.Prelude.Text.{Text}
use idena_indexer_api.Prelude.Decimal.{format_uint}
use idena_indexer_api.Prelude.Result.{Result, ok, err, ◌>>=◌}
use idena_indexer_api.Postgres.Paging.{
  PageError, invalid_continuation_token, invalid_amount, parse_uint_continuation_token,
}

-- decimal.Decimal and its functions that are called; what String returns is read back.
pub record Amounts : Type 1 where
  pub Amount : Type 0
  pub to_string : Amount → Text
  pub new_from_string : Text → Option Amount
  pub new_from_string-to_string : (a : Amount) → new_from_string (to_string a) ≡ some a

-- strings.Split(s, "-")
abbrev pub into_first : ℕ → List Text → List Text
into_first c [] = (c ∷ []) ∷ []
into_first c (w ∷ ws) = (c ∷ w) ∷ ws

unfoldable pub split_dash : Text → List Text
split_dash [] = [] ∷ []
split_dash (c ∷ s) = let rest = split_dash s in if c == b'-' then [] ∷ rest else into_first c rest

module _ (amounts : Amounts) where
  open amounts use {Amount, to_string, new_from_string}

  abbrev pub amount_of : Option Amount → Result PageError (Option Amount)
  amount_of none = err invalid_amount
  amount_of (some a) = ok (some a)

  abbrev pub of_parts : List Text → Result PageError (Option ℕ × Option Amount)
  of_parts [] = err invalid_continuation_token
  of_parts (id ∷ []) = err invalid_continuation_token
  of_parts (id ∷ amount ∷ []) = parse_uint_continuation_token (some id) >>= λ n.
      amount_of (new_from_string amount) >>= λ a. ok (n, a)
  of_parts (id ∷ amount ∷ more ∷ rest) = err invalid_continuation_token

  -- parseUintAndAmountToken
  unfoldable pub parse_uint_and_amount_token :
      Option Text → Result PageError (Option ℕ × Option Amount)
  unfolding split_dash parse_uint_continuation_token
  parse_uint_and_amount_token none = ok (none, none)
  parse_uint_and_amount_token (some t) = of_parts (split_dash t)

  -- The token that EpochDelegateeTotalRewards makes.
  unfoldable pub amount_token : ℕ → Amount → Text
  amount_token id amount = format_uint id ++ b'-' ∷ to_string amount

-- parseToken of TokenHolders
abbrev pub of_address_parts : List Text → Result PageError (Option Text × Option Text)
of_address_parts [] = err invalid_continuation_token
of_address_parts (address ∷ []) = err invalid_continuation_token
of_address_parts (address ∷ balance ∷ []) = ok (some address, some balance)
of_address_parts (address ∷ balance ∷ more ∷ rest) = err invalid_continuation_token

unfoldable pub parse_token : Option Text → Result PageError (Option Text × Option Text)
unfolding split_dash
parse_token none = ok (none, none)
parse_token (some t) = of_address_parts (split_dash t)

-- The token that TokenHolders makes.
unfoldable pub holder_token : Text → Text → Text
holder_token address balance = address ++ b'-' ∷ balance
