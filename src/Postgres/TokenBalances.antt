-- ===== src/Postgres/TokenBalances.antt =====
-- AddressToken and AddressTokens of app/db/postgres/address.go and TokenHolders of tokens.go: the balances
-- of tokens, which the database keeps as whole numbers of the smallest unit.
pub mod Digits
mod Examples
use idena_indexer_api.Prelude.{ℕ, ◌+◌, ◌*◌, ◌^◌, ◌≤◌, ◌<◌, Option, none, some, List, [], ◌∷◌, map}
use idena_indexer_api.Prelude.Text.{Text}
use idena_indexer_api.Prelude.Result.{Result, ok, err, ◌>>=◌}
use idena_indexer_api.Postgres.Paging.{PageError, Row, row, unreadable, failure, page}
use idena_indexer_api.Postgres.Tokens.{parse_token, holder_token}
use idena_indexer_api.Postgres.Keyed.{keyed_page}

-- Div of decimal.Decimal for whole numbers: the quotient to 16 digits behind the point, the default of
-- DivisionPrecision, which the program leaves, and so in units of 10 ^ -16.
pub record Division : Type 0 where
  pub div : ℕ → ℕ → ℕ
  pub to_string : ℕ → Text
  pub div_not_above : (v d : ℕ) → 0 < d → 2 * (div v d * d) ≤ 2 * (v * 10 ^ 16) + d
  pub div_not_below : (v d : ℕ) → 0 < d → 2 * (v * 10 ^ 16) ≤ 2 * (div v d * d) + d

-- types.Token
pub record Token : Type 0 where
  pub contract_address : Text
  pub name : Text
  pub symbol : Text
  pub decimals : ℕ

-- types.TokenBalance; the balance is in units of 10 ^ -16.
pub record TokenBalance : Type 0 where
  pub token : Token
  pub address : Text
  pub balance : ℕ

-- What QueryRow and Scan fail with.
pub data RowError : Type 0 where
  no_rows : RowError
  row_failed : RowError

pub data TokenError : Type 0 where
  no_data_found : TokenError
  failed : TokenError

module _ (d : Division) where
  -- item.Balance.Div(decimal.New(1, int32(item.Token.Decimals)))
  unfoldable pub shown : ℕ → ℕ → ℕ
  shown balance decimals = d.div balance (10 ^ decimals)

  unfoldable pub address_token :
      Result RowError (ℕ × Text × Text × ℕ) → Text → Text → Result TokenError TokenBalance
  unfolding shown
  address_token (err no_rows) address token_address = err no_data_found
  address_token (err row_failed) address token_address = err failed
  address_token (ok (balance, name, symbol, decimals)) address token_address = ok (record {
    token = record {
      contract_address = token_address;
      name = name;
      symbol = symbol;
      decimals = decimals;
    };
    address = address;
    balance = shown balance decimals;
  })

  -- A row of addressTokens.sql: the token's address, the balance, and the rest of the token.
  unfoldable pub scan_token : Text → Row (Text × ℕ × Text × Text × ℕ) → Row TokenBalance
  unfolding shown
  scan_token address unreadable = unreadable
  scan_token address failure = failure
  scan_token address (row id (contract, balance, name, symbol, decimals)) = row id (record {
    token = record {
      contract_address = contract;
      name = name;
      symbol = symbol;
      decimals = decimals;
    };
    address = address;
    balance = shown balance decimals;
  })

  unfoldable pub address_tokens :
      (Text → ℕ → Option ℕ → Result PageError (List (Row (Text × ℕ × Text × Text × ℕ))))
      → Text
      → ℕ
      → Option Text
      → Result PageError (List TokenBalance × Option Text)
  unfolding page scan_token
  address_tokens query address =
      page (λ limit id. query address limit id >>= λ rows. ok (map (scan_token address) rows))

  -- A row of tokenHolders.sql: the key is the address with the balance before it is divided.
  unfoldable pub scan_holder :
      Text → Option (Text × ℕ × Text × Text × ℕ) → Option ((Text × Text) × TokenBalance)
  unfolding shown
  scan_holder token_address none = none
  scan_holder token_address (some (address, balance, name, symbol, decimals)) = some (
    (address, d.to_string balance),
    record {
      token = record {
        contract_address = token_address;
        name = name;
        symbol = symbol;
        decimals = decimals;
      };
      address = address;
      balance = shown balance decimals;
    },
  )

  unfoldable pub token_holders :
      (Text
        → ℕ
        → Option Text × Option Text
        → Result PageError (List (Option (Text × ℕ × Text × Text × ℕ))))
      → Text
      → ℕ
      → Option Text
      → Result PageError (List TokenBalance × Option Text)
  unfolding keyed_page parse_token holder_token scan_holder
  token_holders query address =
      keyed_page parse_token (λ key. holder_token key.0 key.1)
        (λ limit args. query address limit args >>= λ rows. ok (map (scan_holder address) rows))
