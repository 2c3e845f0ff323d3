-- ===== src/Postgres/Queries.antt =====
-- The scripts that the methods of app/db/postgres run, with their arguments: for each method of the
-- accessor that app/db/cached puts a cache before, and in Uncached for those that it passes on. The data
-- of a dynamic endpoint runs no script: its SQL is made from the endpoint's name.
pub mod Network
pub mod Epochs
pub mod EpochRewards
pub mod EpochIdentities
pub mod Blocks
pub mod Identities
pub mod Addresses
pub mod Transactions
pub mod Contracts
pub mod Rest
pub mod Calls
pub mod Scripts
pub mod Fit
pub mod Uncached
mod Examples
use idena_indexer_api.Prelude.{ℕ, Bool, Option, List}
use idena_indexer_api.Prelude.Text.{Text}

-- What is passed for a parameter of a script: a value, an array, the Unix time of a time by its text,
-- `count+1`, a part of the continuation token that was parsed, the token itself, the ids of states, a text
-- that may be nil, or the id that a token was parsed to.
pub data Argument : Type 0 where
  uint : ℕ → Argument
  string : Text → Argument
  flag : Bool → Argument
  array : List Text → Argument
  seconds : Text → Argument
  limit : ℕ → Argument
  token_part : Option (ℕ × Text) → Argument
  token : Option (ℕ × Text) → Argument
  states : List Text → Argument
  nullable : Option Text → Argument
  id : Option ℕ → Argument

pub record Query : Type 0 where
  pub script : Text
  pub arguments : List Argument

abbrev pub query : Text → List Argument → Query
query script arguments = record { script = script; arguments = arguments }
