-- ===== src/Postgres/Upgrades.antt =====
-- Upgrade and UpgradeVotings of app/db/postgres/upgrades.go. Times are in seconds.
use idena_indexer_api.Prelude.{ℕ, ◌%◌, ◌^◌, Option, none, some, List, [], map}
use idena_indexer_api.Prelude.Int.{ℤ}
use idena_indexer_api.Prelude.Text.{Text}
use idena_indexer_api.Prelude.Result.{Result, ok, err, ◌>>=◌}
use idena_indexer_api.Postgres.Paging.{PageError, Row, unreadable, failure, row, page}

-- types.Upgrade
pub record Upgrade : Type 0 where
  pub upgrade : ℕ
  pub start_activation_date : Option ℤ
  pub end_activation_date : Option ℤ
  pub url : Text

-- The dates of a row of upgrade.sql.
pub record Dates : Type 0 where
  pub start_activation_date : ℤ
  pub end_activation_date : ℤ

-- Upgrade: `query_row` runs upgrade.sql, and has no row for a number that the database does not know.
-- The number of the result stays as it is made.
unfoldable pub upgrade : {E : Type 0} → E → (ℕ → Result E (Option Dates)) → ℕ → Result E Upgrade
upgrade no_data_found query_row number = query_row number >>= λ found. elim found [
  | none ↦ err no_data_found
  | some dates ↦ ok (record {
    upgrade = 0;
    start_activation_date = some dates.start_activation_date;
    end_activation_date = some dates.end_activation_date;
    url = [];
  })
]

-- One turn of the loop of UpgradeVotings.
unfoldable pub read_voting : Row Dates → Row Upgrade
read_voting unreadable = unreadable
read_voting failure = failure
read_voting (row number dates) = row number (record {
  upgrade = number % 2 ^ 32;
  start_activation_date = some dates.start_activation_date;
  end_activation_date = some dates.end_activation_date;
  url = [];
})

-- `query` runs upgradeVotings.sql.
unfoldable pub upgrade_votings :
    (ℕ → Option ℕ → Result PageError (List (Row Dates)))
    → ℕ
    → Option Text
    → Result PageError (List Upgrade × Option Text)
unfolding read_voting page
upgrade_votings query count continuation_token =
    page (λ limit id. query limit id >>= λ rows. ok (map read_voting rows)) count continuation_token
