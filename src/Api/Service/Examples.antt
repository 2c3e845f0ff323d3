-- ===== src/Api/Service/Examples.antt =====
-- The service and the parameters of app/api on small inputs.
use idena_indexer_api.Prelude.{
  ℕ, ◌≡◌, refl, ◌==◌, Option, none, some, List, [], ◌∷◌, arith, if◌then◌else◌, take,
}
use idena_indexer_api.Prelude.Int.{ℤ, pos}
use idena_indexer_api.Prelude.Text.{Text, codes}
use idena_indexer_api.Prelude.Page.{Page}
use idena_indexer_api.Prelude.Result.{Result, ok}
use idena_indexer_api.Api.Service.{identity_txs}
use idena_indexer_api.Api.Service.Links.{upgrade_with_url}
use idena_indexer_api.Postgres.Upgrades.{Dates, upgrade}
use idena_indexer_api.Api.Service.Pages.{identity_txs-items}

-- A mem pool of two transactions, whatever it is asked for, and a database of many.
abbrev mem_pool : ℤ → List ℕ
mem_pool count = 1 ∷ 2 ∷ []

abbrev from_db : ℕ → Option Text → Page ℕ ℕ
from_db left token = record {
  items = take left (3 ∷ 4 ∷ 5 ∷ []);
  next = some (codes "6");
  err = none;
}

identity_txs-items_example : (identity_txs mem_pool from_db 4 none).items ≡ 1 ∷ 2 ∷ 3 ∷ 4 ∷ []
identity_txs-items_example = identity_txs-items mem_pool from_db 4 (omega arith) (omega arith)

-- A database that knows the upgrade 9.
abbrev upgrade_row : ℕ → Result ℕ (Option Dates)
upgrade_row number = ok (
    if number == 9
    then some (record { start_activation_date = pos 100; end_activation_date = pos 200 })
    else none)

abbrev link : ℕ → Text
link number = if number == 9 then codes "https://log/9" else []

-- The upgrade 9 is answered with the number 0 and the link of the upgrade 0.
upgrade_of_zero :
    upgrade_with_url link (upgrade 404 upgrade_row) 9
    ≡ ok (record {
      upgrade = 0;
      start_activation_date = some (pos 100);
      end_activation_date = some (pos 200);
      url = [];
    })
unfolding upgrade_with_url upgrade
upgrade_of_zero = refl
