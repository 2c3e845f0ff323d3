-- ===== src/Api/Service/Links.antt =====
-- Upgrade and UpgradeVotings of app/api/service.go: the links to the change log.
use idena_indexer_api.Prelude.{ℕ, Option, List, map}
use idena_indexer_api.Prelude.Text.{Text}
use idena_indexer_api.Prelude.Result.{Result, ok, ◌>>=◌}
use idena_indexer_api.Postgres.Upgrades.{Upgrade}

-- An upgrade with the link of its number.
unfoldable pub linked : (ℕ → Text) → Upgrade → Upgrade
linked url u = record u { url = url u.upgrade }

unfoldable pub upgrade_with_url :
    {E : Type 0} → (ℕ → Text) → (ℕ → Result E Upgrade) → ℕ → Result E Upgrade
unfolding linked
upgrade_with_url url from_db number = from_db number >>= λ res. ok (linked url res)

unfoldable pub upgrade_votings_with_url :
    {E : Type 0}
    → (ℕ → Text)
    → (ℕ → Option Text → Result E (List Upgrade × Option Text))
    → ℕ
    → Option Text
    → Result E (List Upgrade × Option Text)
unfolding linked
upgrade_votings_with_url url from_db count continuation_token =
    from_db count continuation_token >>= λ found. ok (map (linked url) found.0, found.1)
