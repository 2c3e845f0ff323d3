-- ===== src/Postgres/IdentityRewards/Examples.antt =====
-- Pages of EpochIdentitiesRewards of app/db/postgres/epoch.go over three identities.
use idena_indexer_api.Prelude.{ℕ, ◌≡◌, refl, true, none, List, [], ◌∷◌, map, take, drop, arith}
use idena_indexer_api.Prelude.Text.{codes, text_eq}
use idena_indexer_api.Prelude.Result.{ok}
use idena_indexer_api.Postgres.IdentityRewards.{Reward, Details, epoch_identities_rewards}
use idena_indexer_api.Postgres.IdentityRewards.Grouping.{Identity, item_of, AreDistinct}
use idena_indexer_api.Postgres.IdentityRewards.Offsets.{
  run_offset, token_for, epoch_identities_rewards-page,
}

abbrev details : Details ℕ
details = record { prev_state = codes "Newbie"; state = codes "Verified"; age = 4 }

abbrev reward : ℕ → Reward ℕ
reward n = record { balance = n; stake = n; type = codes "Staking" }

abbrev identities : List (Identity ℕ)
identities =
    (codes "0xa", details, reward 1, reward 2 ∷ [])
    ∷ (codes "0xb", details, reward 3, [])
    ∷ (codes "0xc", details, reward 4, reward 5 ∷ reward 6 ∷ [])
    ∷ []

identities-AreDistinct : AreDistinct ℕ identities
unfolding text_eq
identities-AreDistinct = (refl, (refl, (tt, tt)))

-- The second page, which is the last.
epoch_identities_rewards-page_example :
    epoch_identities_rewards ℕ (run_offset ℕ identities) true 2 (token_for 2)
    ≡ ok (map (item_of ℕ true) (take 2 (drop 2 identities)), none)
epoch_identities_rewards-page_example =
    epoch_identities_rewards-page ℕ true identities 2 2 (omega arith) (omega arith)
      identities-AreDistinct
