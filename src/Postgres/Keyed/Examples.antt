-- ===== src/Postgres/Keyed/Examples.antt =====
-- Pages with keys of two parts of app/db/postgres over small tables.
use idena_indexer_api.Prelude.{
  ℕ, ◌≡◌, refl, ◌==◌, none, some, List, [], ◌∷◌, arith, map, take, drop,
}
use idena_indexer_api.Prelude.Text.{Text, codes}
use idena_indexer_api.Prelude.Decimal.{parse_uint, format_uint, format_digits}
use idena_indexer_api.Prelude.Result.{ok}
use idena_indexer_api.Postgres.Balances.Examples.{bytes, by_value}
use idena_indexer_api.Postgres.Rewards.{Decimals}
use idena_indexer_api.Postgres.Keyed.Script.{run_keyed, IsSorted}
use idena_indexer_api.Postgres.Keyed.Page.{values, token_behind, HaveTokens}
use idena_indexer_api.Postgres.Keyed.Pools.{scan_pool, pools, pools_selects, pools_precedes}
use idena_indexer_api.Postgres.Keyed.Pools.Pages.{pools_script, pools_tokens, pools-page}
use idena_indexer_api.Postgres.Keyed.Epochs.{
  DelegateeTotalRewards, epoch_delegatee_total_rewards, run_total,
}
use idena_indexer_api.Postgres.Keyed.Epochs.Mixing.{epoch_delegatee_total_rewards_mixes}

-- Two pools of the same size.
abbrev some_pools : List (ℕ × Text × ℕ)
some_pools = (9, codes "a", 30) ∷ (2, codes "b", 20) ∷ (5, codes "c", 20) ∷ (1, codes "d", 4) ∷ []

some_pools-IsSorted : IsSorted pools_script (map scan_pool some_pools)
unfolding scan_pool pools_precedes
some_pools-IsSorted = ((refl, (refl, (refl, tt))), ((refl, (refl, tt)), ((refl, tt), (tt, tt))))

some_pools-HaveTokens : HaveTokens pools_tokens (map scan_pool some_pools)
unfolding scan_pool
some_pools-HaveTokens = omega arith

pools-page_example :
    pools
      (run_keyed pools_selects (map scan_pool some_pools))
      2
      (token_behind pools_tokens 2 (map scan_pool some_pools))
    ≡ ok (
      values (take 2 (drop 2 (map scan_pool some_pools))),
      token_behind pools_tokens 4 (map scan_pool some_pools),
    )
pools-page_example =
    pools-page some_pools 2 2 (omega arith) (omega arith) (unfold scan_pool in omega arith)
      some_pools-IsSorted some_pools-HaveTokens

abbrev whole : Decimals
whole = record { Decimal = ℕ; is_zero = λ n. n == 0; to_text = λ n. n ∷ [] }

abbrev total : Text → DelegateeTotalRewards whole
total a = record { address = a; rewards = []; delegators = 1; penalized_delegators = 0 }

-- Rewards of the epochs 7 and 6.
abbrev totals : List (ℕ × (ℕ × ℕ) × DelegateeTotalRewards whole)
totals =
    (7, (1, 90), total (codes "a"))
    ∷ (6, (3, 80), total (codes "old"))
    ∷ (7, (2, 70), total (codes "b"))
    ∷ []

-- The first page of the epoch 7 shows "a" and gives the token of "b".
totals_first :
    epoch_delegatee_total_rewards whole bytes (run_total bytes by_value totals) 7 1 none
    ≡ ok (total (codes "a") ∷ [], some (codes "2-F"))
unfolding epoch_delegatee_total_rewards run_total parse_uint format_uint format_digits
totals_first = refl

-- With the token of "a" the page of the epoch 7 has the row of the epoch 6.
totals_next :
    epoch_delegatee_total_rewards whole bytes
      (run_total bytes by_value totals)
      7
      2
      (some (codes "1-Z"))
    ≡ ok (total (codes "a") ∷ total (codes "old") ∷ [], some (codes "2-F"))
unfolding epoch_delegatee_total_rewards run_total parse_uint format_uint format_digits
totals_next = refl

epoch_delegatee_total_rewards_mixes_example :
    epoch_delegatee_total_rewards whole bytes
      (run_total bytes by_value totals)
      7
      2
      (some (codes "1-Z"))
    ≡ epoch_delegatee_total_rewards whole bytes
        (run_total bytes by_value totals)
        6
        2
        (some (codes "1-Z"))
epoch_delegatee_total_rewards_mixes_example =
    epoch_delegatee_total_rewards_mixes whole bytes by_value totals 7 6 2 (codes "1-Z")
