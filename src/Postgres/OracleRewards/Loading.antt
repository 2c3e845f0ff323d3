-- ===== src/Postgres/OracleRewards/Loading.antt =====
-- Runs of get of app/db/postgres/service.go, and of the goroutine that forgets the cache.
use idena_indexer_api.Prelude.{ℕ, ◌≡◌, refl, ap, true, Bool, List, [], ◌∷◌}
use idena_indexer_api.Prelude.Result.{Result, ok, err, ◌>>=◌}
use idena_indexer_api.Postgres.OracleRewards.{
  Quotients, EstimatedOracleReward, create_estimated_oracle_rewards_service, Rewards,
  new_estimated_oracle_rewards_cache, reset, load_data, get,
}

-- A call, with what networkSizeFn would return; or a minute that passes.
pub data Event (E : Type 0) : Type 0 where
  called : Result E ℕ → Event E
  minute : Event E

module _ (d : Quotients) {E : Type 0} where
  -- What the calls return, each with whether it loaded.
  unfoldable pub replies :
      List (Event E) → Rewards → List (Result E (List (EstimatedOracleReward d)) × Bool)
  unfolding get reset
  replies [] c = []
  replies (called size ∷ events) c =
      let got = get d size c in (got.result, got.loaded) ∷ replies events got.service
  replies (minute ∷ events) c = replies events (reset c)

  -- The rewards for the size that each call would load itself.
  unfoldable pub loads : List (Event E) → List (Result E (List (EstimatedOracleReward d)) × Bool)
  loads [] = []
  loads (called size ∷ events) =
      (size >>= λ n. ok (create_estimated_oracle_rewards_service d n), true) ∷ loads events
  loads (minute ∷ events) = loads events

  -- In any run of a new service every call loads the size of the network, and answers for that size or
  -- with its error: nothing is ever kept.
  pub replies-loads :
      (events : List (Event E)) → replies events new_estimated_oracle_rewards_cache ≡ loads events
  unfolding replies loads get reset load_data
  replies-loads [] = refl
  replies-loads (called (ok n) ∷ events) =
      ap (λ more. (ok (create_estimated_oracle_rewards_service d n), true) ∷ more)
        (replies-loads events)
  replies-loads (called (err e) ∷ events) = ap (λ more. (err e, true) ∷ more) (replies-loads events)
  replies-loads (minute ∷ events) = replies-loads events
