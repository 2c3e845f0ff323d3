-- ===== src/Postgres/OracleRewards.antt =====
-- app/db/postgres/service.go: the rewards of oracles that are estimated from the size of the network.
pub mod Loading
use idena_indexer_api.Prelude.{
  ℕ, ◌==◌, Bool, true, false, Option, none, some, List, [], ◌∷◌, if◌then◌else◌,
}
use idena_indexer_api.Prelude.Text.{Text, codes}
use idena_indexer_api.Prelude.Result.{Result, ok, err, ◌>>=◌}

-- The calls of decimal.Decimal: NewFromFloat of a whole number, Mul, and Div by a number that is not zero.
pub record Quotients : Type 1 where
  pub Decimal : Type 0
  pub of_whole : ℕ → Decimal
  pub mul : Decimal → Decimal → Decimal
  pub div : Decimal → Decimal → Decimal

module _ (d : Quotients) where
  open d use {Decimal, of_whole, mul, div}

  -- types.EstimatedOracleReward
  pub record EstimatedOracleReward : Type 0 where
    pub amount : Decimal
    pub type : Text

  unfoldable pub create_estimated_oracle_rewards_service : ℕ → List EstimatedOracleReward
  create_estimated_oracle_rewards_service network_size =
      let size = if network_size == 0 then 1 else network_size in
      let min_oracle_reward = div (of_whole 5000) (of_whole size) in
      record { amount = min_oracle_reward; type = codes "min" }
      ∷ record { amount = mul (of_whole 2) min_oracle_reward; type = codes "low" }
      ∷ record { amount = mul (of_whole 4) min_oracle_reward; type = codes "medium" }
      ∷ record { amount = mul (of_whole 10) min_oracle_reward; type = codes "high" }
      ∷ record { amount = mul (of_whole 20) min_oracle_reward; type = codes "highest" }
      ∷ []

-- estimatedOracleRewardsService: its cache is nil or the size of the network.
pub record Rewards : Type 0 where
  pub cache : Option ℕ

-- newEstimatedOracleRewardsCache, and what its goroutine does each minute
abbrev pub new_estimated_oracle_rewards_cache : Rewards
new_estimated_oracle_rewards_cache = record { cache = none }

unfoldable pub reset : Rewards → Rewards
reset c = record c { cache = none }

-- loadData; `size` is what networkSizeFn returns.
unfoldable pub load_data : {E : Type 0} → Result E ℕ → Result E ℕ
load_data size = size >>= λ network_size. ok network_size

-- What a call of get leaves: what it returns, the service, and whether it called networkSizeFn.
pub record Got (E A : Type 0) : Type 0 where
  pub result : Result E A
  pub service : Rewards
  pub loaded : Bool

module _ (d : Quotients) where
  -- get, when networkSizeFn would return `size`. What is loaded goes to the local variable only.
  unfoldable pub get : {E : Type 0} → Result E ℕ → Rewards → Got E (List (EstimatedOracleReward d))
  unfolding create_estimated_oracle_rewards_service load_data
  get size c = elim c.cache [
    | some kept ↦ record {
      result = ok (create_estimated_oracle_rewards_service d kept);
      service = c;
      loaded = false;
    }
    | none ↦ record {
      result = load_data size >>= λ loaded_size.
          ok (create_estimated_oracle_rewards_service d loaded_size);
      service = c;
      loaded = true;
    }
  ]
