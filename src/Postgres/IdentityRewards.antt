-- ===== src/Postgres/IdentityRewards.antt =====
-- EpochIdentitiesRewards of app/db/postgres/epoch.go: the rows of rewards become one item for each
-- identity, and the continuation token is an offset.
pub mod Grouping
pub mod Offsets
mod Examples
use idena_indexer_api.Prelude.{
  ℕ, ◌+◌, ◌%◌, Bool, true, false, Option, none, some, List, [], ◌∷◌, ◌++◌, if◌then◌else◌,
}
use idena_indexer_api.Prelude.Text.{Text, text_eq}
use idena_indexer_api.Prelude.Decimal.{format_uint, u64_mod}
use idena_indexer_api.Prelude.Result.{Result, ok, err, ◌>>=◌}
use idena_indexer_api.Postgres.Paging.{
  PageError, parse_uint_continuation_token, get_res_with_continuation_token,
}
use idena_indexer_api.Postgres.Rewards.{replace_candidates_and_staking}

-- A token that is nil is the offset 0.
abbrev pub offset_of : Option ℕ → ℕ
offset_of none = 0
offset_of (some id) = id

module _ (Amount : Type 0) where
  -- types.Reward
  pub record Reward : Type 0 where
    pub balance : Amount
    pub stake : Amount
    pub type : Text

  -- The states and the age of an identity.
  pub record Details : Type 0 where
    pub prev_state : Text
    pub state : Text
    pub age : ℕ

  -- A row of the script.
  pub record RewardRow : Type 0 where
    pub address : Text
    pub reward : Reward
    pub details : Details

  -- types.Rewards
  pub record Rewards : Type 0 where
    pub address : Text
    pub details : Details
    pub rewards : List Reward

  unfoldable pub retyped : Bool → Reward → Reward
  unfolding replace_candidates_and_staking
  retyped replace_validation_reward r =
      if replace_validation_reward
      then record r { type = replace_candidates_and_staking r.type }
      else r

  abbrev pub new_item : RewardRow → Reward → Rewards
  new_item r reward = record { address = r.address; details = r.details; rewards = reward ∷ [] }

  -- The loop over the rows, with `res` and `item` of the source.
  unfoldable pub group_rewards :
      Bool → List Rewards → Option Rewards → List RewardRow → List Rewards
  unfolding text_eq retyped
  group_rewards replace res none [] = res
  group_rewards replace res (some item) [] = res ++ item ∷ []
  group_rewards replace res none (r ∷ rows) =
      group_rewards replace res (some (new_item r (retyped replace r.reward))) rows
  group_rewards replace res (some item) (r ∷ rows) = elim (text_eq item.address r.address) [
    | true ↦
        group_rewards replace res
          (some (record item { rewards = item.rewards ++ retyped replace r.reward ∷ [] })) rows
    | false ↦
        group_rewards replace (res ++ item ∷ []) (some (new_item r (retyped replace r.reward))) rows
  ]

  -- `query` runs epochIdentitiesRewards.sql with the limit and the offset, and reads its rows.
  unfoldable pub epoch_identities_rewards :
      (ℕ → ℕ → Result PageError (List RewardRow))
      → Bool
      → ℕ
      → Option Text
      → Result PageError (List Rewards × Option Text)
  unfolding parse_uint_continuation_token group_rewards get_res_with_continuation_token
  epoch_identities_rewards query replace count continuation_token = do
    continuation_id ← parse_uint_continuation_token continuation_token
    rows ← query ((count + 1) % u64_mod) (offset_of continuation_id)
    ok (
        get_res_with_continuation_token
          (format_uint ((offset_of continuation_id + count) % u64_mod)) count
          (group_rewards replace [] none rows))
