-- ===== src/Postgres/Keyed/Epochs.antt =====
-- EpochDelegateeRewards of app/db/postgres/epoch_delegatee.go and EpochDelegateeTotalRewards of epoch.go,
-- with resources/scripts/api/epochDelegateeRewards.sql and epochDelegateeTotalRewards.sql.
pub mod Pages
pub mod Mixing
use idena_indexer_api.Prelude.{
  ℕ, Bool, true, false, ◌&&◌, ◌||◌, Option, none, some, List, [], ◌∷◌, ◌==◌, map, leb, ltb, take,
  if◌then◌else◌,
}
use idena_indexer_api.Prelude.Text.{Text}
use idena_indexer_api.Prelude.Result.{Result, ok}
use idena_indexer_api.Postgres.Paging.{PageError}
use idena_indexer_api.Postgres.Tokens.{Amounts, parse_uint_and_amount_token, amount_token}
use idena_indexer_api.Postgres.Rewards.{
  Decimals, DelegationReward, ValidationRewards, to_delegation_reward,
}
use idena_indexer_api.Postgres.Keyed.{keyed_page}
use idena_indexer_api.Postgres.Keyed.Amounts.{Order, key_token}

module _ (d : Decimals) where
  open d use {Decimal}

  -- types.DelegateeReward
  pub record DelegateeReward : Type 0 where
    pub delegator_address : Text
    pub prev_state : Text
    pub state : Text
    pub rewards : List (DelegationReward d)

  -- The fields of types.DelegateeTotalRewards that the list fills.
  pub record DelegateeTotalRewards : Type 0 where
    pub address : Text
    pub rewards : List (DelegationReward d)
    pub delegators : ℕ
    pub penalized_delegators : ℕ

  -- What the loops make of the columns behind the key; `replace` is replaceValidationReward.
  unfoldable pub delegatee_reward :
      Bool → Text × Text × Text × ValidationRewards d → DelegateeReward
  unfolding to_delegation_reward
  delegatee_reward replace (address, prev_state, state, rewards) = record {
    delegator_address = address;
    prev_state = prev_state;
    state = state;
    rewards = to_delegation_reward d rewards replace;
  }

  unfoldable pub total_reward : Bool → Text × ValidationRewards d × ℕ × ℕ → DelegateeTotalRewards
  unfolding to_delegation_reward
  total_reward replace (address, rewards, delegators, penalized) = record {
    address = address;
    rewards = to_delegation_reward d rewards replace;
    delegators = delegators;
    penalized_delegators = penalized;
  }

  module _ (amounts : Amounts) where
    open amounts use {Amount}

    abbrev pub Query : Type 0 → Type 0
    Query A = ℕ → Option ℕ × Option Amount → Result PageError (List (Option ((ℕ × Amount) × A)))

    unfoldable pub epoch_delegatee_rewards :
        (ℕ → Text → Query DelegateeReward)
        → ℕ
        → Text
        → ℕ
        → Option Text
        → Result PageError (List DelegateeReward × Option Text)
    unfolding keyed_page parse_uint_and_amount_token amount_token
    epoch_delegatee_rewards query epoch address =
        keyed_page (parse_uint_and_amount_token amounts) (key_token amounts) (query epoch address)

    unfoldable pub epoch_delegatee_total_rewards :
        (ℕ → Query DelegateeTotalRewards)
        → ℕ
        → ℕ
        → Option Text
        → Result PageError (List DelegateeTotalRewards × Option Text)
    unfolding keyed_page parse_uint_and_amount_token amount_token
    epoch_delegatee_total_rewards query epoch =
        keyed_page (parse_uint_and_amount_token amounts) (key_token amounts) (query epoch)

module _ (amounts : Amounts) (order : Order amounts) where
  open amounts use {Amount}
  open order use {less, equal}

  -- The condition of epochDelegateeTotalRewards.sql on the epoch and the key of a row: with no
  -- parentheses AND binds before OR.
  unfoldable pub of_epoch_or_from : ℕ → Option ℕ × Option Amount → ℕ × ℕ × Amount → Bool
  of_epoch_or_from epoch (none, none) (e, i, r) = e == epoch
  of_epoch_or_from epoch (none, some reward) (e, i, r) = e == epoch || less r reward
  of_epoch_or_from epoch (some id, none) (e, i, r) = false
  of_epoch_or_from epoch (some id, some reward) (e, i, r) =
      equal r reward && leb id i || less r reward

-- The rows that a condition on their epoch and key selects.
unfoldable pub where_epoch : {K A : Type 0} → (ℕ × K → Bool) → List (ℕ × K × A) → List (K × A)
where_epoch test [] = []
where_epoch test ((e, k, a) ∷ t) =
    let rest = where_epoch test t in if test (e, k) then (k, a) ∷ rest else rest

-- epochDelegateeTotalRewards.sql over a table of all epochs in its order.
unfoldable pub run_total :
    {A : Type 0} (amounts : Amounts)
    → Order amounts
    → List (ℕ × (ℕ × amounts.Amount) × A)
    → ℕ
    → ℕ
    → Option ℕ × Option amounts.Amount
    → Result PageError (List (Option ((ℕ × amounts.Amount) × A)))
unfolding where_epoch of_epoch_or_from
run_total amounts order table epoch limit args = ok (
    map (λ e. some e)
      (take limit
        (where_epoch (λ (e, k). of_epoch_or_from amounts order epoch args (e, k.0, k.1)) table)))
