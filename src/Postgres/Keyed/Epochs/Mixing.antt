-- ===== src/Postgres/Keyed/Epochs/Mixing.antt =====
-- The rows of other epochs in EpochDelegateeTotalRewards of app/db/postgres/epoch.go.
use idena_indexer_api.Prelude.{ℕ, ◌≡◌, refl, ◌⊎◌, inl, inr, Option, none, some, List, [], ◌∷◌}
use idena_indexer_api.Prelude.Text.{Text}
use idena_indexer_api.Prelude.Decimal.{parse_uint}
use idena_indexer_api.Prelude.Result.{Result, ok, err, ◌>>=◌}
use idena_indexer_api.Postgres.Paging.{
  PageError, invalid_continuation_token, invalid_amount, parse_uint_continuation_token,
}
use idena_indexer_api.Postgres.Tokens.{
  Amounts, split_dash, of_parts, amount_of, parse_uint_and_amount_token,
}
use idena_indexer_api.Postgres.Keyed.Amounts.{Order}
use idena_indexer_api.Postgres.Rewards.{Decimals}
use idena_indexer_api.Postgres.Keyed.{keyed_page}
use idena_indexer_api.Postgres.Keyed.Epochs.{
  DelegateeTotalRewards, epoch_delegatee_total_rewards, of_epoch_or_from, run_total,
}

module _ (amounts : Amounts) where
  open amounts use {Amount, new_from_string}

  -- A token is refused or holds both parts of the key.
  abbrev RefusedOrBoth : Result PageError (Option ℕ × Option Amount) → Type 0
  RefusedOrBoth r =
      ((e : PageError) × (r ≡ err e)) ⊎ ((id : ℕ) × (a : Amount) × (r ≡ ok (some id, some a)))

  with_amount :
      (id : ℕ) (a : Option Amount) → RefusedOrBoth (amount_of amounts a >>= λ b. ok (some id, b))
  with_amount id none = inl (invalid_amount, refl)
  with_amount id (some a) = inr (id, a, refl)

  with_id :
      (n : Option ℕ) (a : Option Amount)
      → RefusedOrBoth (
          elim n as (λ _. Result PageError (Option ℕ)) [
            | none ↦ err invalid_continuation_token
            | some m ↦ ok (some m)
          ]
          >>= λ id. amount_of amounts a >>= λ b. ok (id, b))
  with_id none a = inl (invalid_continuation_token, refl)
  with_id (some id) a = with_amount id a

  of_parts-RefusedOrBoth : (ws : List Text) → RefusedOrBoth (of_parts amounts ws)
  unfolding parse_uint_continuation_token
  of_parts-RefusedOrBoth [] = inl (invalid_continuation_token, refl)
  of_parts-RefusedOrBoth (s ∷ []) = inl (invalid_continuation_token, refl)
  of_parts-RefusedOrBoth (s ∷ t ∷ []) = with_id (parse_uint s) (new_from_string t)
  of_parts-RefusedOrBoth (s ∷ t ∷ u ∷ ws) = inl (invalid_continuation_token, refl)

  parse-RefusedOrBoth : (t : Text) → RefusedOrBoth (parse_uint_and_amount_token amounts (some t))
  unfolding parse_uint_and_amount_token
  parse-RefusedOrBoth t = of_parts-RefusedOrBoth (split_dash t)

-- A request of EpochDelegateeTotalRewards with a token gets the same answer for every epoch, whatever
-- the table, the token and the number of rows asked for.
pub epoch_delegatee_total_rewards_mixes :
    (d : Decimals) (amounts : Amounts) (order : Order amounts)
    (table : List (ℕ × (ℕ × amounts.Amount) × DelegateeTotalRewards d)) (e e' n : ℕ) (token : Text)
    → epoch_delegatee_total_rewards d amounts (run_total amounts order table) e n (some token)
      ≡ epoch_delegatee_total_rewards d amounts (run_total amounts order table) e' n (some token)
unfolding epoch_delegatee_total_rewards keyed_page run_total of_epoch_or_from
epoch_delegatee_total_rewards_mixes d amounts order table e e' n token =
    elim (parse-RefusedOrBoth amounts token) [ inl (x, h) ↦ rw h refl | inr (id, a, h) ↦ rw h refl ]
