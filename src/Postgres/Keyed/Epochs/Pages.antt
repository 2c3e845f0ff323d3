-- ===== src/Postgres/Keyed/Epochs/Pages.antt =====
-- The pages of EpochDelegateeRewards of app/db/postgres/epoch_delegatee.go, over the rewards that its
-- script reads.
use idena_indexer_api.Prelude.{ℕ, ◌+◌, ◌-◌, ◌^◌, ◌≤◌, ◌<◌, ◌≡◌, List, length, take, drop}
use idena_indexer_api.Prelude.Text.{Text}
use idena_indexer_api.Prelude.Result.{ok}
use idena_indexer_api.Postgres.Tokens.{Amounts}
use idena_indexer_api.Postgres.Tokens.RoundTrip.{}
use idena_indexer_api.Postgres.Keyed.Amounts.{Order, from_amount, amounts_script, amounts_tokens}
use idena_indexer_api.Postgres.Rewards.{Decimals}
use idena_indexer_api.Postgres.Keyed.Script.{run_keyed, IsSorted}
use idena_indexer_api.Postgres.Keyed.Page.{values, token_behind, HaveTokens, keyed_page_lem}
use idena_indexer_api.Postgres.Keyed.Epochs.{DelegateeReward, epoch_delegatee_rewards}

-- Over the rewards of a delegatee in an epoch, in the order of epochDelegateeRewards.sql, by falling
-- reward and then by id, whose ids fit 64 bits and whose rewards print without a dash, a call of
-- EpochDelegateeRewards for `n` rows, 0 < n < 2 ^ 63 - 1, with the token of the rows behind the first
-- `k`, where k is 0 or there are more than k, returns the next `n` of them, and the token of the rows
-- behind those, or none at the end.
pub epoch_delegatee_rewards-page :
    (d : Decimals) (amounts : Amounts) (order : Order amounts)
    (tables : ℕ → Text → List ((ℕ × amounts.Amount) × DelegateeReward d)) (epoch : ℕ)
    (address : Text) (n k : ℕ)
    → n + 1 < 2 ^ 63
    → 0 < n
    → k ≤ length (tables epoch address) - 1
    → IsSorted (amounts_script amounts order) (tables epoch address)
    → HaveTokens (amounts_tokens amounts order) (tables epoch address)
    → epoch_delegatee_rewards d amounts
        (λ e a. run_keyed (from_amount amounts order) (tables e a))
        epoch
        address
        n
        (token_behind (amounts_tokens amounts order) k (tables epoch address))
      ≡ ok (
        values (take n (drop k (tables epoch address))),
        token_behind (amounts_tokens amounts order) (k + n) (tables epoch address),
      )
unfolding epoch_delegatee_rewards
epoch_delegatee_rewards-page d amounts order tables epoch address n k small p h sorted has =
    keyed_page_lem (amounts_tokens amounts order) (tables epoch address) n k small p h sorted has
