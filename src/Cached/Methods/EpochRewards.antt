-- ===== src/Cached/Methods/EpochRewards.antt =====
-- The methods of app/db/cached/accessor.go on the rewards of an epoch.
use idena_indexer_api.Prelude.{ℕ, Option, [], ◌∷◌}
use idena_indexer_api.Prelude.Text.{Text, codes}
use idena_indexer_api.Cached.Key.{number}
use idena_indexer_api.Cached.Entry.{Entry, entry, pointer_to}

pub data EpochRewardCall : Type 0 where
  epoch_bad_authors_count : ℕ → EpochRewardCall
  epoch_bad_authors : ℕ → ℕ → Option (ℕ × Text) → EpochRewardCall
  epoch_identities_rewards_count : ℕ → EpochRewardCall
  epoch_identities_rewards : ℕ → ℕ → Option (ℕ × Text) → EpochRewardCall
  epoch_fund_payments : ℕ → EpochRewardCall
  epoch_reward_bounds : ℕ → EpochRewardCall
  epoch_delegatee_total_rewards : ℕ → ℕ → Option (ℕ × Text) → EpochRewardCall

unfoldable pub epoch_reward_entry : EpochRewardCall → Entry
epoch_reward_entry (epoch_bad_authors_count epoch) =
    entry (codes "EpochBadAuthorsCount") (number epoch ∷ []) (codes "EpochBadAuthorsCount")
      (number epoch ∷ [])
epoch_reward_entry (epoch_bad_authors epoch count continuation_token) =
    entry (codes "EpochBadAuthors")
      (number epoch ∷ number count ∷ pointer_to continuation_token ∷ []) (codes "EpochBadAuthors")
      (number epoch ∷ number count ∷ pointer_to continuation_token ∷ [])
epoch_reward_entry (epoch_identities_rewards_count epoch) =
    entry (codes "EpochIdentitiesRewardsCount") (number epoch ∷ [])
      (codes "EpochIdentitiesRewardsCount") (number epoch ∷ [])
epoch_reward_entry (epoch_identities_rewards epoch count continuation_token) =
    entry (codes "EpochIdentitiesRewards")
      (number epoch ∷ number count ∷ pointer_to continuation_token ∷ [])
      (codes "EpochIdentitiesRewards")
      (number epoch ∷ number count ∷ pointer_to continuation_token ∷ [])
epoch_reward_entry (epoch_fund_payments epoch) =
    entry (codes "EpochFundPayments") (number epoch ∷ []) (codes "EpochFundPayments")
      (number epoch ∷ [])
epoch_reward_entry (epoch_reward_bounds epoch) =
    entry (codes "EpochRewardBounds") (number epoch ∷ []) (codes "EpochRewardBounds")
      (number epoch ∷ [])
epoch_reward_entry (epoch_delegatee_total_rewards epoch count continuation_token) =
    entry (codes "EpochDelegateeTotalRewards")
      (number epoch ∷ number count ∷ pointer_to continuation_token ∷ [])
      (codes "EpochDelegateeTotalRewards")
      (number epoch ∷ number count ∷ pointer_to continuation_token ∷ [])
