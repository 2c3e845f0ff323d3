-- ===== src/Cached/Methods/EpochIdentities.antt =====
-- The methods of app/db/cached/accessor.go on an identity in an epoch.
use idena_indexer_api.Prelude.{ℕ, Option, [], ◌∷◌}
use idena_indexer_api.Prelude.Text.{Text, codes}
use idena_indexer_api.Cached.Key.{number, text}
use idena_indexer_api.Cached.Entry.{Entry, entry, pointer_to}

pub data EpochIdentityCall : Type 0 where
  epoch_identity : ℕ → Text → EpochIdentityCall
  epoch_identity_short_flips_to_solve : ℕ → Text → EpochIdentityCall
  epoch_identity_long_flips_to_solve : ℕ → Text → EpochIdentityCall
  epoch_identity_short_answers : ℕ → Text → EpochIdentityCall
  epoch_identity_long_answers : ℕ → Text → EpochIdentityCall
  epoch_identity_flips : ℕ → Text → EpochIdentityCall
  epoch_identity_flips_with_reward_flag : ℕ → Text → EpochIdentityCall
  epoch_identity_reported_flip_rewards : ℕ → Text → EpochIdentityCall
  epoch_identity_rewards : ℕ → Text → EpochIdentityCall
  epoch_identity_bad_author : ℕ → Text → EpochIdentityCall
  epoch_identity_invites_with_reward_flag : ℕ → Text → EpochIdentityCall
  epoch_identity_saved_invite_rewards : ℕ → Text → EpochIdentityCall
  epoch_identity_available_invites : ℕ → Text → EpochIdentityCall
  epoch_identity_invitee_with_reward_flag : ℕ → Text → EpochIdentityCall
  epoch_identity_validation_summary : ℕ → Text → EpochIdentityCall
  epoch_address_delegatee_total_rewards : ℕ → Text → EpochIdentityCall
  epoch_delegatee_rewards : ℕ → Text → ℕ → Option (ℕ × Text) → EpochIdentityCall

unfoldable pub epoch_identity_entry : EpochIdentityCall → Entry
epoch_identity_entry (epoch_identity epoch address) =
    entry (codes "EpochIdentity") (number epoch ∷ text address ∷ []) (codes "EpochIdentity")
      (number epoch ∷ text address ∷ [])
epoch_identity_entry (epoch_identity_short_flips_to_solve epoch address) =
    entry (codes "EpochIdentityShortFlipsToSolve") (number epoch ∷ text address ∷ [])
      (codes "EpochIdentityShortFlipsToSolve") (number epoch ∷ text address ∷ [])
epoch_identity_entry (epoch_identity_long_flips_to_solve epoch address) =
    entry (codes "EpochIdentityLongFlipsToSolve") (number epoch ∷ text address ∷ [])
      (codes "EpochIdentityLongFlipsToSolve") (number epoch ∷ text address ∷ [])
epoch_identity_entry (epoch_identity_short_answers epoch address) =
    entry (codes "EpochIdentityShortAnswers") (number epoch ∷ text address ∷ [])
      (codes "EpochIdentityShortAnswers") (number epoch ∷ text address ∷ [])
epoch_identity_entry (epoch_identity_long_answers epoch address) =
    entry (codes "EpochIdentityLongAnswers") (number epoch ∷ text address ∷ [])
      (codes "EpochIdentityLongAnswers") (number epoch ∷ text address ∷ [])
epoch_identity_entry (epoch_identity_flips epoch address) =
    entry (codes "EpochIdentityFlips") (number epoch ∷ text address ∷ [])
      (codes "EpochIdentityFlips") (number epoch ∷ text address ∷ [])
epoch_identity_entry (epoch_identity_flips_with_reward_flag epoch address) =
    entry (codes "EpochIdentityFlipsWithRewardFlag") (number epoch ∷ text address ∷ [])
      (codes "EpochIdentityFlipsWithRewardFlag") (number epoch ∷ text address ∷ [])
epoch_identity_entry (epoch_identity_reported_flip_rewards epoch address) =
    entry (codes "EpochIdentityReportedFlipRewards") (number epoch ∷ text address ∷ [])
      (codes "EpochIdentityReportedFlipRewards") (number epoch ∷ text address ∷ [])
epoch_identity_entry (epoch_identity_rewards epoch address) =
    entry (codes "EpochIdentityRewards") (number epoch ∷ text address ∷ [])
      (codes "EpochIdentityRewards") (number epoch ∷ text address ∷ [])
epoch_identity_entry (epoch_identity_bad_author epoch address) =
    entry (codes "EpochIdentityBadAuthor") (number epoch ∷ text address ∷ [])
      (codes "EpochIdentityBadAuthor") (number epoch ∷ text address ∷ [])
epoch_identity_entry (epoch_identity_invites_with_reward_flag epoch address) =
    entry (codes "EpochIdentityInvitesWithRewardFlag") (number epoch ∷ text address ∷ [])
      (codes "EpochIdentityInvitesWithRewardFlag") (number epoch ∷ text address ∷ [])
epoch_identity_entry (epoch_identity_saved_invite_rewards epoch address) =
    entry (codes "EpochIdentitySavedInviteRewards") (number epoch ∷ text address ∷ [])
      (codes "EpochIdentitySavedInviteRewards") (number epoch ∷ text address ∷ [])
epoch_identity_entry (epoch_identity_available_invites epoch address) =
    entry (codes "EpochIdentityAvailableInvites") (number epoch ∷ text address ∷ [])
      (codes "EpochIdentityAvailableInvites") (number epoch ∷ text address ∷ [])
epoch_identity_entry (epoch_identity_invitee_with_reward_flag epoch address) =
    entry (codes "EpochIdentityInviteeWithRewardFlag") (number epoch ∷ text address ∷ [])
      (codes "EpochIdentityInviteeWithRewardFlag") (number epoch ∷ text address ∷ [])
epoch_identity_entry (epoch_identity_validation_summary epoch address) =
    entry (codes "EpochIdentityValidationSummary") (number epoch ∷ text address ∷ [])
      (codes "EpochIdentityValidationSummary") (number epoch ∷ text address ∷ [])
epoch_identity_entry (epoch_address_delegatee_total_rewards epoch address) =
    entry (codes "EpochAddressDelegateeTotalRewards") (number epoch ∷ text address ∷ [])
      (codes "EpochAddressDelegateeTotalRewards") (number epoch ∷ text address ∷ [])
epoch_identity_entry (epoch_delegatee_rewards epoch address count continuation_token) =
    entry (codes "EpochDelegateeRewards")
      (number epoch ∷ text address ∷ number count ∷ pointer_to continuation_token ∷ [])
      (codes "EpochDelegateeRewards")
      (number epoch ∷ text address ∷ number count ∷ pointer_to continuation_token ∷ [])
