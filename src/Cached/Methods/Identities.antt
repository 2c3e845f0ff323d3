-- ===== src/Cached/Methods/Identities.antt =====
-- The methods of app/db/cached/accessor.go on identities.
use idena_indexer_api.Prelude.{ℕ, Option, [], ◌∷◌}
use idena_indexer_api.Prelude.Text.{Text, codes}
use idena_indexer_api.Cached.Key.{number, text}
use idena_indexer_api.Cached.Entry.{Entry, entry, pointer_to}

pub data IdentityCall : Type 0 where
  identity : Text → IdentityCall
  identity_age : Text → IdentityCall
  identity_current_flip_cids : Text → IdentityCall
  identity_epochs_count : Text → IdentityCall
  identity_epochs : Text → ℕ → Option (ℕ × Text) → IdentityCall
  identity_flips_count : Text → IdentityCall
  identity_flips : Text → ℕ → Option (ℕ × Text) → IdentityCall
  identity_flip_qualified_answers : Text → IdentityCall
  identity_flip_states : Text → IdentityCall
  identity_invites_count : Text → IdentityCall
  identity_invites : Text → ℕ → Option (ℕ × Text) → IdentityCall
  identity_txs_count : Text → IdentityCall
  identity_txs : Text → ℕ → Option (ℕ × Text) → IdentityCall
  identity_rewards_count : Text → IdentityCall
  identity_rewards : Text → ℕ → Option (ℕ × Text) → IdentityCall
  identity_epoch_rewards_count : Text → IdentityCall
  identity_epoch_rewards : Text → ℕ → Option (ℕ × Text) → IdentityCall

unfoldable pub identity_entry : IdentityCall → Entry
identity_entry (identity address) =
    entry (codes "Identity") (text address ∷ []) (codes "Identity") (text address ∷ [])
identity_entry (identity_age address) =
    entry (codes "IdentityAge") (text address ∷ []) (codes "IdentityAge") (text address ∷ [])
identity_entry (identity_current_flip_cids address) =
    entry (codes "IdentityCurrentFlipCids") (text address ∷ []) (codes "IdentityCurrentFlipCids")
      (text address ∷ [])
identity_entry (identity_epochs_count address) =
    entry (codes "IdentityEpochsCount") (text address ∷ []) (codes "IdentityEpochsCount")
      (text address ∷ [])
identity_entry (identity_epochs address count continuation_token) =
    entry (codes "IdentityEpochs")
      (text address ∷ number count ∷ pointer_to continuation_token ∷ []) (codes "IdentityEpochs")
      (text address ∷ number count ∷ pointer_to continuation_token ∷ [])
identity_entry (identity_flips_count address) =
    entry (codes "IdentityFlipsCount") (text address ∷ []) (codes "IdentityFlipsCount")
      (text address ∷ [])
identity_entry (identity_flips address count continuation_token) =
    entry (codes "IdentityFlips") (text address ∷ number count ∷ pointer_to continuation_token ∷ [])
      (codes "IdentityFlips") (text address ∷ number count ∷ pointer_to continuation_token ∷ [])
identity_entry (identity_flip_qualified_answers address) =
    entry (codes "IdentityFlipQualifiedAnswers") (text address ∷ [])
      (codes "IdentityFlipQualifiedAnswers") (text address ∷ [])
identity_entry (identity_flip_states address) =
    entry (codes "IdentityFlipStates") (text address ∷ []) (codes "IdentityFlipStates")
      (text address ∷ [])
identity_entry (identity_invites_count address) =
    entry (codes "IdentityInvitesCount") (text address ∷ []) (codes "IdentityInvitesCount")
      (text address ∷ [])
identity_entry (identity_invites address count continuation_token) =
    entry (codes "IdentityInvites")
      (text address ∷ number count ∷ pointer_to continuation_token ∷ []) (codes "IdentityInvites")
      (text address ∷ number count ∷ pointer_to continuation_token ∷ [])
identity_entry (identity_txs_count address) =
    entry (codes "IdentityTxsCount") (text address ∷ []) (codes "IdentityTxsCount")
      (text address ∷ [])
identity_entry (identity_txs address count continuation_token) =
    entry (codes "IdentityTxs") (text address ∷ number count ∷ pointer_to continuation_token ∷ [])
      (codes "IdentityTxs") (text address ∷ number count ∷ pointer_to continuation_token ∷ [])
identity_entry (identity_rewards_count address) =
    entry (codes "IdentityRewardsCount") (text address ∷ []) (codes "IdentityRewardsCount")
      (text address ∷ [])
identity_entry (identity_rewards address count continuation_token) =
    entry (codes "IdentityRewards")
      (text address ∷ number count ∷ pointer_to continuation_token ∷ []) (codes "IdentityRewards")
      (text address ∷ number count ∷ pointer_to continuation_token ∷ [])
identity_entry (identity_epoch_rewards_count address) =
    entry (codes "IdentityEpochRewardsCount") (text address ∷ [])
      (codes "IdentityEpochRewardsCount") (text address ∷ [])
identity_entry (identity_epoch_rewards address count continuation_token) =
    entry (codes "IdentityEpochRewards")
      (text address ∷ number count ∷ pointer_to continuation_token ∷ [])
      (codes "IdentityEpochRewards")
      (text address ∷ number count ∷ pointer_to continuation_token ∷ [])
