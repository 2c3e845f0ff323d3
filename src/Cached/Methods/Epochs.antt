-- ===== src/Cached/Methods/Epochs.antt =====
-- The methods of app/db/cached/accessor.go on the blocks, flips, identities and transactions of an epoch.
use idena_indexer_api.Prelude.{ℕ, Option, List, [], ◌∷◌}
use idena_indexer_api.Prelude.Text.{Text, codes}
use idena_indexer_api.Cached.Key.{number, texts}
use idena_indexer_api.Cached.Entry.{Entry, entry, pointer_to}

pub data EpochCall : Type 0 where
  epoch_blocks : ℕ → ℕ → Option (ℕ × Text) → EpochCall
  epoch_flips_count : ℕ → EpochCall
  epoch_flips : ℕ → ℕ → Option (ℕ × Text) → EpochCall
  epoch_flip_answers_summary : ℕ → EpochCall
  epoch_flip_states_summary : ℕ → EpochCall
  epoch_flip_wrong_words_summary : ℕ → EpochCall
  epoch_identities_count : ℕ → List Text → List Text → EpochCall
  epoch_identities : ℕ → List Text → List Text → ℕ → Option (ℕ × Text) → EpochCall
  epoch_identity_states_summary : ℕ → EpochCall
  epoch_identity_states_interim_summary : ℕ → EpochCall
  epoch_invites_summary : ℕ → EpochCall
  epoch_invite_states_summary : ℕ → EpochCall
  epoch_invites_count : ℕ → EpochCall
  epoch_invites : ℕ → ℕ → Option (ℕ × Text) → EpochCall
  epoch_txs_count : ℕ → EpochCall
  epoch_txs : ℕ → ℕ → Option (ℕ × Text) → EpochCall
  epoch_coins : ℕ → EpochCall
  epoch_rewards_summary : ℕ → EpochCall

unfoldable pub epoch_entry : EpochCall → Entry
epoch_entry (epoch_blocks epoch count continuation_token) =
    entry (codes "EpochBlocks") (number epoch ∷ number count ∷ pointer_to continuation_token ∷ [])
      (codes "EpochBlocks") (number epoch ∷ number count ∷ pointer_to continuation_token ∷ [])
epoch_entry (epoch_flips_count epoch) =
    entry (codes "EpochFlipsCount") (number epoch ∷ []) (codes "EpochFlipsCount")
      (number epoch ∷ [])
epoch_entry (epoch_flips epoch count continuation_token) =
    entry (codes "EpochFlips") (number epoch ∷ number count ∷ pointer_to continuation_token ∷ [])
      (codes "EpochFlips") (number epoch ∷ number count ∷ pointer_to continuation_token ∷ [])
epoch_entry (epoch_flip_answers_summary epoch) =
    entry (codes "EpochFlipAnswersSummary") (number epoch ∷ []) (codes "EpochFlipAnswersSummary")
      (number epoch ∷ [])
epoch_entry (epoch_flip_states_summary epoch) =
    entry (codes "EpochFlipStatesSummary") (number epoch ∷ []) (codes "EpochFlipStatesSummary")
      (number epoch ∷ [])
epoch_entry (epoch_flip_wrong_words_summary epoch) =
    entry (codes "EpochFlipWrongWordsSummary") (number epoch ∷ [])
      (codes "EpochFlipWrongWordsSummary") (number epoch ∷ [])
epoch_entry (epoch_identities_count epoch prev_states states) =
    entry (codes "EpochIdentitiesCount") (number epoch ∷ texts prev_states ∷ texts states ∷ [])
      (codes "EpochIdentitiesCount") (number epoch ∷ texts prev_states ∷ texts states ∷ [])
epoch_entry (epoch_identities epoch prev_states states count continuation_token) =
    entry (codes "EpochIdentities")
      (number epoch
        ∷ texts prev_states
        ∷ texts states
        ∷ number count
        ∷ pointer_to continuation_token
        ∷ [])
      (codes "EpochIdentities")
      (number epoch
        ∷ texts prev_states
        ∷ texts states
        ∷ number count
        ∷ pointer_to continuation_token
        ∷ [])
epoch_entry (epoch_identity_states_summary epoch) =
    entry (codes "EpochIdentityStatesSummary") (number epoch ∷ [])
      (codes "EpochIdentityStatesSummary") (number epoch ∷ [])
epoch_entry (epoch_identity_states_interim_summary epoch) =
    entry (codes "EpochIdentityStatesInterimSummary") (number epoch ∷ [])
      (codes "EpochIdentityStatesInterimSummary") (number epoch ∷ [])
epoch_entry (epoch_invites_summary epoch) =
    entry (codes "EpochInvitesSummary") (number epoch ∷ []) (codes "EpochInvitesSummary")
      (number epoch ∷ [])
epoch_entry (epoch_invite_states_summary epoch) =
    entry (codes "EpochInviteStatesSummary") (number epoch ∷ []) (codes "EpochInviteStatesSummary")
      (number epoch ∷ [])
epoch_entry (epoch_invites_count epoch) =
    entry (codes "EpochInvitesCount") (number epoch ∷ []) (codes "EpochInvitesCount")
      (number epoch ∷ [])
epoch_entry (epoch_invites epoch count continuation_token) =
    entry (codes "EpochInvites") (number epoch ∷ number count ∷ pointer_to continuation_token ∷ [])
      (codes "EpochInvites") (number epoch ∷ number count ∷ pointer_to continuation_token ∷ [])
epoch_entry (epoch_txs_count epoch) =
    entry (codes "EpochTxsCount") (number epoch ∷ []) (codes "EpochTxsCount") (number epoch ∷ [])
epoch_entry (epoch_txs epoch count continuation_token) =
    entry (codes "EpochTxs") (number epoch ∷ number count ∷ pointer_to continuation_token ∷ [])
      (codes "EpochTxs") (number epoch ∷ number count ∷ pointer_to continuation_token ∷ [])
epoch_entry (epoch_coins epoch) =
    entry (codes "EpochCoins") (number epoch ∷ []) (codes "EpochCoins") (number epoch ∷ [])
epoch_entry (epoch_rewards_summary epoch) =
    entry (codes "EpochRewardsSummary") (number epoch ∷ []) (codes "EpochRewardsSummary")
      (number epoch ∷ [])
