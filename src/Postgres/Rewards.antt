-- ===== src/Postgres/Rewards.antt =====
-- The rewards and the data of transactions that app/db/postgres/common.go makes of database rows.
pub mod Replacement
use idena_indexer_api.Prelude.{
  ℕ, ◌≡◌, Bool, true, false, ◌||◌, Option, none, some, List, [], ◌∷◌, ◌++◌, if◌then◌else◌, ltb,
}
use idena_indexer_api.Prelude.Text.{Text, codes, text_eq}

-- replaceCandidatesAndStaking
unfoldable pub replace_candidates_and_staking : Text → Text
replace_candidates_and_staking reward_type =
    if text_eq reward_type (codes "Candidate") || text_eq reward_type (codes "Staking")
    then codes "Validation"
    else reward_type

-- decimal.Decimal and the functions of it that are called
pub record Decimals : Type 1 where
  pub Decimal : Type 0
  pub is_zero : Decimal → Bool
  pub to_text : Decimal → Text

module _ (d : Decimals) where
  open d use {Decimal, is_zero, to_text}

  pub record DelegationReward : Type 0 where
    pub balance : Decimal
    pub type : Text

  pub record ValidationRewards : Type 0 where
    pub validation : Decimal
    pub flips : Decimal
    pub extra_flips : Decimal
    pub inv : Decimal
    pub inv2 : Decimal
    pub inv3 : Decimal
    pub invitee : Decimal
    pub invitee2 : Decimal
    pub invitee3 : Decimal
    pub saved_inv : Decimal
    pub saved_inv_win : Decimal
    pub reports : Decimal
    pub candidate : Decimal
    pub staking : Decimal

  -- One `if !x.IsZero() { res = append(res, …) }`.
  unfoldable pub add_reward : List DelegationReward → Decimal → Text → List DelegationReward
  add_reward res balance type =
      if is_zero balance then res else res ++ record { balance = balance; type = type } ∷ []

  unfoldable pub to_delegation_reward : ValidationRewards → Bool → List DelegationReward
  to_delegation_reward vr replace_validation =
      let r1 = add_reward [] vr.validation (codes "Validation") in
      let r2 = add_reward r1 vr.flips (codes "Flips") in
      let r3 = add_reward r2 vr.extra_flips (codes "ExtraFlips") in
      let r4 = add_reward r3 vr.inv (codes "Invitations") in
      let r5 = add_reward r4 vr.inv2 (codes "Invitations2") in
      let r6 = add_reward r5 vr.inv3 (codes "Invitations3") in
      let r7 = add_reward r6 vr.invitee (codes "Invitee") in
      let r8 = add_reward r7 vr.invitee2 (codes "Invitee2") in
      let r9 = add_reward r8 vr.invitee3 (codes "Invitee3") in
      let r10 = add_reward r9 vr.saved_inv (codes "SavedInvite") in
      let r11 = add_reward r10 vr.saved_inv_win (codes "SavedInviteWin") in
      let r12 = add_reward r11 vr.reports (codes "Reports") in
      let r13 =
        add_reward r12 vr.candidate
          (if replace_validation then codes "Validation" else codes "Candidate") in
      add_reward r13 vr.staking (if replace_validation then codes "Validation" else codes "Staking")

  -- NullDecimal and sql.NullBool: a column that may be null
  unfoldable pub read_activation_tx_specific_data : Option Decimal → Option Text
  read_activation_tx_specific_data none = none
  read_activation_tx_specific_data (some transfer) = some (to_text transfer)

  -- The data that goes with a transaction: a transfer, or becoming online or offline.
  pub data TxData : Type 0 where
    activation : Text → TxData
    kill : Text → TxData
    kill_invitee : Text → TxData
    online_status : Bool → TxData

  abbrev tagged : (Text → TxData) → Option Text → Option TxData
  tagged tag none = none
  tagged tag (some s) = some (tag s)

  unfoldable pub read_online_status_tx_specific_data : Option Bool → Option TxData
  read_online_status_tx_specific_data none = none
  read_online_status_tx_specific_data (some b) = some (online_status b)

  unfoldable pub read_tx_specific_data : Text → Option Decimal → Option Bool → Option TxData
  unfolding read_activation_tx_specific_data read_online_status_tx_specific_data
  read_tx_specific_data tx_type transfer become_online =
      if text_eq tx_type (codes "ActivationTx")
      then tagged activation (read_activation_tx_specific_data transfer)
      else if text_eq tx_type (codes "KillTx")
      then tagged kill (read_activation_tx_specific_data transfer)
      else if text_eq tx_type (codes "KillInviteeTx")
      then tagged kill_invitee (read_activation_tx_specific_data transfer)
      else if text_eq tx_type (codes "OnlineStatusTx")
      then read_online_status_tx_specific_data become_online
      else none

  -- feeRate: the fee per gas and the fee per byte, of which one is nil
  unfoldable pub fee_rate : Decimal → ℕ → ℕ → Option Decimal × Option Decimal
  fee_rate rate height embedded_contract_fork_height =
      if ltb height embedded_contract_fork_height then (none, some rate) else (some rate, none)
