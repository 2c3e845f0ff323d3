-- ===== src/Service/Contracts.antt =====
-- app/service/contracts_service.go: the contracts and transactions of the mem pool in front of those
-- of the database.
pub mod Bounds
use idena_indexer_api.Prelude.{
  ℕ, zero, suc, ◌+◌, ◌-◌, ◌%◌, ◌==◌, Bool, true, false, ◌&&◌, ◌||◌, Option, none, some, List, [],
  ◌∷◌, ◌++◌, map, if◌then◌else◌, ltb, length,
}
use idena_indexer_api.Prelude.Text.{Text, codes, text_eq}
use idena_indexer_api.Prelude.Decimal.{u64_mod}
use idena_indexer_api.Prelude.Page.{Page}

-- What the service calls and does not contain: the amounts, addresses and times of idena-go.
pub record Chain : Type 1 where
  pub Amount : Type 0
  pub Decimal : Type 0
  pub Address : Type 0
  pub Time : Type 0
  pub Bytes : Type 0
  pub convert_to_float : Amount → Decimal
  pub hex : Address → Text
  pub timestamp_to_time : ℕ → Time

abbrev pub is_nil : {A : Type 0} → Option A → Bool
is_nil none = true
is_nil (some a) = false

-- Both functions end so: the rest of the page comes from the database, if there is room for it.
-- `count - uint64(len(res))` wraps at 64 bits.
unfoldable pub fill_page :
    {E A : Type 0} → List A → ℕ → Option Text → (ℕ → Option Text → Page E A) → Page E A
fill_page res count continuation_token from_db =
    let left = (count + (u64_mod - length res % u64_mod)) % u64_mod in
    let db = from_db left continuation_token in
    if ltb 0 left
    then record { items = res ++ db.items; next = db.next; err = db.err }
    else record { items = res; next = none; err = none }

module _ (chain : Chain) where
  open chain use {Amount, Decimal, Address, Time, Bytes, convert_to_float, hex, timestamp_to_time}

  -- service.OracleVotingContract, the fields that are read
  pub record MemPoolContract : Type 0 where
    pub contract_address : Address
    pub start_time : ℕ
    pub voting_duration : ℕ
    pub voting_min_payment : Option Amount
    pub fact : Bytes
    pub public_voting_duration : ℕ
    pub winner_threshold : ℕ
    pub quorum : ℕ
    pub committee_size : ℕ
    pub owner_deposit : Option Amount
    pub oracle_reward_fund : Option Amount
    pub refund_recipient : Option Address
    pub hash : Bytes

  -- types.OracleVotingContract, the fields that are set here
  pub record OracleVotingContract : Type 0 where
    pub contract_address : Text
    pub author : Text
    pub fact : Bytes
    pub state : Text
    pub start_time : Time
    pub min_payment : Option Decimal
    pub quorum : ℕ
    pub committee_size : ℕ
    pub voting_duration : ℕ
    pub public_voting_duration : ℕ
    pub winner_threshold : ℕ
    pub owner_deposit : Option Decimal
    pub oracle_reward_fund : Option Decimal
    pub refund_recipient : Text
    pub hash : Bytes

  abbrev optional : Option Amount → Option Decimal
  optional none = none
  optional (some a) = some (convert_to_float a)

  abbrev optional_hex : Option Address → Text
  optional_hex none = []
  optional_hex (some a) = hex a

  unfoldable pub pending_contract : Text → MemPoolContract → OracleVotingContract
  pending_contract author c = record {
    contract_address = hex c.contract_address;
    author = author;
    fact = c.fact;
    state = codes "Pending";
    start_time = timestamp_to_time c.start_time;
    min_payment = optional c.voting_min_payment;
    quorum = c.quorum;
    committee_size = c.committee_size;
    voting_duration = c.voting_duration;
    public_voting_duration = c.public_voting_duration;
    winner_threshold = c.winner_threshold;
    owner_deposit = optional c.owner_deposit;
    oracle_reward_fund = optional c.oracle_reward_fund;
    refund_recipient = optional_hex c.refund_recipient;
    hash = c.hash;
  }

  unfoldable pub include_pending : List Text → Bool
  include_pending [] = false
  include_pending (s ∷ states) = text_eq s (codes "Pending") || include_pending states

  -- `mem_pool` is what GetOracleVotingContractDeploys returns; its error is dropped.
  unfoldable pub pending_contracts :
      Text → List Text → Bool → Option Text → List MemPoolContract → List OracleVotingContract
  unfolding pending_contract include_pending
  pending_contracts author states all continuation_token mem_pool =
      if ltb 0 (length author) && is_nil continuation_token && include_pending states && all
      then map (pending_contract author) mem_pool
      else []

  unfoldable pub oracle_voting_contracts :
      {E : Type 0}
      → Text
      → List Text
      → Bool
      → ℕ
      → Option Text
      → List MemPoolContract
      → (ℕ → Option Text → Page E OracleVotingContract)
      → Page E OracleVotingContract
  unfolding pending_contracts fill_page
  oracle_voting_contracts author states all count continuation_token mem_pool from_db =
      fill_page (pending_contracts author states all continuation_token mem_pool) count
        continuation_token from_db

  -- service.Transaction and types.ContractTxBalanceUpdate, the fields that pass
  pub record Transaction : Type 0 where
    pub hash : Text
    pub type : ℕ
    pub from : Text
    pub to : Text
    pub amount : Decimal
    pub tips : Decimal
    pub max_fee : Decimal

  pub record ContractTxBalanceUpdate : Type 0 where
    pub hash : Text
    pub type : Text
    pub from : Text
    pub to : Text
    pub amount : Decimal
    pub tips : Decimal
    pub max_fee : Decimal
    pub address : Text
    pub contract_address : Text

  -- contractTxTypes: a missing key reads as ""
  unfoldable pub contract_tx_type : ℕ → Text
  contract_tx_type t =
      if t == 15
      then codes "DeployContract"
      else if t == 16
      then codes "CallContract"
      else if t == 17
      then codes "TerminateContract"
      else []

  unfoldable pub balance_update : Text → Transaction → ContractTxBalanceUpdate
  unfolding contract_tx_type
  balance_update contract_address tx = record {
    hash = tx.hash;
    type = contract_tx_type tx.type;
    from = tx.from;
    to = tx.to;
    amount = tx.amount;
    tips = tx.tips;
    max_fee = tx.max_fee;
    address = tx.from;
    contract_address = contract_address;
  }

  unfoldable pub address_contract_tx_balance_updates :
      {E : Type 0}
      → Text
      → ℕ
      → Option Text
      → List Transaction
      → (ℕ → Option Text → Page E ContractTxBalanceUpdate)
      → Page E ContractTxBalanceUpdate
  unfolding balance_update fill_page
  address_contract_tx_balance_updates contract_address count continuation_token mem_pool from_db =
      fill_page
        (if is_nil continuation_token then map (balance_update contract_address) mem_pool else [])
        count continuation_token from_db
