-- ===== src/Service/Contracts/Bounds.antt =====
-- The length of the pages of app/service/contracts_service.go.
use idena_indexer_api.Prelude.{
  ℕ, ◌+◌, ◌-◌, ◌%◌, ◌≤◌, ◌<◌, ◌≡◌, refl, ap, ◌∙◌, Bool, Option, none, List, ◌++◌, map, arith,
  length, length-append, length-map,
}
use idena_indexer_api.Prelude.Text.{Text}
use idena_indexer_api.Prelude.Decimal.{u64_mod}
use idena_indexer_api.Prelude.Page.{Page}
use idena_indexer_api.Service.Contracts.{
  Chain, fill_page, MemPoolContract, OracleVotingContract, pending_contract, pending_contracts,
  oracle_voting_contracts, Transaction, ContractTxBalanceUpdate, balance_update,
  address_contract_tx_balance_updates,
}

module _ {E A : Type 0} (res : List A) (count : ℕ) (token : Option Text)
    (from_db : ℕ → Option Text → Page E A) where
  pub fill_page-fits :
      count < u64_mod
      → length res ≤ count
      → ((left : ℕ) → length (from_db left token).items ≤ left)
      → length (fill_page res count token from_db).items ≤ count
  unfolding fill_page
  fill_page-fits small h db =
      let left : (count + (u64_mod - length res % u64_mod)) % u64_mod ≡ count - length res =
        omega arith in
      rw left (
        ground (
          arith,
          db (count - length res),
          length-append res (from_db (count - length res) token).items,
        ))

  pub fill_page_wraps :
      count < length res
      → length res < u64_mod
      → fill_page res count token from_db ≡ (
          let left = u64_mod - (length res - count) in
          record {
            items = res ++ (from_db left token).items;
            next = (from_db left token).next;
            err = (from_db left token).err;
          })
  unfolding fill_page
  fill_page_wraps h small =
      let left : (count + (u64_mod - length res % u64_mod)) % u64_mod
          ≡ u64_mod - (length res - count) =
        omega arith in
      rw left (ground arith)

module _ (chain : Chain) where
  length-pending_contracts :
      (author : Text) (states : List Text) (all : Bool) (token : Option Text)
      (mem_pool : List (MemPoolContract chain))
      → length (pending_contracts chain author states all token mem_pool) ≤ length mem_pool
  unfolding pending_contracts
  length-pending_contracts author states all token mem_pool =
      ground (arith, length-map mem_pool (pending_contract chain author))

  -- If the mem pool has no more contracts than a page may hold, a number below 2 ^ 64, and the
  -- database keeps to the number that it is asked for, the page of oracle voting contracts is no
  -- longer than asked for.
  pub oracle_voting_contracts-le-count :
      {E : Type 0} (author : Text) (states : List Text) (all : Bool) (count : ℕ)
      (token : Option Text) (mem_pool : List (MemPoolContract chain))
      (from_db : ℕ → Option Text → Page E (OracleVotingContract chain))
      → count < u64_mod
      → length mem_pool ≤ count
      → ((left : ℕ) → length (from_db left token).items ≤ left)
      → length (oracle_voting_contracts chain author states all count token mem_pool from_db).items
        ≤ count
  oracle_voting_contracts-le-count author states all count token mem_pool from_db small h db =
      unfold oracle_voting_contracts in
      fill_page-fits (pending_contracts chain author states all token mem_pool) count token from_db
        small (omega (arith, length-pending_contracts author states all token mem_pool)) db

  -- If the mem pool has more transactions of an address with a contract than the first page may
  -- hold, and fewer than 2 ^ 64, the page has all of them, and the database is asked for 2 ^ 64
  -- less the excess.
  pub address_contract_tx_balance_updates_wraps :
      {E : Type 0} (contract_address : Text) (count : ℕ) (mem_pool : List (Transaction chain))
      (from_db : ℕ → Option Text → Page E (ContractTxBalanceUpdate chain))
      → count < length mem_pool
      → length mem_pool < u64_mod
      → (address_contract_tx_balance_updates chain contract_address count none mem_pool
          from_db).items
        ≡ map (balance_update chain contract_address) mem_pool
          ++ (from_db (u64_mod - (length mem_pool - count)) none).items
  address_contract_tx_balance_updates_wraps contract_address count mem_pool from_db h small =
      let updates = map (balance_update chain contract_address) mem_pool in
      let same : length updates ≡ length mem_pool =
        length-map mem_pool (balance_update chain contract_address) in
      unfold address_contract_tx_balance_updates in
      ap (λ p. p.items)
        (fill_page_wraps updates count none from_db (omega (arith, same)) (omega (arith, same)))
      ∙ rw same refl
