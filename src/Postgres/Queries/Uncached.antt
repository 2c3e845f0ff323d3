-- ===== src/Postgres/Queries/Uncached.antt =====
-- The scripts of the methods that app/db/cached/accessor.go passes on with no cache, of those that run
-- one: OracleVotingContracts in app/db/postgres/contracts.go, OracleVotingContract in contract.go, and AddressContractTxBalanceUpdates
-- in address.go.
pub mod Fit
use idena_indexer_api.Prelude.{ℕ, Bool, Option, List, [], ◌∷◌, ◌++◌}
use idena_indexer_api.Prelude.Text.{Text, codes}
use idena_indexer_api.Prelude.Result.{Result, ok, err}
use idena_indexer_api.Postgres.Filter.{
  ContractsFilter, create_contracts_filter, VotingQuery, query_of, oracle_voting_contracts_all,
  ovc_all_sorted_by_dt, oracle_voting_contracts_all_open, ovc_all_open_sorted_by_dt,
  oracle_voting_contracts_by_oracle, ovc_by_oracle_sorted_by_dt,
}
use idena_indexer_api.Postgres.Paging.{PageError, parse_uint_continuation_token}
use idena_indexer_api.Postgres.Queries.{Argument, Query, query, string, nullable, id, flag, limit}

pub data UncachedCall : Type 0 where
  oracle_voting_contracts :
      Text → Text → List Text → Bool → Option Text → ℕ → Option Text → UncachedCall
  oracle_voting_contract : Text → Text → UncachedCall
  address_contract_tx_balance_updates : Text → Text → ℕ → Option Text → UncachedCall

unfoldable pub script_of : VotingQuery → Text
script_of oracle_voting_contracts_all = codes "oracleVotingContractsAll.sql"
script_of ovc_all_sorted_by_dt = codes "ovcAllSortedByDt.sql"
script_of oracle_voting_contracts_all_open = codes "oracleVotingContractsAllOpen.sql"
script_of ovc_all_open_sorted_by_dt = codes "ovcAllOpenSortedByDt.sql"
script_of oracle_voting_contracts_by_oracle = codes "oracleVotingContractsByOracle.sql"
script_of ovc_by_oracle_sorted_by_dt = codes "ovcByOracleSortedByDt.sql"

-- The flags of the states that are passed.
unfoldable pub flags_without_open : ContractsFilter → List Argument
flags_without_open f =
    flag f.state_pending
    ∷ flag f.state_counting
    ∷ flag f.state_archive
    ∷ flag f.state_terminated
    ∷ flag f.state_can_be_prolonged
    ∷ []

unfoldable pub flags_with_open : ContractsFilter → List Argument
flags_with_open f =
    flag f.state_pending
    ∷ flag f.state_open
    ∷ flag f.state_voted
    ∷ flag f.state_counting
    ∷ flag f.state_archive
    ∷ flag f.state_terminated
    ∷ flag f.state_can_be_prolonged
    ∷ []

unfoldable pub state_flags : ContractsFilter → VotingQuery → List Argument
unfolding flags_without_open flags_with_open
state_flags f oracle_voting_contracts_all = flags_without_open f
state_flags f ovc_all_sorted_by_dt = flags_without_open f
state_flags f oracle_voting_contracts_all_open = flags_with_open f
state_flags f ovc_all_open_sorted_by_dt = flags_with_open f
state_flags f oracle_voting_contracts_by_oracle = flags_with_open f
state_flags f ovc_by_oracle_sorted_by_dt = flags_with_open f

unfoldable pub voting_query : ContractsFilter → VotingQuery → Text → ℕ → Option Text → Query
unfolding script_of state_flags
voting_query f q oracle_address count continuation_token = query (script_of q) (
    nullable f.author_address
    ∷ string oracle_address
    ∷ (state_flags f q ++ limit count ∷ nullable continuation_token ∷ []))

-- No script is run for arguments that are refused.
unfoldable pub voting_queries :
    {E : Type 0} → Result E ContractsFilter → Text → ℕ → Option Text → List Query
unfolding voting_query query_of
voting_queries (err e) oracle_address count continuation_token = []
voting_queries (ok f) oracle_address count continuation_token =
    voting_query f (query_of f) oracle_address count continuation_token ∷ []

unfoldable pub update_queries : Text → Text → ℕ → Result PageError (Option ℕ) → List Query
update_queries address contract_address count (err e) = []
update_queries address contract_address count (ok continuation_id) =
    query (codes "addressContractTxBalanceUpdates.sql")
      (string address ∷ string contract_address ∷ limit count ∷ id continuation_id ∷ [])
    ∷ []

unfoldable pub uncached_queries : UncachedCall → List Query
unfolding voting_queries create_contracts_filter update_queries parse_uint_continuation_token
uncached_queries
      (oracle_voting_contracts author_address oracle_address states all sort_by count
        continuation_token) =
    voting_queries (create_contracts_filter author_address states all sort_by continuation_token)
      oracle_address count continuation_token
uncached_queries (oracle_voting_contract address oracle) =
    query (codes "oracleVotingContract.sql") (string address ∷ string oracle ∷ []) ∷ []
uncached_queries
      (address_contract_tx_balance_updates address contract_address count continuation_token) =
    update_queries address contract_address count (parse_uint_continuation_token continuation_token)
