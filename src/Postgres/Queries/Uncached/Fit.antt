-- ===== src/Postgres/Queries/Uncached/Fit.antt =====
-- The scripts of the methods that app/db/cached/accessor.go passes on with no cache, and the number of
-- their parameters.
use idena_indexer_api.Prelude.{ℕ, ◌≡◌, refl, true, Option, [], ◌∷◌}
use idena_indexer_api.Prelude.Text.{Text, text_eq}
use idena_indexer_api.Prelude.Assoc.{find}
use idena_indexer_api.Prelude.Result.{Result, ok, err}
use idena_indexer_api.Postgres.Filter.{
  ContractsFilter, create_contracts_filter, VotingQuery, query_of, oracle_voting_contracts_all,
  ovc_all_sorted_by_dt, oracle_voting_contracts_all_open, ovc_all_open_sorted_by_dt,
  oracle_voting_contracts_by_oracle, ovc_by_oracle_sorted_by_dt,
}
use idena_indexer_api.Postgres.Paging.{PageError, parse_uint_continuation_token}
use idena_indexer_api.Postgres.Queries.Fit.{all_fit, get_query}
use idena_indexer_api.Postgres.Queries.Uncached.{
  UncachedCall, oracle_voting_contracts, oracle_voting_contract,
  address_contract_tx_balance_updates, voting_query, voting_queries, update_queries,
  uncached_queries,
}

voting_query-fit :
    (f : ContractsFilter) (q : VotingQuery) (oracle_address : Text) (count : ℕ)
    (continuation_token : Option Text)
    → all_fit (voting_query f q oracle_address count continuation_token ∷ []) ≡ true
unfolding all_fit get_query find text_eq voting_query
voting_query-fit f oracle_voting_contracts_all oracle_address count token = refl
voting_query-fit f ovc_all_sorted_by_dt oracle_address count token = refl
voting_query-fit f oracle_voting_contracts_all_open oracle_address count token = refl
voting_query-fit f ovc_all_open_sorted_by_dt oracle_address count token = refl
voting_query-fit f oracle_voting_contracts_by_oracle oracle_address count token = refl
voting_query-fit f ovc_by_oracle_sorted_by_dt oracle_address count token = refl

voting_queries-fit :
    {E : Type 0} (r : Result E ContractsFilter) (oracle_address : Text) (count : ℕ)
    (continuation_token : Option Text)
    → all_fit (voting_queries r oracle_address count continuation_token) ≡ true
unfolding all_fit voting_queries
voting_queries-fit (err e) oracle_address count token = refl
voting_queries-fit (ok f) oracle_address count token =
    voting_query-fit f (query_of f) oracle_address count token

update_queries-fit :
    (address contract_address : Text) (count : ℕ) (r : Result PageError (Option ℕ))
    → all_fit (update_queries address contract_address count r) ≡ true
unfolding all_fit get_query find text_eq update_queries
update_queries-fit address contract_address count (err e) = refl
update_queries-fit address contract_address count (ok id) = refl

-- Whatever the arguments of OracleVotingContracts, of OracleVotingContract and of
-- AddressContractTxBalanceUpdates, getQuery finds the script that the method runs, if it runs one, and
-- the script has as many parameters as it gets arguments, for each of the six scripts of votings.
pub uncached_queries-fit : (c : UncachedCall) → all_fit (uncached_queries c) ≡ true
unfolding uncached_queries
uncached_queries-fit
      (oracle_voting_contracts author_address oracle_address states all sort_by count token) =
    voting_queries-fit (create_contracts_filter author_address states all sort_by token)
      oracle_address count token
uncached_queries-fit (oracle_voting_contract address oracle) =
    unfold all_fit get_query find text_eq in refl
uncached_queries-fit (address_contract_tx_balance_updates address contract_address count token) =
    update_queries-fit address contract_address count (parse_uint_continuation_token token)
