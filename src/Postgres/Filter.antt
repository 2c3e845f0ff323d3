-- ===== src/Postgres/Filter.antt =====
-- The filter of the oracle votings that app/db/postgres/contracts.go makes of the states asked for,
-- and the script that OracleVotingContracts runs for it.
pub mod Asking
pub mod Choice
use idena_indexer_api.Prelude.{
  ◌≡◌, Bool, true, false, not, ◌&&◌, ◌||◌, Option, none, some, List, [], ◌∷◌, if◌then◌else◌, leb,
  length,
}
use idena_indexer_api.Prelude.Text.{Text, codes, text_eq, to_lower}
use idena_indexer_api.Prelude.Result.{Result, ok, err, ◌>>=◌}
use idena_indexer_api.Postgres.Paging.{parse_uint_continuation_token}

pub record ContractsFilter : Type 0 where
  pub author_address : Option Text
  pub state_open : Bool
  pub state_voted : Bool
  pub state_counting : Bool
  pub state_can_be_prolonged : Bool
  pub state_pending : Bool
  pub state_archive : Bool
  pub state_terminated : Bool
  pub sort_by_reward : Bool
  pub all : Bool

pub data FilterError : Type 0 where
  unknown_state : Text → FilterError
  invalid_combination : FilterError
  invalid_continuation_token : FilterError

unfoldable pub empty_filter : ContractsFilter
empty_filter = record {
  author_address = none;
  state_open = false;
  state_voted = false;
  state_counting = false;
  state_can_be_prolonged = false;
  state_pending = false;
  state_archive = false;
  state_terminated = false;
  sort_by_reward = false;
  all = false;
}

-- One round of the loop over the states.
unfoldable pub add_state : ContractsFilter → Text → Result FilterError ContractsFilter
unfolding to_lower
add_state res state =
    let s = to_lower state in
    if text_eq s (codes "open")
    then ok (record res { state_open = true })
    else if text_eq s (codes "voted")
    then ok (record res { state_voted = true })
    else if text_eq s (codes "counting")
    then ok (record res { state_counting = true })
    else if text_eq s (codes "canbeprolonged")
    then ok (record res { state_can_be_prolonged = true })
    else if text_eq s (codes "pending")
    then ok (record res { state_pending = true })
    else if text_eq s (codes "archive")
    then ok (record res { state_archive = true })
    else if text_eq s (codes "terminated")
    then ok (record res { state_terminated = true })
    else err (unknown_state state)

unfoldable pub add_states : ContractsFilter → List Text → Result FilterError ContractsFilter
add_states res [] = ok res
add_states res (state ∷ states) = add_state res state >>= λ next. add_states next states

unfoldable pub is_by_reward : ContractsFilter → Bool
is_by_reward res =
    (res.state_open || res.state_pending)
    && not (
        res.state_voted || res.state_counting || res.state_can_be_prolonged || res.state_archive
        || res.state_terminated)

-- The answer to sortBy, which may be nil.
unfoldable pub choose_sorting : Bool → Option Text → Result FilterError Bool
choose_sorting by_reward none = ok by_reward
choose_sorting by_reward (some sort_by) =
    if not by_reward && text_eq sort_by (codes "reward")
    then err invalid_combination
    else ok (if by_reward && text_eq sort_by (codes "timestamp") then false else by_reward)

-- The check of the token, whose number is not kept.
unfoldable pub check_token : Bool → Option Text → Result FilterError Bool
unfolding parse_uint_continuation_token
check_token by_reward token =
    if by_reward then ok by_reward else elim (parse_uint_continuation_token token) [
      | ok _ ↦ ok by_reward
      | err _ ↦ err invalid_continuation_token
    ]

unfoldable pub create_contracts_filter :
    Text → List Text → Bool → Option Text → Option Text → Result FilterError ContractsFilter
unfolding empty_filter add_states is_by_reward choose_sorting check_token
create_contracts_filter author_address states all sort_by continuation_token = do
  res ← add_states empty_filter states
  by_reward ← choose_sorting (is_by_reward res) sort_by
  checked ← check_token by_reward continuation_token
  ok (record res {
    author_address = if leb 1 (length author_address) then some author_address else none;
    sort_by_reward = checked;
    all = all;
  })

-- The script, and whether the states `open` and `voted` are among its arguments.
pub data VotingQuery : Type 0 where
  oracle_voting_contracts_all : VotingQuery
  ovc_all_sorted_by_dt : VotingQuery
  oracle_voting_contracts_all_open : VotingQuery
  ovc_all_open_sorted_by_dt : VotingQuery
  oracle_voting_contracts_by_oracle : VotingQuery
  ovc_by_oracle_sorted_by_dt : VotingQuery

unfoldable pub query_of : ContractsFilter → VotingQuery
query_of filter =
    if filter.all
    then (if not filter.state_open && not filter.state_voted
        then (if filter.sort_by_reward then oracle_voting_contracts_all else ovc_all_sorted_by_dt)
        else if filter.sort_by_reward
        then oracle_voting_contracts_all_open
        else ovc_all_open_sorted_by_dt)
    else if filter.sort_by_reward
    then oracle_voting_contracts_by_oracle
    else ovc_by_oracle_sorted_by_dt
