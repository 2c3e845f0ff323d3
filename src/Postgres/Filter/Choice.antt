-- ===== src/Postgres/Filter/Choice.antt =====
-- The filters that createContractsFilter of app/db/postgres/contracts.go makes of lists of states.
use idena_indexer_api.Prelude.{
  ◌≡◌, refl, ap, Bool, false, not, ◌&&◌, Option, none, some, List, arith, if◌then◌else◌, leb,
  length,
}
use idena_indexer_api.Prelude.Text.{Text, codes, text_eq}
use idena_indexer_api.Prelude.Result.{ok, err, bind_ok}
use idena_indexer_api.Postgres.Filter.{
  ContractsFilter, unknown_state, empty_filter, add_states, is_by_reward, choose_sorting,
  check_token, create_contracts_filter,
}
use idena_indexer_api.Postgres.Filter.Asking.{
  asks, stranger, asking, add_states-asking, all_new, some_state, is_by_reward-asked,
}

abbrev by_timestamp : Option Text → Bool
by_timestamp none = false
by_timestamp (some s) = text_eq s (codes "timestamp")

-- The states and the sorting that a filter holds.
abbrev pub Reflects : ContractsFilter → List Text → Option Text → Type 0
Reflects f states sort_by =
    (f.state_open ≡ asks states (codes "open"))
    × (f.state_voted ≡ asks states (codes "voted"))
    × (f.state_counting ≡ asks states (codes "counting"))
    × (f.state_can_be_prolonged ≡ asks states (codes "canbeprolonged"))
    × (f.state_pending ≡ asks states (codes "pending"))
    × (f.state_archive ≡ asks states (codes "archive"))
    × (f.state_terminated ≡ asks states (codes "terminated"))
    × (f.sort_by_reward ≡ (all_new states && some_state states && not (by_timestamp sort_by)))

choose_sorting-ok :
    (by : Bool) (sort_by : Option Text) (r : Bool)
    → choose_sorting by sort_by ≡ ok r
    → r ≡ (by && not (by_timestamp sort_by))
unfolding choose_sorting
choose_sorting-ok by none r h = ground (arith, h)
choose_sorting-ok by (some s) r h = ground (arith, h)

check_token-ok : (by : Bool) (token : Option Text) (r : Bool) → check_token by token ≡ ok r → r ≡ by
unfolding check_token
check_token-ok by token r h = ground (arith, h)

add_states-ok :
    (states : List Text) (g : ContractsFilter)
    → add_states empty_filter states ≡ ok g
    → (stranger states ≡ none) × (g ≡ asking empty_filter states)
add_states-ok states g h = ground (arith, h, add_states-asking empty_filter states)

Reflects-asking :
    (states : List Text) (sort_by : Option Text) (f g : ContractsFilter) (r : Bool)
    (author : Option Text) (all : Bool)
    → stranger states ≡ none
    → g ≡ asking empty_filter states
    → choose_sorting (is_by_reward g) sort_by ≡ ok r
    → f ≡ record g { author_address = author; sort_by_reward = r; all = all }
    → Reflects f states sort_by
unfolding empty_filter
Reflects-asking states sort_by f g r author all known g_eq er f_eq =
    let by = choose_sorting-ok (is_by_reward g) sort_by r er in
    let new = is_by_reward-asked states known in
    ground (arith, by, new, g_eq, f_eq, ap is_by_reward g_eq)

-- A filter that createContractsFilter returns has the flags of exactly the states asked for, in any
-- case of their letters; it sorts by reward when states are asked for, each of them is open or
-- pending, and sortBy is not "timestamp".
pub create_contracts_filter-Reflects :
    (author : Text) (states : List Text) (all : Bool) (sort_by token : Option Text)
    (f : ContractsFilter)
    → create_contracts_filter author states all sort_by token ≡ ok f
    → Reflects f states sort_by
unfolding create_contracts_filter
create_contracts_filter-Reflects author states all sort_by token f h =
    let (g, eg, hg) = bind_ok (add_states empty_filter states) _ f h in
    let (r, er, hr) = bind_ok (choose_sorting (is_by_reward g) sort_by) _ f hg in
    let (c, ec, hc) = bind_ok (check_token r token) _ f hr in
    let (known, g_eq) = add_states-ok states g eg in
    Reflects-asking states sort_by f g r (if leb 1 (length author) then some author else none) all
      known g_eq er (ground (arith, hc, check_token-ok r token c ec))

-- createContractsFilter names the first state it does not know, whatever the other arguments are.
pub create_contracts_filter_unknown :
    (author : Text) (states : List Text) (all : Bool) (sort_by token : Option Text) (s : Text)
    → stranger states ≡ some s
    → create_contracts_filter author states all sort_by token ≡ err (unknown_state s)
unfolding create_contracts_filter
create_contracts_filter_unknown author states all sort_by token s h =
    rw (add_states-asking empty_filter states, h) refl
