-- ===== src/Postgres/Examples.antt =====
-- The paging, the filter and the rewards of app/db/postgres on small inputs.
use idena_indexer_api.Prelude.{
  ℕ, ◌*◌, ◌/◌, ◌≡◌, ◌↔◌, refl, map, Bool, if◌then◌else◌, true, false, none, some, List, [], ◌∷◌,
  arith,
}
use idena_indexer_api.Prelude.Int.{ℤ, pos}
use idena_indexer_api.Prelude.Text.{Text, codes, text_eq}
use idena_indexer_api.Prelude.Result.{Result, ok, err}
use idena_indexer_api.Postgres.Paging.{page, parse_uint_continuation_token}
use idena_indexer_api.Postgres.Paging.Broken.{run_failing, page-run_failing}
use idena_indexer_api.Postgres.Paging.Script.{run_script, items, from_id}
use idena_indexer_api.Postgres.Paging.Walk.{walk, flat, AllShort, walk_complete}
use idena_indexer_api.Postgres.Filter.{ContractsFilter, create_contracts_filter, add_state}
use idena_indexer_api.Postgres.Filter.Choice.{Reflects, create_contracts_filter-Reflects}
use idena_indexer_api.Postgres.Votings.{
  OptionVotes, VotingRow, Voting, Terms, read_oracle_voting_contracts,
}
use idena_indexer_api.Postgres.Estimates.{quorum_size}
use idena_indexer_api.Postgres.Estimates.Examples.{fixed, fixed-Integers}
use idena_indexer_api.Postgres.Votings.Success.{IsSafe}
use idena_indexer_api.Postgres.Votings.Grouping.{
  Groups, readable, read_oracle_voting_contracts-Groups,
}
use idena_indexer_api.Postgres.Tokens.RoundTrip.{}
use idena_indexer_api.Postgres.Search.{search, is_number}
use idena_indexer_api.Postgres.States.{
  convert_identity_states, names_of, convert_identity_states_iff,
}
use idena_indexer_api.Postgres.Search.Texts.{search_of_text}
use idena_indexer_api.Postgres.OracleRewards.{Quotients, new_estimated_oracle_rewards_cache}
use idena_indexer_api.Postgres.OracleRewards.Loading.{
  Event, called, minute, replies, loads, replies-loads,
}
use idena_indexer_api.Postgres.Rewards.Replacement.{}

-- Five rows with their ids, latest first.
abbrev table : List (ℕ × Text)
table = (90, codes "e") ∷ (72, codes "d") ∷ (41, codes "c") ∷ (40, codes "b") ∷ (7, codes "a") ∷ []

-- Four rows are asked for, and the connection fails behind the second.
page-run_failing_example : page (run_failing 2 table) 4 none ≡ ok (codes "e" ∷ codes "d" ∷ [], none)
page-run_failing_example =
    page-run_failing table table none 4 2 (omega arith) (omega arith) (record {
      id = none;
      parses = unfold parse_uint_continuation_token in refl;
      selects = unfold from_id in refl;
    })

walk_complete_example :
    (pages : List (List Text)) × (walk (run_script table) 2 6 none ≡ some pages)
    × (flat pages ≡ items table)
    × AllShort 2 pages
walk_complete_example =
    walk_complete table 2 6 (omega arith) (omega arith)
      (
        (omega arith, (omega arith, (omega arith, (omega arith, tt)))),
        (
          (omega arith, (omega arith, (omega arith, tt))),
          ((omega arith, (omega arith, tt)), ((omega arith, tt), (tt, tt))),
        ),
      )
      (omega arith, (omega arith, (omega arith, (omega arith, (omega arith, tt))))) (omega arith)

abbrev states : List Text
states = codes "Open" ∷ codes "pending" ∷ []

abbrev filter : ContractsFilter
filter = record {
  author_address = some (codes "0x1");
  state_open = true;
  state_voted = false;
  state_counting = false;
  state_can_be_prolonged = false;
  state_pending = true;
  state_archive = false;
  state_terminated = false;
  sort_by_reward = true;
  all = false;
}

create_contracts_filter-Reflects_example : Reflects filter states none
unfolding create_contracts_filter add_state text_eq
create_contracts_filter-Reflects_example =
    create_contracts_filter-Reflects (codes "0x1") states false none (some (codes "12-7")) filter
      refl

-- A balance of 1000, a deposit of 100, and payments of 1 by a committee of 50.
abbrev terms : Terms ℤ
terms = record {
  balance = pos 100000;
  min_payment = some (pos 100);
  owner_fee = 1;
  committee_size = 50;
  quorum = 20;
  winner_threshold = 66;
  vote_proofs_count = 20;
  owner_deposit = some (pos 10000);
  oracle_reward_fund = none;
}

terms-IsSafe : IsSafe terms
unfolding quorum_size
terms-IsSafe = record {
  winner_threshold = λ e. omega (arith, e);
  committee_size = omega arith;
  vote_proofs_count = omega arith;
  min_votes = omega arith;
}

abbrev voting_row : Text → Text → OptionVotes → VotingRow ℕ ℕ ℤ
voting_row token address votes = record {
  token = token;
  contract_address = address;
  state = codes "Open";
  votes = some votes;
  start_time = 100;
  head_block_height = 500;
  head_block_timestamp = 10000;
  counting_block = some 600;
  public_voting_duration = 4320;
  stake = 10;
  terms = terms;
  rest = 0;
}

abbrev option_votes : ℕ → ℕ → OptionVotes
option_votes option count = record { option = option; count = count; all_count = count }

-- Two rows of one voting and one of another.
abbrev voting_rows : List (VotingRow ℕ ℕ ℤ)
voting_rows =
    voting_row (codes "1") (codes "0xa") (option_votes 0 5)
    ∷ voting_row (codes "2") (codes "0xa") (option_votes 1 7)
    ∷ voting_row (codes "3") (codes "0xb") (option_votes 0 2)
    ∷ []

abbrev days : ℕ → ℕ → ℕ
days stake size = 3

abbrev network_size : Result ℕ ℕ
network_size = ok 900

read_oracle_voting_contracts-Groups_example :
    (items : List (Voting ℕ ℤ)) × (token : Text) × (read_oracle_voting_contracts fixed days
        network_size
        (readable voting_rows)
      ≡ ok (items, token))
    × Groups voting_rows items
read_oracle_voting_contracts-Groups_example =
    read_oracle_voting_contracts-Groups fixed days network_size fixed-Integers 900 voting_rows refl
      (terms-IsSafe, (terms-IsSafe, (terms-IsSafe, tt)))

-- Whole numbers, and a division that is cut.
abbrev wholes : Quotients
wholes = record { Decimal = ℕ; of_whole = λ n. n; mul = λ a b. a * b; div = λ a b. a / b }

-- Two calls, a minute, and a call that fails.
abbrev calls : List (Event Text)
calls = called (ok 100) ∷ called (ok 250) ∷ minute ∷ called (err (codes "no node")) ∷ []

replies-loads_example : replies wholes calls new_estimated_oracle_rewards_cache ≡ loads wholes calls
replies-loads_example = replies-loads wholes calls

-- A database that knows a flip, and one that cannot look an epoch up, either.
abbrev knows : Text → Result ℕ Bool
knows script = ok (text_eq script (codes "isFlip.sql"))

abbrev knows_no_epochs : Text → Result ℕ Bool
knows_no_epochs script =
    if text_eq script (codes "isEpoch.sql") then err 1 else ok (text_eq script (codes "isFlip.sql"))

search_of_text_example : search knows (codes "bafy") ≡ search knows_no_epochs (codes "bafy")
unfolding text_eq is_number
search_of_text_example =
    search_of_text knows knows_no_epochs (codes "bafy") refl refl refl refl refl

convert_identity_states_iff_example :
    (convert_identity_states (codes "Newbie" ∷ codes "Human" ∷ []) ≡ ok (7 ∷ 8 ∷ []))
    ↔ (names_of (7 ∷ 8 ∷ []) ≡ map (λ n. some n) (codes "Newbie" ∷ codes "Human" ∷ []))
convert_identity_states_iff_example =
    convert_identity_states_iff (codes "Newbie" ∷ codes "Human" ∷ []) (7 ∷ 8 ∷ [])
