-- ===== src/Postgres/Votings.antt =====
-- readOracleVotingContracts of app/db/postgres/contracts.go: the rows of a voting, one for each option,
-- become one item; and the times and the rewards that it estimates.
pub mod Success
pub mod Grouping
use idena_indexer_api.Prelude.{
  ℕ, ◌+◌, ◌-◌, ◌*◌, ◌%◌, Bool, true, false, ◌||◌, not, Option, none, some, List, [], ◌∷◌, ◌++◌,
  if◌then◌else◌,
}
use idena_indexer_api.Prelude.Int.{ℤ, pos, to_i64, ◌+ℤ◌}
use idena_indexer_api.Prelude.Text.{Text, codes, text_eq, to_lower}
use idena_indexer_api.Prelude.Decimal.{u64_mod}
use idena_indexer_api.Prelude.Result.{Result, ok, err, ◌>>=◌}
use idena_indexer_api.Postgres.Paging.{get_res_with_continuation_token}
use idena_indexer_api.Postgres.Estimates.{
  Arithmetic, Estimate, estimated, divided_by_zero, calculate_estimated_oracle_reward,
  calculate_estimated_max_oracle_reward, calculate_estimated_total_reward,
}

-- types.OracleVotingContractOptionVotes
pub record OptionVotes : Type 0 where
  pub option : ℕ
  pub count : ℕ
  pub all_count : ℕ

-- The columns that the rewards are estimated from.
pub record Terms (D : Type 0) : Type 0 where
  pub balance : D
  pub min_payment : Option D
  pub owner_fee : ℕ
  pub committee_size : ℕ
  pub quorum : ℕ
  pub winner_threshold : ℕ
  pub vote_proofs_count : ℕ
  pub owner_deposit : Option D
  pub oracle_reward_fund : Option D

-- The columns that the loop looks at; `rest` is what it copies. Times are in seconds.
pub record VotingRow (Rest Stake D : Type 0) : Type 0 where
  pub token : Text
  pub contract_address : Text
  pub state : Text
  pub votes : Option OptionVotes
  pub start_time : ℕ
  pub head_block_height : ℕ
  pub head_block_timestamp : ℕ
  pub counting_block : Option ℕ
  pub public_voting_duration : ℕ
  pub stake : Stake
  pub terms : Terms D
  pub rest : Rest

-- The times that the database does not have, in nanoseconds.
pub record Estimates : Type 0 where
  pub termination_time : Option ℤ
  pub public_voting_finish_time : Option ℤ
  pub voting_finish_time : Option ℤ

pub record RewardEstimates (D : Type 0) : Type 0 where
  pub oracle_reward : D
  pub max_oracle_reward : D
  pub total_reward : D

pub record Voting (Rest D : Type 0) : Type 0 where
  pub contract_address : Text
  pub state : Text
  pub rest : Rest
  pub votes : List OptionVotes
  pub estimates : Estimates
  pub rewards : Option (RewardEstimates D)

-- A row that Scan fails on, an error of the database or of the network size, and the panic of a division
-- by zero, which no reader recovers from.
pub data ReadError (E : Type 0) : Type 0 where
  unreadable : ReadError E
  failed : E → ReadError E
  panicked : ReadError E

unfoldable pub or_failed : {E A : Type 0} → Result E A → Result (ReadError E) A
or_failed (ok a) = ok a
or_failed (err e) = err (failed e)

unfoldable pub or_panicked : {E A : Type 0} → Estimate A → Result (ReadError E) A
or_panicked (estimated a) = ok a
or_panicked divided_by_zero = err panicked

abbrev second : ℕ
second = 1000000000

unfoldable pub is_voting : Text → Bool
is_voting s = text_eq s (codes "open") || text_eq s (codes "voted")

unfoldable pub is_public_voting : Text → Bool
unfolding is_voting
is_public_voting s =
    is_voting s || text_eq s (codes "counting") || text_eq s (codes "canbeprolonged")

unfoldable pub has_reward_estimates : Text → Bool
unfolding is_public_voting
has_reward_estimates s = text_eq s (codes "pending") || is_public_voting s

-- headBlockTime.Add(time.Second * 20 * time.Duration(blocks)), in 64-bit arithmetic
unfoldable pub after_blocks : ℕ → ℕ → ℤ
unfolding to_i64
after_blocks timestamp blocks = pos (timestamp * second) +ℤ to_i64 (second * 20 * blocks % u64_mod)

-- uint64(countingBlock) - headBlockHeight
unfoldable pub blocks_left : ℕ → ℕ → ℕ
blocks_left counting_block height = (counting_block + (u64_mod - height % u64_mod)) % u64_mod

-- The network size, which is loaded when it is first asked for.
unfoldable pub size_of : {E : Type 0} → Result E ℕ → Option ℕ → Result E ℕ
size_of load none = load
size_of load (some size) = ok size

abbrev pub new_votes : Option OptionVotes → List OptionVotes
new_votes none = []
new_votes (some v) = v ∷ []

unfoldable pub add_votes : {Rest D : Type 0} → Voting Rest D → Option OptionVotes → Voting Rest D
add_votes item votes = record item { votes = item.votes ++ new_votes votes }

module _ (d : Arithmetic) {E : Type 0} where
  open d use {Decimal}

  unfoldable pub reward_estimates : Terms Decimal → Result (ReadError E) (RewardEstimates Decimal)
  unfolding or_panicked calculate_estimated_oracle_reward calculate_estimated_max_oracle_reward
      calculate_estimated_total_reward
  reward_estimates t = do
    oracle_reward ← or_panicked (
        calculate_estimated_oracle_reward d t.balance t.min_payment t.owner_fee t.committee_size
          t.vote_proofs_count t.owner_deposit t.oracle_reward_fund)
    max_oracle_reward ← or_panicked (
        calculate_estimated_max_oracle_reward d t.balance t.min_payment t.owner_fee t.committee_size
          t.quorum t.winner_threshold t.vote_proofs_count t.owner_deposit t.oracle_reward_fund)
    ok (record {
      oracle_reward = oracle_reward;
      max_oracle_reward = max_oracle_reward;
      total_reward =
          calculate_estimated_total_reward d t.balance t.min_payment t.owner_fee t.vote_proofs_count
            t.owner_deposit t.oracle_reward_fund;
    })

module _ (d : Arithmetic) {E Rest Stake : Type 0} (termination_days : Stake → ℕ → ℕ)
    (load : Result E ℕ) where
  open d use {Decimal}

  abbrev times : VotingRow Rest Stake Decimal → ℕ → ℕ → Estimates
  times row counting_block size =
      let s = to_lower row.state in
      let left = blocks_left counting_block row.head_block_height in
      let public_left = left + row.public_voting_duration in
      record {
        termination_time = some (
            after_blocks row.head_block_timestamp
              (public_left + termination_days row.stake size * 4320));
        public_voting_finish_time =
            if is_public_voting s
            then some (after_blocks row.head_block_timestamp public_left)
            else none;
        voting_finish_time =
            if is_voting s then some (after_blocks row.head_block_timestamp left) else none;
      }

  -- A pending voting ends 30 days after its start.
  abbrev without_counting : VotingRow Rest Stake Decimal → Estimates
  without_counting row = record {
    termination_time =
        if text_eq (to_lower row.state) (codes "pending")
        then some (pos ((row.start_time + 24 * 30 * 3600) * second))
        else none;
    public_voting_finish_time = none;
    voting_finish_time = none;
  }

  -- The estimates of a first row, and the network size that is known afterwards.
  unfoldable pub estimate :
      VotingRow Rest Stake Decimal → Option ℕ → Option ℕ → Result E (Estimates × Option ℕ)
  unfolding size_of is_public_voting is_voting after_blocks blocks_left to_lower
  estimate row none size = ok (without_counting row, size)
  estimate row (some counting_block) size =
      if is_public_voting (to_lower row.state) || text_eq (to_lower row.state) (codes "archive")
      then (size_of load size >>= λ n. ok (times row counting_block n, some n))
      else ok (without_counting row, size)

  -- The rewards of an item that can still be rewarded.
  unfoldable pub estimate_rewards :
      VotingRow Rest Stake Decimal → Result (ReadError E) (Option (RewardEstimates Decimal))
  unfolding reward_estimates has_reward_estimates to_lower
  estimate_rewards row =
      if has_reward_estimates (to_lower row.state)
      then (reward_estimates d row.terms >>= λ r. ok (some r))
      else ok none

  -- The item of a first row.
  unfoldable pub first_item :
      VotingRow Rest Stake Decimal
      → Option ℕ
      → Result (ReadError E) (Voting Rest Decimal × Option ℕ)
  unfolding estimate estimate_rewards or_failed
  first_item row size = do
    (times, next) ← or_failed (estimate row row.counting_block size)
    rewards ← estimate_rewards row
    ok (
      record {
        contract_address = row.contract_address;
        state = row.state;
        rest = row.rest;
        votes = new_votes row.votes;
        estimates = times;
        rewards = rewards;
      },
      next,
    )

  -- The rows after those of the current item, and the token that was scanned last; `none` is a row
  -- that Scan fails on.
  unfoldable pub read_after :
      List (Voting Rest Decimal)
      → Voting Rest Decimal
      → Option ℕ
      → Text
      → List (Option (VotingRow Rest Stake Decimal))
      → Result (ReadError E) (List (Voting Rest Decimal) × Text)
  unfolding first_item add_votes
  read_after res cur size last [] = ok (res ++ cur ∷ [], last)
  read_after res cur size last (none ∷ rows) = err unreadable
  read_after res cur size last (some row ∷ rows) =
      let joined = read_after res (add_votes cur row.votes) size row.token rows in
      let split =
        first_item row size >>= λ item. read_after (res ++ cur ∷ []) item.0 item.1 row.token rows in
      if text_eq cur.contract_address row.contract_address then joined else split

  unfoldable pub read_oracle_voting_contracts :
      List (Option (VotingRow Rest Stake Decimal))
      → Result (ReadError E) (List (Voting Rest Decimal) × Text)
  unfolding read_after first_item
  read_oracle_voting_contracts [] = ok ([], [])
  read_oracle_voting_contracts (none ∷ rows) = err unreadable
  read_oracle_voting_contracts (some row ∷ rows) =
      first_item row none >>= λ item. read_after [] item.0 item.1 row.token rows

  -- The ends of OracleVotingContracts and AddressOracleVotingContracts, of the rows of their query.
  unfoldable pub votings_page :
      ℕ
      → Result E (List (Option (VotingRow Rest Stake Decimal)))
      → Result (ReadError E) (List (Voting Rest Decimal) × Option Text)
  unfolding read_oracle_voting_contracts get_res_with_continuation_token or_failed
  votings_page count query = do
    rows ← or_failed query
    (res, last) ← read_oracle_voting_contracts rows
    ok (get_res_with_continuation_token last count res)
