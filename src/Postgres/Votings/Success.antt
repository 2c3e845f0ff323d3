-- ===== src/Postgres/Votings/Success.antt =====
-- The readings of readOracleVotingContracts of app/db/postgres/contracts.go that succeed.
use idena_indexer_api.Prelude.{
  ℕ, ◌≡◌, ◌≢◌, ◌<◌, ◌^◌, All, map, refl, Bool, true, false, ◌||◌, Option, none, some, List, [], ◌∷◌,
  ◌++◌, if◌then◌else◌, Bool-cases, inl, inr,
}
use idena_indexer_api.Prelude.Text.{Text, codes, to_lower, text_eq}
use idena_indexer_api.Prelude.Result.{Result, ok}
use idena_indexer_api.Postgres.Estimates.{
  Arithmetic, Estimate, estimated, divided_by_zero, quorum_size, max,
  calculate_estimated_max_oracle_reward,
}
use idena_indexer_api.Postgres.Estimates.Threshold.{
  Integers, calculate_estimated_max_oracle_reward-divided_by_zero,
  calculate_estimated_oracle_reward-estimated,
}
use idena_indexer_api.Postgres.Votings.{
  VotingRow, Voting, Estimates, Terms, RewardEstimates, add_votes, first_item, estimate,
  estimate_rewards, reward_estimates, has_reward_estimates, or_failed, or_panicked, size_of,
  is_public_voting, read_after,
}

if_ok :
    {E A : Type 0} (b : Bool) (x y : Result E A)
    → (a : A) × (x ≡ ok a)
    → (a : A) × (y ≡ ok a)
    → (a : A) × ((if b then x else y) ≡ ok a)
if_ok true x y h k = h
if_ok false x y h k = k

size_ok :
    {E : Type 0} (load : Result E ℕ) (n : ℕ) (size : Option ℕ)
    → load ≡ ok n
    → (m : ℕ) × (size_of load size ≡ ok m)
unfolding size_of
size_ok load n none h = (n, h)
size_ok load n (some m) h = (m, refl)

estimated_of : {A : Type 0} (e : Estimate A) → e ≢ divided_by_zero → (a : A) × (e ≡ estimated a)
estimated_of (estimated a) h = (a, refl)
estimated_of divided_by_zero h = absurd (h refl)

-- The threshold of the winner is not zero, and the committee, the votes that its quorum needs and the
-- votes are fewer than 2 ^ 63.
pub record IsSafe {D : Type 0} (t : Terms D) : Type 0 where
  pub winner_threshold : t.winner_threshold ≢ 0
  pub committee_size : t.committee_size < 2 ^ 63
  pub vote_proofs_count : t.vote_proofs_count < 2 ^ 63
  pub min_votes : max (quorum_size t.committee_size t.quorum) t.vote_proofs_count < 2 ^ 63

module _ (d : Arithmetic) (laws : Integers d) {E Rest Stake : Type 0}
    (termination_days : Stake → ℕ → ℕ) (load : Result E ℕ) where
  open d use {Decimal}

  estimate_ok :
      (n : ℕ) (row : VotingRow Rest Stake Decimal) (counting_block size : Option ℕ)
      → load ≡ ok n
      → (e : Estimates × Option ℕ) × (estimate d termination_days load row counting_block size
          ≡ ok e)
  unfolding estimate size_of
  estimate_ok n row none size h = (_, refl)
  estimate_ok n row (some b) size h =
      if_ok
        (is_public_voting (to_lower row.state) || text_eq (to_lower row.state) (codes "archive")) _
        _ (let (m, q) = size_ok load n size h in rw q (_, refl)) (_, refl)

  estimate_rewards_ok :
      (row : VotingRow Rest Stake Decimal)
      → IsSafe row.terms
      → (rewards : Option (RewardEstimates Decimal)) × (estimate_rewards d termination_days load row
          ≡ ok rewards)
  unfolding estimate_rewards reward_estimates or_panicked
  estimate_rewards_ok row h =
      let t = row.terms in
      let (x, qx, s) =
        calculate_estimated_oracle_reward-estimated d laws t.balance t.min_payment t.owner_fee
          t.committee_size t.vote_proofs_count t.owner_deposit t.oracle_reward_fund h.committee_size
          h.vote_proofs_count in
      let (y, qy) =
        estimated_of
          (calculate_estimated_max_oracle_reward d t.balance t.min_payment t.owner_fee
            t.committee_size t.quorum t.winner_threshold t.vote_proofs_count t.owner_deposit
            t.oracle_reward_fund)
          (λ e. h.winner_threshold (
            (calculate_estimated_max_oracle_reward-divided_by_zero d laws t.balance t.min_payment
                t.owner_fee t.committee_size t.quorum t.winner_threshold t.vote_proofs_count
                t.owner_deposit t.oracle_reward_fund h.min_votes).0
              e)) in
      if_ok (has_reward_estimates (to_lower row.state)) _ _ (rw (qx, qy) (_, refl)) (_, refl)

  pub first_item_ok :
      (n : ℕ) (row : VotingRow Rest Stake Decimal) (size : Option ℕ)
      → load ≡ ok n
      → IsSafe row.terms
      → (item : Voting Rest Decimal × Option ℕ) × (first_item d termination_days load row size
          ≡ ok item)
  unfolding first_item or_failed
  first_item_ok n row size h safe =
      let (e, q) = estimate_ok n row row.counting_block size h in
      let (w, r) = estimate_rewards_ok row safe in rw (q, r) (_, refl)

  pub read_after_ok :
      (n : ℕ) (res : List (Voting Rest Decimal)) (cur : Voting Rest Decimal) (size : Option ℕ)
      (last : Text) (rows : List (VotingRow Rest Stake Decimal))
      → load ≡ ok n
      → All (λ row. IsSafe row.terms) rows
      → (answer : List (Voting Rest Decimal) × Text) × (read_after d termination_days load res cur
            size last
            (map (λ row. some row) rows)
          ≡ ok answer)
  unfolding read_after
  read_after_ok n res cur size last [] h safe = (_, refl)
  read_after_ok n res cur size last (row ∷ rows) h (here, later) =
      elim (Bool-cases (text_eq cur.contract_address row.contract_address)) [
        | inl same ↦
            rw same (read_after_ok n res (add_votes cur row.votes) size row.token rows h later)
        | inr other ↦
            let ((item, next), q) = first_item_ok n row size h here in
            rw (other, q) (read_after_ok n (res ++ cur ∷ []) item next row.token rows h later)
      ]
