-- ===== src/Postgres/Votings/Grouping.antt =====
-- The items that readOracleVotingContracts of app/db/postgres/contracts.go makes of rows.
use idena_indexer_api.Prelude.{
  ℕ, ◌≡◌, refl, ap, ◌∙◌, Option, none, some, All, List, [], ◌∷◌, ◌++◌, map, append_assoc,
  append-nil, arith, if◌then◌else◌, Bool-cases, inl, inr,
}
use mathlib.Core.List.{map-append}
use idena_indexer_api.Prelude.Text.{Text, text_eq, text_eq_iff}
use idena_indexer_api.Prelude.Result.{Result, ok, bind_ok}
use idena_indexer_api.Postgres.Estimates.{Arithmetic}
use idena_indexer_api.Postgres.Estimates.Threshold.{Integers}
use idena_indexer_api.Postgres.Votings.Success.{IsSafe, first_item_ok, read_after_ok}
use idena_indexer_api.Postgres.Votings.{
  OptionVotes, VotingRow, Voting, new_votes, add_votes, first_item, read_after,
  read_oracle_voting_contracts,
}

-- The votes with their contracts, in the order of the rows, and of the items.
abbrev with_address : Text → List OptionVotes → List (Text × OptionVotes)
with_address a [] = []
with_address a (v ∷ vs) = (a, v) ∷ with_address a vs

with_address-append :
    (a : Text) (vs ws : List OptionVotes)
    → with_address a (vs ++ ws) ≡ with_address a vs ++ with_address a ws
with_address-append a [] ws = refl
with_address-append a (v ∷ vs) ws = ap (◌∷◌ (a, v)) (with_address-append a vs ws)

module _ {Rest Stake D : Type 0} where
  pub votes_of_rows : List (VotingRow Rest Stake D) → List (Text × OptionVotes)
  votes_of_rows [] = []
  votes_of_rows (row ∷ rows) =
      with_address row.contract_address (new_votes row.votes) ++ votes_of_rows rows

module _ {Rest D : Type 0} where
  pub votes_of_items : List (Voting Rest D) → List (Text × OptionVotes)
  votes_of_items [] = []
  votes_of_items (item ∷ items) =
      with_address item.contract_address item.votes ++ votes_of_items items

  votes_of_items-append :
      (xs ys : List (Voting Rest D))
      → votes_of_items (xs ++ ys) ≡ votes_of_items xs ++ votes_of_items ys
  unfolding votes_of_items
  votes_of_items-append [] ys = refl
  votes_of_items-append (x ∷ xs) ys = ground (
    arith,
    votes_of_items-append xs ys,
    append_assoc (with_address x.contract_address x.votes) (votes_of_items xs) (votes_of_items ys),
  )

  votes_of_items-snoc :
      (xs : List (Voting Rest D)) (x : Voting Rest D)
      → votes_of_items (xs ++ x ∷ []) ≡ votes_of_items xs ++ with_address x.contract_address x.votes
  unfolding votes_of_items
  votes_of_items-snoc xs x =
      votes_of_items-append xs (x ∷ [])
      ∙ ap (λ l. votes_of_items xs ++ l) (append-nil (with_address x.contract_address x.votes))

  votes_of_items-add_votes :
      (xs : List (Voting Rest D)) (x : Voting Rest D) (v : Option OptionVotes)
      → votes_of_items (xs ++ add_votes x v ∷ [])
        ≡ votes_of_items (xs ++ x ∷ []) ++ with_address x.contract_address (new_votes v)
  unfolding add_votes
  votes_of_items-add_votes xs x v = ground (
    arith,
    votes_of_items-snoc xs (add_votes x v),
    votes_of_items-snoc xs x,
    with_address-append x.contract_address x.votes (new_votes v),
    append_assoc (votes_of_items xs) (with_address x.contract_address x.votes)
        (with_address x.contract_address (new_votes v)),
  )

-- A list of which each run of one text is made one.
unfoldable pub runs : List Text → List Text
runs [] = []
runs (a ∷ []) = a ∷ []
runs (a ∷ b ∷ ts) = let rest = runs (b ∷ ts) in if text_eq a b then rest else a ∷ rest

abbrev pub addresses : {Rest D : Type 0} → List (Voting Rest D) → List Text
addresses = map (λ x. x.contract_address)

abbrev pub row_addresses : {Rest Stake D : Type 0} → List (VotingRow Rest Stake D) → List Text
row_addresses = map (λ x. x.contract_address)

-- The items that the rows make: one for each run of rows of one contract, with the votes of all the
-- rows, each under its contract and in the order of the rows.
abbrev pub Groups :
    {Rest Stake D : Type 0} → List (VotingRow Rest Stake D) → List (Voting Rest D) → Type 0
Groups rows items =
    (addresses items ≡ runs (row_addresses rows)) × (votes_of_items items ≡ votes_of_rows rows)

-- Rows that Scan reads.
abbrev pub readable :
    {Rest Stake D : Type 0} → List (VotingRow Rest Stake D) → List (Option (VotingRow Rest Stake D))
readable = map (λ row. some row)

module _ (d : Arithmetic) {E Rest Stake : Type 0} (termination_days : Stake → ℕ → ℕ)
    (load : Result E ℕ) where
  open d use {Decimal}

  first_item-votes :
      (row : VotingRow Rest Stake Decimal) (size : Option ℕ) (item : Voting Rest Decimal)
      (next : Option ℕ)
      → first_item d termination_days load row size ≡ ok (item, next)
      → (item.contract_address ≡ row.contract_address) × (item.votes ≡ new_votes row.votes)
  unfolding first_item
  first_item-votes row size item next h = ground (arith, h)

  read_after-votes :
      (res : List (Voting Rest Decimal)) (cur : Voting Rest Decimal) (size : Option ℕ) (last : Text)
      (rows : List (VotingRow Rest Stake Decimal)) (items : List (Voting Rest Decimal))
      (token : Text)
      → read_after d termination_days load res cur size last (readable rows) ≡ ok (items, token)
      → votes_of_items items ≡ votes_of_items (res ++ cur ∷ []) ++ votes_of_rows rows
  unfolding read_after votes_of_rows
  read_after-votes res cur size last [] items token h =
      ground (arith, h, append-nil (votes_of_items (res ++ cur ∷ [])))
  read_after-votes res cur size last (row ∷ rows) items token h =
      elim (Bool-cases (text_eq cur.contract_address row.contract_address)) [
        | inl same ↦
            read_after-votes res (add_votes cur row.votes) size row.token rows items token
              (rw same at h)
            ∙ ground (
              arith,
              votes_of_items-add_votes res cur row.votes,
              text_eq_iff cur.contract_address row.contract_address,
              same,
              append_assoc (votes_of_items (res ++ cur ∷ []))
                  (with_address cur.contract_address (new_votes row.votes)) (votes_of_rows rows),
            )
        | inr other ↦
            let ((item, next), e, k) =
              bind_ok (first_item d termination_days load row size) _ (items, token)
                (rw other at h) in
            let (same, votes) = first_item-votes row size item next e in
            read_after-votes (res ++ cur ∷ []) item next row.token rows items token k
            ∙ ground (
              arith,
              votes_of_items-snoc (res ++ cur ∷ []) item,
              same,
              votes,
              append_assoc (votes_of_items (res ++ cur ∷ []))
                  (with_address row.contract_address (new_votes row.votes)) (votes_of_rows rows),
            )
      ]

  read_after-addresses :
      (res : List (Voting Rest Decimal)) (cur : Voting Rest Decimal) (size : Option ℕ) (last : Text)
      (rows : List (VotingRow Rest Stake Decimal)) (items : List (Voting Rest Decimal))
      (token : Text)
      → read_after d termination_days load res cur size last (readable rows) ≡ ok (items, token)
      → addresses items ≡ addresses res ++ runs (cur.contract_address ∷ row_addresses rows)
  unfolding read_after runs
  read_after-addresses res cur size last [] items token h =
      ground (arith, h, map-append (λ (x : Voting Rest Decimal). x.contract_address) res (cur ∷ []))
  read_after-addresses res cur size last (row ∷ rows) items token h =
      elim (Bool-cases (text_eq cur.contract_address row.contract_address)) [
        | inl same ↦
            read_after-addresses res (add_votes cur row.votes) size row.token rows items token
              (rw same at h)
            ∙ ground (arith, text_eq_iff cur.contract_address row.contract_address, same)
        | inr other ↦
            let ((item, next), e, k) =
              bind_ok (first_item d termination_days load row size) _ (items, token)
                (rw other at h) in
            read_after-addresses (res ++ cur ∷ []) item next row.token rows items token k
            ∙ ground (
              arith,
              other,
              (first_item-votes row size item next e).0,
              map-append (λ (x : Voting Rest Decimal). x.contract_address) res (cur ∷ []),
              append_assoc (addresses res) (cur.contract_address ∷ [])
                  (runs (item.contract_address ∷ row_addresses rows)),
            )
      ]

  read_Groups :
      (rows : List (VotingRow Rest Stake Decimal)) (items : List (Voting Rest Decimal))
      (token : Text)
      → read_oracle_voting_contracts d termination_days load (readable rows) ≡ ok (items, token)
      → Groups rows items
  unfolding read_oracle_voting_contracts votes_of_rows votes_of_items runs
  read_Groups [] items token h = ground (arith, h)
  read_Groups (row ∷ rows) items token h =
      let ((item, next), e, k) =
        bind_ok (first_item d termination_days load row none) _ (items, token) h in
      let (same, votes) = first_item-votes row none item next e in
      (
        read_after-addresses [] item next row.token rows items token k ∙ ground (arith, same),
        read_after-votes [] item next row.token rows items token k
            ∙ ground
                (arith, same, votes, append-nil (with_address item.contract_address item.votes)),
      )

  -- If all rows can be read, the network size loads, the decimals handle integers as documented, and no
  -- row has a winner threshold of 0 or a committee, a quorum of votes or votes of 2 ^ 63 and more, then
  -- reading the rows of oracle votings succeeds, and gives one item for each run of rows of one contract, with the votes
  -- of all the rows, each under its contract and in order.
  pub read_oracle_voting_contracts-Groups :
      (laws : Integers d) (n : ℕ) (rows : List (VotingRow Rest Stake Decimal))
      → load ≡ ok n
      → All (λ row. IsSafe row.terms) rows
      → (items : List (Voting Rest Decimal)) × (token : Text) × (read_oracle_voting_contracts d
            termination_days load
            (readable rows)
          ≡ ok (items, token))
        × Groups rows items
  unfolding read_oracle_voting_contracts
  read_oracle_voting_contracts-Groups laws n [] h safe = ([], [], refl, read_Groups [] [] [] refl)
  read_oracle_voting_contracts-Groups laws n (row ∷ rows) h (here, later) =
      let ((item, next), q) = first_item_ok d laws termination_days load n row none h here in
      let ((items, token), r) =
        read_after_ok d laws termination_days load n [] item next row.token rows h later in
      let e : read_oracle_voting_contracts d termination_days load (readable (row ∷ rows))
          ≡ ok (items, token) =
        rw (q, read_oracle_voting_contracts) r in
      (items, token, e, read_Groups (row ∷ rows) items token e)
