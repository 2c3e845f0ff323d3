-- ===== src/Postgres/IdentityRewards/Offsets.antt =====
-- The pages of EpochIdentitiesRewards of app/db/postgres/epoch.go, whose tokens are offsets.
use idena_indexer_api.Prelude.{
  ℕ, zero, suc, ◌+◌, ◌%◌, ◌^◌, ◌≤◌, ◌<◌, ◌≡◌, refl, sym, ap, ◌∙◌, inl, inr, Bool, false, Option,
  none, some, List, [], ◌∷◌, map, arith, if◌then◌else◌, ltb, lt→ltb, length, take, drop, length-map,
  length-take, length-drop, take_whole, take-suc, List-cases,
}
use mathlib.Core.List.{map-append}
use idena_indexer_api.Prelude.Text.{Text}
use idena_indexer_api.Prelude.Decimal.{format_uint, u64_mod, parse_uint-format_uint}
use idena_indexer_api.Prelude.Result.{Result, ok}
use idena_indexer_api.Postgres.Paging.{
  PageError, parse_uint_continuation_token, get_res_with_continuation_token,
}
use idena_indexer_api.Postgres.Paging.Script.{get_res_short, get_res_full}
use idena_indexer_api.Postgres.IdentityRewards.{RewardRow, offset_of, epoch_identities_rewards}
use idena_indexer_api.Postgres.IdentityRewards.Grouping.{
  Identity, rows_of, item_of, AreDistinct, group_rewards-rows_of,
}

-- The token of an offset.
abbrev pub token_for : ℕ → Option Text
token_for zero = none
token_for (suc k) = some (format_uint (suc k))

parse_token_for :
    (k : ℕ)
    → k < u64_mod
    → (id : Option ℕ) × (parse_uint_continuation_token (token_for k) ≡ ok id) × (offset_of id ≡ k)
unfolding parse_uint_continuation_token
parse_token_for zero h = (none, refl, refl)
parse_token_for (suc k) h =
    (some (suc k), rw (parse_uint-format_uint (suc k) h, parse_uint_continuation_token) refl, refl)

not_less : (a b : ℕ) → b ≤ a → ltb a b ≡ false
not_less a b h = ground arith

module _ (Amount : Type 0) where
  -- The script: the rows of the identities from an offset on, as many as the limit.
  unfoldable pub run_offset :
      List (Identity Amount) → ℕ → ℕ → Result PageError (List (RewardRow Amount))
  run_offset table limit offset = ok (rows_of Amount (take limit (drop offset table)))

  AreDistinct-drop :
      (k : ℕ) (t : List (Identity Amount)) → AreDistinct Amount t → AreDistinct Amount (drop k t)
  AreDistinct-drop zero t h = h
  AreDistinct-drop (suc k) [] h = tt
  AreDistinct-drop (suc k) (e ∷ t) h = AreDistinct-drop k t h.1

  AreDistinct-take :
      (k : ℕ) (t : List (Identity Amount)) → AreDistinct Amount t → AreDistinct Amount (take k t)
  AreDistinct-take zero t h = tt
  AreDistinct-take (suc k) [] h = tt
  AreDistinct-take (suc zero) (e ∷ t) h = (tt, tt)
  AreDistinct-take (suc (suc k)) (e ∷ []) h = (tt, tt)
  AreDistinct-take (suc (suc k)) (e ∷ f ∷ t) h = (h.0, AreDistinct-take (suc k) (f ∷ t) h.1)

  module _ (replace : Bool) (table : List (Identity Amount)) (n k : ℕ) (small : n + 1 < 2 ^ 63)
      (fits : k + n < u64_mod) (distinct : AreDistinct Amount table) where
    cut :
        epoch_identities_rewards Amount (run_offset table) replace n (token_for k)
        ≡ ok (
            get_res_with_continuation_token
              (format_uint (k + n))
              n
              (map (item_of Amount replace) (take (suc n) (drop k table))))
    cut =
        let (id, parses, offset) = parse_token_for k (omega arith) in
        let limit : (n + 1) % u64_mod ≡ suc n = omega arith in
        let next : (k + n) % u64_mod ≡ k + n = omega arith in
        let grouped =
          group_rewards-rows_of Amount replace (take (suc n) (drop k table))
            (AreDistinct-take (suc n) (drop k table) (AreDistinct-drop k table distinct)) in
        unfold epoch_identities_rewards run_offset in rw (parses, limit, offset, next, grouped) refl

    last_page :
        drop n (drop k table) ≡ []
        → epoch_identities_rewards Amount (run_offset table) replace n (token_for k)
          ≡ ok (map (item_of Amount replace) (take n (drop k table)), none)
    last_page h =
        let short : length (drop k table) ≤ n =
          omega (arith, length-drop n (drop k table), ap length h) in
        let whole : take (suc n) (drop k table) ≡ take n (drop k table) =
          take_whole (drop k table) (suc n) (omega arith)
          ∙ sym (take_whole (drop k table) n short) in
        cut
        ∙ ap ok (
            rw whole (
              get_res_short (format_uint (k + n)) n
                (map (item_of Amount replace) (take n (drop k table))) small
                (omega (
                  arith,
                  length-map (take n (drop k table)) (item_of Amount replace),
                  length-take n (drop k table),
                ))))

    more_pages :
        (e : Identity Amount) (more : List (Identity Amount))
        → drop n (drop k table) ≡ e ∷ more
        → epoch_identities_rewards Amount (run_offset table) replace n (token_for k)
          ≡ ok (map (item_of Amount replace) (take n (drop k table)), some (format_uint (k + n)))
    more_pages e more h =
        let full : length (take n (drop k table)) ≡ n =
          omega (arith, length-take n (drop k table), length-drop n (drop k table), ap length h) in
        cut
        ∙ ap ok (
            rw (take-suc n (drop k table) h, map-append)
              (get_res_full (format_uint (k + n)) n
                (map (item_of Amount replace) (take n (drop k table))) (item_of Amount replace e)
                small (length-map (take n (drop k table)) (item_of Amount replace) ∙ full)))

  -- Over a list of identities whose neighbours have different addresses, a call of
  -- EpochIdentitiesRewards for `n` of them, n < 2 ^ 63 - 1, with the token of the offset `k`, where k + n
  -- is below 2 ^ 64, returns the next `n` identities, each with all its rewards, and the token of the offset
  -- k + n, or none when no identity is left.
  pub epoch_identities_rewards-page :
      (replace : Bool) (table : List (Identity Amount)) (n k : ℕ)
      → n + 1 < 2 ^ 63
      → k + n < u64_mod
      → AreDistinct Amount table
      → epoch_identities_rewards Amount (run_offset table) replace n (token_for k)
        ≡ ok (
          map (item_of Amount replace) (take n (drop k table)),
          if ltb (k + n) (length table) then some (format_uint (k + n)) else none,
        )
  epoch_identities_rewards-page replace table n k small fits distinct =
      elim (List-cases (drop n (drop k table))) [
        | inl none_left ↦
            rw
              (not_less (k + n) (length table) (
                omega
                  (arith, length-drop n (drop k table), length-drop k table, ap length none_left)))
              (last_page replace table n k small fits distinct none_left)
        | inr (e, more, h) ↦
            rw
              (lt→ltb (k + n) (length table)
                (omega (arith, length-drop n (drop k table), length-drop k table, ap length h)))
              (more_pages replace table n k small fits distinct e more h)
      ]
