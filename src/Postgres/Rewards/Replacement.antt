-- ===== src/Postgres/Rewards/Replacement.antt =====
-- toDelegationReward and replaceCandidatesAndStaking of app/db/postgres/common.go.
use idena_indexer_api.Prelude.{
  ◌≡◌, ◌∙◌, sym, Bool, true, false, List, [], ◌∷◌, ◌++◌, map, arith, if◌then◌else◌,
}
use mathlib.Core.List.{map-append, append_assoc, append-nil}
use idena_indexer_api.Prelude.Text.{Text, text_eq}
use idena_indexer_api.Postgres.Rewards.{
  replace_candidates_and_staking, Decimals, DelegationReward, ValidationRewards, add_reward,
  to_delegation_reward,
}

module _ (d : Decimals) where
  open d use {Decimal, is_zero}

  -- The replacement that `rewards` makes on the rows of the other rewards.
  abbrev pub renamed : DelegationReward d → DelegationReward d
  renamed r = record r { type = replace_candidates_and_staking r.type }

  map-add_reward :
      (res : List (DelegationReward d)) (b : Decimal) (t : Text)
      → map renamed (add_reward d res b t)
        ≡ add_reward d (map renamed res) b (replace_candidates_and_staking t)
  unfolding add_reward
  map-add_reward res b t =
      ground (arith, map-append renamed res (record { balance = b; type = t } ∷ []))

  -- Asking for the replacement gives the rewards that are there without it, with each type replaced
  -- as replaceCandidatesAndStaking does.
  pub to_delegation_reward-replaced :
      (vr : ValidationRewards d)
      → to_delegation_reward d vr true ≡ map renamed (to_delegation_reward d vr false)
  unfolding to_delegation_reward replace_candidates_and_staking text_eq
  to_delegation_reward-replaced vr = simp map-add_reward

  -- The balances of the rewards that are no zero, in the order of the fields.
  abbrev pub fields : ValidationRewards d → List Decimal
  fields vr =
      vr.validation ∷ vr.flips ∷ vr.extra_flips ∷ vr.inv ∷ vr.inv2 ∷ vr.inv3 ∷ vr.invitee
      ∷ vr.invitee2 ∷ vr.invitee3 ∷ vr.saved_inv ∷ vr.saved_inv_win ∷ vr.reports ∷ vr.candidate
      ∷ vr.staking ∷ []

  unfoldable pub non_zero : List Decimal → List Decimal
  non_zero [] = []
  non_zero (x ∷ xs) = if is_zero x then non_zero xs else x ∷ non_zero xs

  abbrev pub balances : List (DelegationReward d) → List Decimal
  balances = map (λ r. r.balance)

  balances-add_reward :
      (res : List (DelegationReward d)) (b : Decimal) (t : Text) (rest : List Decimal)
      → balances (add_reward d res b t) ++ non_zero rest ≡ balances res ++ non_zero (b ∷ rest)
  unfolding add_reward non_zero
  balances-add_reward res b t rest = ground (
    arith,
    map-append (λ (x : DelegationReward d). x.balance) res (record { balance = b; type = t } ∷ []),
    append_assoc (map (λ (x : DelegationReward d). x.balance) res) (b ∷ []) (non_zero rest),
  )

  balances-to_delegation_reward_nil :
      (vr : ValidationRewards d) (replace : Bool)
      → balances (to_delegation_reward d vr replace) ++ non_zero []
        ≡ balances [] ++ non_zero (fields vr)
  unfolding to_delegation_reward
  balances-to_delegation_reward_nil vr replace = simp balances-add_reward

  -- Whether or not the replacement is asked for, the balances of the answer are those of the fourteen
  -- fields that are no zero, each once and in the order of the fields.
  pub balances-to_delegation_reward :
      (vr : ValidationRewards d) (replace : Bool)
      → balances (to_delegation_reward d vr replace) ≡ non_zero (fields vr)
  unfolding non_zero
  balances-to_delegation_reward vr replace =
      sym (append-nil (balances (to_delegation_reward d vr replace)))
      ∙ balances-to_delegation_reward_nil vr replace
