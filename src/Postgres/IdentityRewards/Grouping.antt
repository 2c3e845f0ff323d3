-- ===== src/Postgres/IdentityRewards/Grouping.antt =====
-- The loop of EpochIdentitiesRewards of app/db/postgres/epoch.go on the rows of a list of identities.
use idena_indexer_api.Prelude.{
  ◌≡◌, refl, ap, ◌∙◌, Bool, false, none, some, List, [], ◌∷◌, ◌++◌, map, append-nil, append_assoc,
}
use idena_indexer_api.Prelude.Text.{Text, text_eq, text_eq_refl}
use idena_indexer_api.Postgres.IdentityRewards.{
  Reward, Details, RewardRow, Rewards, retyped, group_rewards,
}

module _ (Amount : Type 0) where
  -- An identity with its rewards, of which there is at least one.
  abbrev pub Identity : Type 0
  Identity = Text × Details Amount × Reward Amount × List (Reward Amount)

  abbrev row_of : Text → Details Amount → Reward Amount → RewardRow Amount
  row_of a d r = record { address = a; details = d; reward = r }

  -- The rows of a list of identities.
  abbrev pub rows_of : List Identity → List (RewardRow Amount)
  rows_of [] = []
  rows_of ((a, d, r, rs) ∷ t) = row_of a d r ∷ (map (row_of a d) rs ++ rows_of t)

  abbrev pub item_of : Bool → Identity → Rewards Amount
  item_of replace (a, d, r, rs) = record {
    address = a;
    details = d;
    rewards = map (retyped Amount replace) (r ∷ rs);
  }

  -- Identities that stand side by side have different addresses.
  abbrev DiffersFrom : Text → List Identity → Type 0
  DiffersFrom a [] = Unit
  DiffersFrom a ((b, d, r, rs) ∷ t) = text_eq a b ≡ false

  abbrev pub AreDistinct : List Identity → Type 0
  AreDistinct [] = Unit
  AreDistinct ((a, d, r, rs) ∷ t) = DiffersFrom a t × AreDistinct t

  group_rewards-same :
      (replace : Bool) (res : List (Rewards Amount)) (a : Text) (d : Details Amount)
      (before rs : List (Reward Amount)) (rows : List (RewardRow Amount))
      → group_rewards Amount replace res
          (some (record { address = a; details = d; rewards = before }))
          (map (row_of a d) rs ++ rows)
        ≡ group_rewards Amount replace res
            (some (record {
              address = a;
              details = d;
              rewards = before ++ map (retyped Amount replace) rs;
            }))
            rows
  unfolding group_rewards
  group_rewards-same replace res a d before [] rows = rw (append-nil before) refl
  group_rewards-same replace res a d before (r ∷ rs) rows =
      rw (text_eq_refl a, group_rewards)
        (group_rewards-same replace res a d (before ++ retyped Amount replace r ∷ []) rs rows
          ∙ ap
              (λ rewards.
                group_rewards Amount replace res
                  (some (record { address = a; details = d; rewards = rewards })) rows)
              (append_assoc before (retyped Amount replace r ∷ [])
                (map (retyped Amount replace) rs)))

  group_rewards-next :
      (replace : Bool) (res : List (Rewards Amount)) (a : Text) (d : Details Amount)
      (rewards : List (Reward Amount)) (t : List Identity)
      → DiffersFrom a t
      → AreDistinct t
      → group_rewards Amount replace res
          (some (record { address = a; details = d; rewards = rewards }))
          (rows_of t)
        ≡ res ++ record { address = a; details = d; rewards = rewards } ∷ map (item_of replace) t
  unfolding group_rewards
  group_rewards-next replace res a d rewards [] h k = refl
  group_rewards-next replace res a d rewards ((b, e, r, rs) ∷ t) h (k, ks) =
      rw (h, group_rewards)
        (group_rewards-same replace
            (res ++ record { address = a; details = d; rewards = rewards } ∷ []) b e
            (retyped Amount replace r ∷ []) rs (rows_of t)
          ∙ group_rewards-next replace
              (res ++ record { address = a; details = d; rewards = rewards } ∷ []) b e
              (map (retyped Amount replace) (r ∷ rs)) t k ks
          ∙ append_assoc res (record { address = a; details = d; rewards = rewards } ∷ [])
              (map (item_of replace) ((b, e, r, rs) ∷ t)))

  -- The loop puts the rows of identities together again.
  pub group_rewards-rows_of :
      (replace : Bool) (t : List Identity)
      → AreDistinct t
      → group_rewards Amount replace [] none (rows_of t) ≡ map (item_of replace) t
  unfolding group_rewards
  group_rewards-rows_of replace [] h = refl
  group_rewards-rows_of replace ((a, d, r, rs) ∷ t) (h, hs) =
      group_rewards-same replace [] a d (retyped Amount replace r ∷ []) rs (rows_of t)
      ∙ group_rewards-next replace [] a d (map (retyped Amount replace) (r ∷ rs)) t h hs
