-- ===== src/Config/Examples.antt =====
-- The dynamic configuration of config/dynamic.go on small runs.
use idena_indexer_api.Prelude.{ℕ, ◌≡◌, refl, some, List, [], ◌∷◌, arith}
use idena_indexer_api.Config.{
  DynamicConfig, FileState, unopenable, unparsable, readable, DynamicConfigHolder, update_loop,
  new_dynamic_config_holder,
}
use idena_indexer_api.Config.Polling.{update_loop-config}

abbrev version : ℕ → DynamicConfig
version m = record { dump_cid = b'Q' ∷ m ∷ [] }

abbrev holder : DynamicConfigHolder
holder = record { mod_time = some 5; config = some (version 5) }

abbrev rounds : List FileState
rounds = unopenable 6 ∷ readable 7 (version 7) ∷ unparsable 9 ∷ readable 7 (version 7) ∷ []

update_loop-config_example : (update_loop holder rounds).config ≡ some (version 7)
unfolding new_dynamic_config_holder
update_loop-config_example =
    update_loop-config version 5 (version 5) rounds holder refl refl
      (omega arith, refl, (omega arith, refl, tt))
