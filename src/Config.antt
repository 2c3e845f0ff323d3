-- ===== src/Config.antt =====
-- config/dynamic.go: the configuration that is read again when its file changes, and the link that
-- app/app.go makes of it.
pub mod Polling
mod Examples
use idena_indexer_api.Prelude.{
  ℕ, ◌≡◌, Bool, true, false, Option, none, some, List, [], ◌∷◌, ◌++◌, if◌then◌else◌, leb, ltb,
  length, ◌==◌,
}
use idena_indexer_api.Prelude.Text.{Text, codes}

pub record DynamicConfig : Type 0 where
  pub dump_cid : Text

abbrev pub empty_config : DynamicConfig
empty_config = record { dump_cid = [] }

pub data ConfigError : Type 0 where
  unable_to_find : ConfigError
  cannot_be_opened : ConfigError
  cannot_parse : ConfigError

-- What the file system shows when it is asked: no file, or one with its modification time and what
-- opening and parsing it give.
pub data FileState : Type 0 where
  missing : FileState
  unopenable : ℕ → FileState
  unparsable : ℕ → FileState
  readable : ℕ → DynamicConfig → FileState

pub record DynamicConfigHolder : Type 0 where
  pub mod_time : Option ℕ
  pub config : Option DynamicConfig

-- The pair of updateIfNeeded.
pub record Update : Type 0 where
  pub updated : Bool
  pub error : Option ConfigError

abbrev is_new : Option ℕ → ℕ → Bool
is_new none m = true
is_new (some t) m = ltb t m

-- The part of updateIfNeeded behind the test of the modification time.
unfoldable pub reread :
    DynamicConfigHolder → ℕ → Option DynamicConfig → ConfigError → Update × DynamicConfigHolder
reread h m none e = (record { updated = false; error = some e }, h)
reread h m (some conf) e =
    (record { updated = true; error = none }, record { mod_time = some m; config = some conf })

unfoldable pub update_at :
    DynamicConfigHolder → ℕ → Option DynamicConfig → ConfigError → Update × DynamicConfigHolder
unfolding reread
update_at h m conf e =
    if is_new h.mod_time m then reread h m conf e else (record { updated = false; error = none }, h)

unfoldable pub update_if_needed : DynamicConfigHolder → FileState → Update × DynamicConfigHolder
unfolding update_at
update_if_needed h missing = (
  record { updated = true; error = some unable_to_find },
  record h { config = some empty_config },
)
update_if_needed h (unopenable m) = update_at h m none cannot_be_opened
update_if_needed h (unparsable m) = update_at h m none cannot_parse
update_if_needed h (readable m conf) = update_at h m (some conf) cannot_parse

-- NewDynamicConfigHolder panics on an error that is not a missing file.
unfoldable pub new_dynamic_config_holder : FileState → Option DynamicConfigHolder
unfolding update_if_needed
new_dynamic_config_holder f =
    let (u, h) = update_if_needed (record { mod_time = none; config = none }) f in
    elim u.error [ none ↦ some h | some e ↦ if u.updated then some h else none ]

-- The rounds of updateLoop.
unfoldable pub update_loop : DynamicConfigHolder → List FileState → DynamicConfigHolder
unfolding update_if_needed
update_loop h [] = h
update_loop h (f ∷ fs) = update_loop (update_if_needed h f).1 fs

-- The link of the dump, or "".
unfoldable pub dump_link : Option DynamicConfig → Text
dump_link none = []
dump_link (some c) =
    if length c.dump_cid == 0 then [] else codes "https://ipfs.io/ipfs/" ++ c.dump_cid
