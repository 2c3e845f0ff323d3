-- ===== src/Cached/Entry.antt =====
-- What a method of app/db/cached/accessor.go passes to getOrLoad or getOrLoadWithConToken.
use idena_indexer_api.Prelude.{ℕ, Option, none, some, List}
use idena_indexer_api.Prelude.Text.{Text}
use idena_indexer_api.Cached.Key.{Arg, nil_pointer, pointer}

-- The name and the arguments of the key, and the method of the accessor behind the cache that a load
-- calls, with its arguments.
pub record Entry : Type 0 where
  pub method : Text
  pub args : List Arg
  pub loaded : Text
  pub load_args : List Arg

abbrev pub entry : Text → List Arg → Text → List Arg → Entry
entry method args loaded load_args = record {
  method = method;
  args = args;
  loaded = loaded;
  load_args = load_args;
}

-- A pointer to a text or a number, by its address and what stands there, or nil.
abbrev pub pointer_to : Option (ℕ × Text) → Arg
pointer_to none = nil_pointer
pointer_to (some (address, s)) = pointer address s
