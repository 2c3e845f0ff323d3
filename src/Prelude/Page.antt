-- ===== src/Prelude/Page.antt =====
-- A page of a list and how it came: the items, the next continuation token and the error.
use mathlib.Core.Option.{Option}
use mathlib.Core.List.{List}
use idena_indexer_api.Prelude.Text.{Text}

pub record Page (E A : Type 0) : Type 0 where
  pub items : List A
  pub next : Option Text
  pub err : Option E
