-- ===== src/GoCache/Assoc.antt =====
-- A go-cache as an association list of items with their times and durations.
use Prim.Native.Nat.{suc-le-suc}
use mathlib.Core.Option
use idena_indexer_api.Prelude.{
  ℕ, suc, ◌≤◌, ◌≡◌, refl, Option, none, some, List, [], ◌∷◌, ◌&&◌, arith, if◌then◌else◌, length,
}
use idena_indexer_api.Prelude.Text.{Text, text_eq, text_eq_iff}
use idena_indexer_api.GoCache.{Lifetime, span, lives, visible, GoCache, GoCounters}

pub record Item (V : Type 0) : Type 0 where
  pub key : Text
  pub value : V
  pub at : ℕ
  pub lasts : ℕ

pub record Items (V : Type 0) : Type 0 where
  pub span : ℕ
  pub items : List (Item V)

module _ {V : Type 0} where
  lookup : List (Item V) → ℕ → Text → Option V
  lookup [] now k = none
  lookup (i ∷ is) now k =
      if text_eq i.key k && lives i.at i.lasts now then some i.value else lookup is now k

  without : List (Item V) → Text → List (Item V)
  without [] k = []
  without (i ∷ is) k = let rest = without is k in if text_eq i.key k then rest else i ∷ rest

  put : List (Item V) → Text → V → ℕ → ℕ → List (Item V)
  unfolding without
  put is k v at d = record { key = k; value = v; at = at; lasts = d } ∷ without is k

  sweep : List (Item V) → ℕ → List (Item V)
  sweep [] now = []
  sweep (i ∷ is) now = let rest = sweep is now in if lives i.at i.lasts now then i ∷ rest else rest

  lookup-without :
      (is : List (Item V)) (k : Text) (now : ℕ) (j : Text)
      → lookup (without is k) now j ≡ (if text_eq k j then none else lookup is now j)
  unfolding lookup without
  lookup-without [] k now j = ground arith
  lookup-without (i ∷ is) k now j =
      ground (
        arith,
        text_eq_iff i.key k,
        text_eq_iff i.key j,
        text_eq_iff k j,
        lookup-without is k now j,
      )

  lookup-put :
      (is : List (Item V)) (k : Text) (v : V) (at d now : ℕ) (j : Text)
      → lookup (put is k v at d) now j
        ≡ (if text_eq k j then visible at d now v else lookup is now j)
  unfolding lookup put
  lookup-put is k v at d now j = ground (arith, lookup-without is k now j)

  length-without : (is : List (Item V)) (k : Text) → length (without is k) ≤ length is
  unfolding without
  length-without [] k = omega arith
  length-without (i ∷ is) k = ground (arith, length-without is k)

  lookup-sweep :
      (is : List (Item V)) (now later : ℕ) (k : Text)
      → now ≤ later
      → lookup (sweep is now) later k ≡ lookup is later k
  unfolding lookup sweep
  lookup-sweep [] now later k h = refl
  lookup-sweep (i ∷ is) now later k h = ground (arith, lookup-sweep is now later k)

  length-sweep : (is : List (Item V)) (now : ℕ) → length (sweep is now) ≤ length is
  unfolding sweep
  length-sweep [] now = omega arith
  length-sweep (i ∷ is) now = ground (arith, length-sweep is now)

  set_item : Items V → ℕ → Text → V → Lifetime → Items V
  unfolding put
  set_item s now k v l = record s { items = put s.items k v now (span s.span l) }

  add_item : Items V → ℕ → Text → V → Lifetime → Option (Items V)
  unfolding set_item lookup
  add_item s now k v l = elim (lookup s.items now k) [
    | none ↦ some (set_item s now k v l)
    | some w ↦ none
  ]

  add_item_fresh :
      (s : Items V) (now : ℕ) (k : Text) (v : V) (l : Lifetime)
      → lookup s.items now k ≡ none
      → add_item s now k v l ≡ some (set_item s now k v l)
  unfolding add_item set_item
  add_item_fresh s now k v l e = rw (e, add_item)

  add_item_present :
      (s : Items V) (now : ℕ) (k : Text) (v w : V) (l : Lifetime)
      → lookup s.items now k ≡ some w
      → add_item s now k v l ≡ none
  unfolding add_item
  add_item_present s now k v w l e = rw (e, add_item)

unfoldable pub assoc_cache : (V : Type 0) → GoCache V
unfolding lookup set_item add_item sweep lookup-put lookup-without length-without add_item_fresh
    add_item_present lookup-sweep length-sweep
assoc_cache V = record {
  Store = Items V;
  new = λ d. record { span = d; items = [] };
  default_span = λ s. s.span;
  get = λ s now k. lookup s.items now k;
  set = set_item;
  add = add_item;
  delete_expired = λ s now. record s { items = sweep s.items now };
  item_count = λ s. length s.items;
  flush = λ s. record s { items = [] };
  get-new = λ d now k. refl;
  default_span-new = λ d. refl;
  item_count-new = λ d. refl;
  get-set = λ s now k v l later j. lookup-put s.items k v now (span s.span l) later j;
  default_span-set = λ s now k v l. refl;
  item_count-set = λ s now k v l. suc-le-suc (length-without s.items k);
  add_fresh = add_item_fresh;
  add_present = add_item_present;
  get-delete_expired = λ s now later k h. lookup-sweep s.items now later k h;
  default_span-delete_expired = λ s now. refl;
  item_count-delete_expired = λ s now. length-sweep s.items now;
  get-flush = λ s now k. refl;
  default_span-flush = λ s. refl;
  item_count-flush = λ s. refl;
}

bump : List (Item ℕ) → Text → List (Item ℕ)
bump [] k = []
bump (i ∷ is) k = (if text_eq i.key k then record i { value = suc i.value } else i) ∷ bump is k

lookup-bump :
    (is : List (Item ℕ)) (k : Text) (now : ℕ) (j : Text)
    → lookup (bump is k) now j
      ≡ (if text_eq k j then Option.map suc (lookup is now j) else lookup is now j)
unfolding lookup bump
lookup-bump [] k now j = ground arith
lookup-bump (i ∷ is) k now j =
    ground
      (arith, text_eq_iff i.key k, text_eq_iff i.key j, text_eq_iff k j, lookup-bump is k now j)

increment_item : Items ℕ → ℕ → Text → Option (ℕ × Items ℕ)
unfolding lookup bump
increment_item s now k = elim (lookup s.items now k) [
  | none ↦ none
  | some n ↦ some (suc n, record s { items = bump s.items k })
]

unfoldable pub assoc_counters : GoCounters
unfolding assoc_cache increment_item lookup-bump
assoc_counters = record {
  cache = assoc_cache ℕ;
  increment = increment_item;
  increment_missing = λ s now k e. rw (e, increment_item);
  increment_present = λ s now k n e. (
    record s { items = bump s.items k },
    rw (e, increment_item),
    λ later j. lookup-bump s.items k later j,
    refl,
  );
}
