-- ===== src/Prelude/Strings.antt =====
-- Package strings and the two forms of regular expression that app/changelog/changelog.go searches
-- for, over sequences of bytes.
use Prim.Native.Nat.{ℕ, zero, suc, ◌^◌}
use mathlib.Core.Option
use mathlib.Core.Option.{Option, none, some}
use mathlib.Core.List.{List, [], ◌∷◌, ◌++◌}
use idena_indexer_api.Prelude.Tests.{ltb, ◌==◌, if◌then◌else◌}
use idena_indexer_api.Prelude.Lists.{length}
use idena_indexer_api.Prelude.Text.{Text, has_prefix, drop_prefix}
use idena_indexer_api.Prelude.Decimal.{digits_value}
use idena_indexer_api.Prelude.Int.{ℤ, pos, negsuc}

abbrev grow_first : ℕ → List Text → List Text
grow_first c [] = (c ∷ []) ∷ []
grow_first c (part ∷ parts) = (c ∷ part) ∷ parts

-- strings.Split(s, sep) at one byte
unfoldable pub split : Text → ℕ → List Text
split [] sep = [] ∷ []
split (c ∷ s) sep = let rest = split s sep in if c == sep then [] ∷ rest else grow_first c rest

-- strings.TrimSuffix(s, p), for a p of one byte
unfoldable pub trim_last : Text → ℕ → Text
trim_last [] p = []
trim_last (c ∷ []) p = if c == p then [] else c ∷ []
trim_last (c ∷ d ∷ s) p = c ∷ trim_last (d ∷ s) p

-- s[0:strings.LastIndex(s, p)], a panic where p is not in s
unfoldable pub before_last : Text → ℕ → Option Text
before_last [] p = none
before_last (c ∷ s) p = elim (before_last s p) [
  | some front ↦ some (c ∷ front)
  | none ↦ if c == p then some [] else none
]

-- strings.Replace(s, p, r, 1)
unfoldable pub replace_first : Text → Text → Text → Text
unfolding drop_prefix
replace_first [] p r = elim (drop_prefix [] p) [ none ↦ [] | some rest ↦ r ++ rest ]
replace_first (c ∷ s) p r =
    let later = replace_first s p r in
    elim (drop_prefix (c ∷ s) p) [ none ↦ c ∷ later | some rest ↦ r ++ rest ]

-- What is left when every match is cut out, from the left; `width` is the length of the match that
-- starts a text, 0 if there is none, and the number is what is left of the last match.
unfoldable pub cut_matches : (Text → ℕ) → ℕ → Text → Text
cut_matches width n [] = []
cut_matches width (suc n) (c ∷ s) = cut_matches width n s
cut_matches width zero (c ∷ s) = elim (width (c ∷ s)) [
  | zero ↦ c ∷ cut_matches width zero s
  | suc n ↦ cut_matches width n s
]

-- strings.ReplaceAll(s, p, "")
unfoldable pub remove_all : Text → Text → Text
unfolding has_prefix cut_matches
remove_all s p = cut_matches (λ t. if has_prefix t p then length p else 0) zero s

-- Up to the last byte z, which is included.
unfoldable pub up_to_last : Text → ℕ → Option Text
up_to_last [] z = none
up_to_last (c ∷ s) z = elim (up_to_last s z) [
  | some front ↦ some (c ∷ front)
  | none ↦ if c == z then some (c ∷ []) else none
]

-- FindString of a.*z, for two bytes a and z, on a text of one line; "" where nothing matches.
unfoldable pub find_between : ℕ → ℕ → Text → Text
unfolding up_to_last
find_between a z [] = []
find_between a z (c ∷ s) =
    let later = find_between a z s in
    if c == a then elim (up_to_last s z) [ none ↦ [] | some back ↦ c ∷ back ] else later

unfoldable pub drop_last : Text → Text
drop_last [] = []
drop_last (c ∷ []) = []
drop_last (c ∷ d ∷ s) = c ∷ drop_last (d ∷ s)

-- s[1:len(s)-1], a panic on a text that is shorter than two bytes
unfoldable pub inner : Text → Option Text
unfolding drop_last
inner [] = none
inner (c ∷ []) = none
inner (c ∷ d ∷ s) = some (drop_last (d ∷ s))

abbrev digits_only : Text → Option ℕ
digits_only [] = none
digits_only (c ∷ s) = digits_value (some 0) (c ∷ s)

abbrev signed_pos : ℕ → Option ℤ
signed_pos n = if ltb n (2 ^ 63) then some (pos n) else none

abbrev signed_neg : ℕ → Option ℤ
signed_neg zero = some (pos 0)
signed_neg (suc n) = if ltb n (2 ^ 63) then some (negsuc n) else none

-- strconv.Atoi
unfoldable pub atoi : Text → Option ℤ
unfolding digits_value
atoi [] = none
atoi (c ∷ s) =
    if c == b'-'
    then Option.bind (digits_only s) signed_neg
    else Option.bind (digits_only (if c == b'+' then s else c ∷ s)) signed_pos
