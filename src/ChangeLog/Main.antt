-- ===== src/ChangeLog/Main.antt =====
-- parseMainChangeLog of app/changelog/changelog.go: the links of the main file.
use idena_indexer_api.Prelude.{
  Any, ℕ, ◌≡◌, refl, ◌↔◌, inl, inr, true, Option, none, some, List, [], ◌∷◌, ◌++◌, if◌then◌else◌,
  ltb, length, arith, Option-cases,
}
use idena_indexer_api.Prelude.Text.{Text, codes, has_prefix}
use idena_indexer_api.Prelude.Strings.{split, find_between, up_to_last, inner}
use idena_indexer_api.Prelude.Assoc.{insert}

pub record MainLinks : Type 0 where
  pub links : List Text
  pub links_by_version : List (Text × Text)

abbrev pub no_links : MainLinks
no_links = record { links = []; links_by_version = [] }

-- The version of a line, in brackets, if there is one.
unfoldable pub version_of : Text → Option Text
version_of line = let v = find_between b'[' b']' line in if ltb 2 (length v) then inner v else none

-- The line's link, in parentheses; `none` is the panic of slicing a text that has no such part.
unfoldable pub add_link : MainLinks → Text → Option MainLinks
add_link m line =
    let v = find_between b'(' b')' line in
    if has_prefix line (codes "-")
    then elim (inner v) [
      | none ↦ none
      | some url ↦
          if ltb 2 (length v)
          then some (record {
            links = m.links ++ url ∷ [];
            links_by_version = elim (version_of line) [
              | none ↦ m.links_by_version
              | some ver ↦ insert m.links_by_version ver url
            ];
          })
          else some m
    ]
    else some m

unfoldable pub add_links : MainLinks → List Text → Option MainLinks
add_links m [] = some m
add_links m (line ∷ lines) = elim (add_link m line) [ none ↦ none | some n ↦ add_links n lines ]

unfoldable pub parse_main_change_log : Text → Option MainLinks
parse_main_change_log text = add_links no_links (split text b'\n')

-- A line of a list that has no "(" with a ")" behind it.
abbrev pub IsUnlinked : Text → Type 0
IsUnlinked line = (has_prefix line (codes "-") ≡ true) × (find_between b'(' b')' line ≡ [])

up_to_last-ne-nil : (s : Text) (z : ℕ) → up_to_last s z ≡ some [] → ⊥
unfolding up_to_last
up_to_last-ne-nil [] z e = cc
up_to_last-ne-nil (c ∷ s) z e = ground arith

-- What is found is no text of one byte, so only where nothing is found the slice panics.
inner-find_between :
    (a z : ℕ) (s : Text) → inner (find_between a z s) ≡ none → find_between a z s ≡ []
unfolding inner find_between
inner-find_between a z [] e = refl
inner-find_between a z (c ∷ s) e = ground (arith, inner-find_between a z s, up_to_last-ne-nil s z)

add_link-IsUnlinked : (m : MainLinks) (line : Text) → (add_link m line ≡ none) ↔ IsUnlinked line
unfolding add_link inner
add_link-IsUnlinked m line =
    (λ e. ground (arith, inner-find_between b'(' b')' line), λ (dash, nothing). ground arith)

add_links-Any :
    (m : MainLinks) (lines : List Text) → (add_links m lines ≡ none) ↔ Any IsUnlinked lines
unfolding add_links
add_links-Any m [] = (λ e. cc, λ e. absurd e)
add_links-Any m (line ∷ lines) = elim (Option-cases (add_link m line)) [
  | inl e ↦ (λ h. inl ((add_link-IsUnlinked m line).0 e), λ h. ground arith)
  | inr (n, e) ↦
      let later = add_links-Any n lines in
      (
        λ h. inr (later.0 (ground arith)),
        λ h. elim h [
          | inl u ↦ absurd (cc (e, (add_link-IsUnlinked m line).1 u))
          | inr l ↦ let q = later.1 l in ground arith
        ],
      )
]

-- The parsing of the main file panics just when a line that starts with "-" has no "(" with a ")"
-- behind it.
pub parse_main_change_log-panicked :
    (text : Text) → (parse_main_change_log text ≡ none) ↔ Any IsUnlinked (split text b'\n')
unfolding parse_main_change_log
parse_main_change_log-panicked text = add_links-Any no_links (split text b'\n')
