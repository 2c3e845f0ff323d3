-- ===== src/ChangeLog.antt =====
-- app/changelog/changelog.go: the files of change logs, parsed and served by version and upgrade.
-- Versions are of the package go-semver, which is a parameter.
pub mod Parser
pub mod Automaton
pub mod Sections
pub mod Main
pub mod Refresh
mod Examples
use idena_indexer_api.Prelude.{
  ℕ, Bool, true, false, not, ◌&&◌, ◌==◌, Option, none, some, List, [], ◌∷◌, ◌++◌, ◌-◌, ◌%◌, ◌^◌,
  if◌then◌else◌, ltb, length, drop, suc, ◌+◌,
}
use mathlib.Core.Option
use idena_indexer_api.Prelude.Text.{Text, codes, has_prefix, trim_prefix, contains}
use idena_indexer_api.Prelude.Decimal.{itoa}
use idena_indexer_api.Prelude.Int.{ℤ, pos, negsuc, ◌==ℤ◌}
use idena_indexer_api.Prelude.Strings.{
  split, trim_last, replace_first, remove_all, cut_matches, find_between, inner, atoi,
}

-- Package go-semver: NewVersion, and Major, Minor, Patch and String of a version.
pub record Semver : Type 1 where
  pub Version : Type 0
  pub new_version : Text → Option Version
  pub major : Version → ℤ
  pub minor : Version → ℤ
  pub patch : Version → ℤ
  pub string : Version → Text

-- service.ChangeLogData
pub record ChangeLogData : Type 0 where
  pub upgrade : ℕ
  pub url : Text
  pub changes : List Text

-- The conversion uint32(n) of an int.
unfoldable pub to_u32 : ℤ → ℕ
to_u32 (pos n) = n % 2 ^ 32
to_u32 (negsuc n) = 2 ^ 32 - 1 - n % 2 ^ 32

abbrev fork_mark : Text
fork_mark = codes "### Fork (Upgrade "

-- The upgrade of a line "### Fork (Upgrade 7)".
unfoldable pub fork_upgrade : Text → Option ℕ
unfolding has_prefix trim_prefix trim_last atoi to_u32
fork_upgrade line =
    if has_prefix line fork_mark
    then Option.map to_u32 (atoi (trim_last (trim_prefix line fork_mark) b')'))
    else none

abbrev hashes : Text → ℕ
hashes [] = 0
hashes (c ∷ s) = let more = hashes s in if c == b'#' then suc more else 0

abbrev is_digit : ℕ → Bool
is_digit c = ltb 47 c && ltb c 58

abbrev digits : Text → ℕ
digits [] = 0
digits (c ∷ s) = let more = digits s in if is_digit c then suc more else 0

-- The length of the match of the regular expression " \(\[#+[0-9]*]\)" that starts a text, or 0.
unfoldable pub reference_width : Text → ℕ
unfolding has_prefix
reference_width s =
    let marks = hashes (drop 3 s) in
    let number = digits (drop (3 + marks) s) in
    if has_prefix s (codes " ([")
      && ltb 0 marks
      && has_prefix (drop (3 + marks + number) s) (codes "])")
    then 5 + marks + number
    else 0

-- The text of a line of the list of changes, without its references to issues.
unfoldable pub change_of : Text → Text
unfolding trim_prefix remove_all cut_matches reference_width
change_of line =
    cut_matches reference_width 0 (remove_all (trim_prefix line (codes "- ")) (codes "], [#"))

-- generateUrl
unfoldable pub generate_url : Text → Text → Text → Text
unfolding replace_first
generate_url base_link local_link anchor =
    replace_first base_link (codes "CHANGELOG.md") [] ++ local_link ++ b'#' ∷ anchor

module _ (semver : Semver) where
  open semver use {Version, new_version, major, minor, patch, string}

  -- generateUrlAnchor
  unfoldable pub generate_url_anchor : Version → Text → Option Text
  unfolding find_between inner replace_first itoa
  generate_url_anchor ver v =
      let sub = find_between b'(' b')' v in
      if ltb 2 (length sub)
      then Option.map
          (λ date.
            itoa (major ver)
            ++ itoa (minor ver)
            ++ itoa (patch ver)
            ++ b'-'
              ∷ replace_first (replace_first date (codes ", ") (codes "-")) (codes " ") (codes "-"))
          (inner sub)
      else none

  -- The version and the anchor of a line "## 1.2.0 (…)"; `none` where parseChangeLog goes on to the
  -- next line.
  unfoldable pub heading : Text → Option (Version × Text)
  unfolding split has_prefix trim_prefix generate_url_anchor
  heading line =
      if has_prefix line (codes "## ")
      then elim (split (trim_prefix line (codes "## ")) b' ') [
        | [] ↦ none
        | word ∷ _ ↦ elim (new_version word) [
          | none ↦ none
          | some v ↦
              if patch v ==ℤ pos 0
              then Option.map (λ anchor. (v, anchor)) (generate_url_anchor v line)
              else none
        ]
      ]
      else none
