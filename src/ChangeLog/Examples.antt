-- ===== src/ChangeLog/Examples.antt =====
-- Change logs of app/changelog/changelog.go that are read here, with versions of three numbers.
use idena_indexer_api.Prelude.{
  Any, All, zero, suc, ◌≡◌, refl, ◌↔◌, inl, inr, Option, none, some, List, [], ◌∷◌, ◌++◌, String,
  if◌then◌else◌,
}
use mathlib.Core.Option
use idena_indexer_api.Prelude.Text.{Text, codes, text_eq, has_prefix}
use idena_indexer_api.Prelude.Decimal.{itoa, format_digits}
use idena_indexer_api.Prelude.Int.{ℤ, pos}
use idena_indexer_api.Prelude.Strings.{split, inner, before_last, find_between, atoi}
use idena_indexer_api.ChangeLog.{Semver, fork_upgrade, change_of, generate_url, heading}
use idena_indexer_api.Prelude.Assoc.{find, insert}
use idena_indexer_api.ChangeLog.Parser.{
  parse_lines, read_changes, find_fork, ChangeLogs, no_change_logs, add_change, new_data, put_data,
  link_of, parse_change_log,
}
use idena_indexer_api.ChangeLog.Automaton.{outside, scan, parse_change_log-eq-scan}
use idena_indexer_api.ChangeLog.Sections.{listed, parse_change_log-section}
use idena_indexer_api.ChangeLog.Refresh.{
  ChangeLog, Web, new_change_log, download, put_change_logs, put_urls, put_logs, refresh, served,
}
use idena_indexer_api.ChangeLog.Refresh.Serving.{IsServed, served-new_change_log}
use idena_indexer_api.ChangeLog.Main.{
  add_link, add_links, version_of, parse_main_change_log, IsUnlinked,
  parse_main_change_log-panicked,
}

abbrev Triple : Type 0
Triple = ℤ × ℤ × ℤ

abbrev triple_of : List Text → Option Triple
triple_of (a ∷ b ∷ c ∷ []) =
    Option.bind (atoi a) λ x. Option.bind (atoi b) λ y. Option.map (λ z. (x, y, z)) (atoi c)
triple_of parts = none

-- Versions without a suffix.
abbrev semver : Semver
semver = record {
  Version = Triple;
  new_version = λ s. triple_of (split s b'.');
  major = λ v. v.0;
  minor = λ v. v.1;
  patch = λ v. v.2;
  string = λ v. itoa v.0 ++ b'.' ∷ (itoa v.1 ++ b'.' ∷ itoa v.2);
}

abbrev lines : List String → Text
lines [] = []
lines (s ∷ []) = codes s
lines (s ∷ t ∷ rest) = codes s ++ b'\n' ∷ lines (t ∷ rest)

-- 0.31.0 has no fork, and 0.30.0, which has one, comes behind it.
abbrev two_versions : Text
two_versions = lines (
    "# Change Log" ∷ "## 0.31.0 (Jan 5, 2023)" ∷ "### Fixes" ∷ "- one ([#1])"
    ∷ "## 0.30.0 (Dec 1, 2022)" ∷ "### Fork (Upgrade 10)" ∷ "- two ([#12], [#13])" ∷ "" ∷ "- three"
    ∷ "### Other" ∷ "- four" ∷ [])

abbrev version_links : List (Text × Text)
version_links = (codes "v0.30", codes "a.md") ∷ (codes "v0.31", codes "b.md") ∷ []

-- The fork of 0.30.0 is served as one of 0.31.0.
abbrev misread : ChangeLogs
misread = put_data no_change_logs (codes "0.31.0") (some (codes "b.md")) (record {
  upgrade = 10;
  url = codes "https://github.com/idena-network/idena-go/blob/master/b.md#0310-Jan-5-2023";
  changes = codes "two" ∷ codes "three" ∷ [];
})

parse_change_log-eq-scan_example :
    parse_change_log semver version_links two_versions
    ≡ scan semver version_links outside no_change_logs (split two_versions b'\n')
parse_change_log-eq-scan_example = parse_change_log-eq-scan semver version_links two_versions

parse_change_log-section_example :
    parse_change_log semver version_links two_versions
    ≡ scan semver version_links outside misread (codes "- four" ∷ [])
unfolding heading fork_upgrade link_of split before_last find has_prefix new_data listed change_of
    generate_url put_data Option.bind format_digits text_eq
parse_change_log-section_example =
    parse_change_log-section semver version_links two_versions (codes "## 0.31.0 (Jan 5, 2023)")
      (codes "### Fork (Upgrade 10)") (codes "### Other") (codes "# Change Log" ∷ [])
      (codes "### Fixes" ∷ codes "- one ([#1])" ∷ codes "## 0.30.0 (Dec 1, 2022)" ∷ [])
      (codes "- two ([#12], [#13])" ∷ [] ∷ codes "- three" ∷ []) (codes "- four" ∷ [])
      (pos 0, pos 31, pos 0) (codes "0310-Jan-5-2023") 10 (some (codes "b.md")) refl (refl, tt) refl
      (refl, (refl, (refl, tt))) refl refl (refl, (refl, (refl, tt))) refl

abbrev unlinked : Text
unlinked = lines ("- [v0.31](/b.md)" ∷ "- soon" ∷ [])

parse_main_change_log-panicked_example :
    (parse_main_change_log unlinked ≡ none) ↔ Any IsUnlinked (split unlinked b'\n')
parse_main_change_log-panicked_example = parse_main_change_log-panicked unlinked

unlinked_panics : parse_main_change_log unlinked ≡ none
unfolding split has_prefix find_between
unlinked_panics = parse_main_change_log-panicked_example.1 (inr (inl (refl, refl)))

abbrev source : Text
source = codes "http://h/CHANGELOG.md"

abbrev main_file : Text
main_file = codes "- [v0.31](b.md)"

-- A round's main file, and the file that it links, if it is found.
abbrev web : Text → Option Text → Web
web main file zero address = some main
web main file (suc n) address = if text_eq address (codes "http://h/b.md#") then file else none

-- One round: the start, the state between the two assignments, and the one behind them.
served-new_change_log_example :
    All
      (IsServed semver (new_change_log source) (web main_file (some two_versions) ∷ []))
      (served semver (new_change_log source) (web main_file (some two_versions) ∷ []))
served-new_change_log_example =
    served-new_change_log semver source (web main_file (some two_versions) ∷ [])

-- Between the assignments the new change logs are served with the old links.
abbrev between : ChangeLog
between = record {
  src_url = source;
  change_logs_by_version = misread.change_logs_by_version;
  urls_by_upgrade = no_change_logs.urls_by_upgrade;
  prev_len = 15;
}

mixed :
    served semver (new_change_log source) (web main_file (some two_versions) ∷ [])
    ≡ new_change_log source
      ∷ between
      ∷ record between { urls_by_upgrade = misread.urls_by_upgrade }
      ∷ []
unfolding served refresh put_logs put_change_logs put_urls download parse_main_change_log add_links
    parse_change_log parse_lines read_changes find_fork new_change_log generate_url split add_link
    has_prefix inner find_between text_eq heading Option.bind atoi fork_upgrade link_of before_last
    format_digits find add_change version_of new_data insert change_of
mixed = refl
