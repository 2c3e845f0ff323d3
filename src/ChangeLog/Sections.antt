-- ===== src/ChangeLog/Sections.antt =====
-- One section of a change log, from the heading of its version to the line behind its changes, in
-- parseChangeLog of app/changelog/changelog.go.
use idena_indexer_api.Prelude.{
  ℕ, ◌≡◌, refl, true, false, Option, none, some, List, [], ◌∷◌, ◌++◌, append_assoc, append-nil,
  if◌then◌else◌, arith,
}
use idena_indexer_api.Prelude.Text.{Text, codes, has_prefix}
use idena_indexer_api.Prelude.Strings.{split}
use idena_indexer_api.ChangeLog.{Semver, ChangeLogData, fork_upgrade, change_of, heading}
use idena_indexer_api.ChangeLog.Parser.{
  ChangeLogs, no_change_logs, add_change, new_data, put_data, link_of, parse_change_log,
}
use idena_indexer_api.ChangeLog.Automaton.{
  outside, in_version, in_changes, scan, step, parse_change_log-eq-scan,
}

-- No line is the mark of a fork.
abbrev pub ForkFree : List Text → Type 0
ForkFree [] = Unit
ForkFree (line ∷ lines) = (fork_upgrade line ≡ none) × ForkFree lines

-- No line is a heading.
abbrev pub HeadingFree : List Text → Type 0
HeadingFree [] = Unit
HeadingFree (line ∷ lines) = (has_prefix line (codes "#") ≡ false) × HeadingFree lines

-- The texts of the lines that start with "- ".
unfoldable pub listed : List Text → List Text
listed [] = []
listed (line ∷ lines) =
    if has_prefix line (codes "- ") then change_of line ∷ listed lines else listed lines

module _ (semver : Semver) (links_by_version : List (Text × Text)) where
  open semver use {Version, string}

  -- No line is the heading of a version with its patch number 0 and a part in parentheses.
  abbrev pub VersionFree : List Text → Type 0
  VersionFree [] = Unit
  VersionFree (line ∷ lines) = (heading semver line ≡ none) × VersionFree lines

  skip_lines :
      (logs : ChangeLogs) (before lines : List Text)
      → VersionFree before
      → scan semver links_by_version outside logs (before ++ lines)
        ≡ scan semver links_by_version outside logs lines
  unfolding scan step
  skip_lines logs [] lines h = refl
  skip_lines logs (line ∷ before) lines h = ground (arith, skip_lines logs before lines)

  skip_headings :
      (v : Version) (anchor : Text) (logs : ChangeLogs) (between lines : List Text)
      → ForkFree between
      → scan semver links_by_version (in_version v anchor) logs (between ++ lines)
        ≡ scan semver links_by_version (in_version v anchor) logs lines
  unfolding scan step
  skip_headings v anchor logs [] lines h = refl
  skip_headings v anchor logs (line ∷ between) lines h =
      ground (arith, skip_headings v anchor logs between lines)

  read_listed :
      (v : Version) (link : Option Text) (d : ChangeLogData) (logs : ChangeLogs)
      (items lines : List Text)
      → HeadingFree items
      → scan semver links_by_version (in_changes v link d) logs (items ++ lines)
        ≡ scan semver links_by_version
            (in_changes v link (record d { changes = d.changes ++ listed items }))
            logs
            lines
  unfolding scan listed add_change
  read_listed v link d logs [] lines h = rw (append-nil d.changes) refl
  read_listed v link d logs (line ∷ items) lines h = ground (
    arith,
    read_listed v link (add_change d line) logs items lines,
    append_assoc d.changes (change_of line ∷ []) (listed items),
  )

  -- The first section of a version: whatever lines stand between its heading and the first mark of a
  -- fork behind it, headings of other versions too, that fork's upgrade and changes become the item
  -- of the version. The first heading behind the changes ends them and is dropped: a version that it
  -- names is not looked for, and the rest of the text is parsed from the line behind it.
  pub parse_change_log-section :
      (text head mark stop : Text) (before between items rest : List Text) (v : Version)
      (anchor : Text) (upgrade : ℕ) (link : Option Text)
      → split text b'\n' ≡ before ++ (head ∷ (between ++ (mark ∷ (items ++ (stop ∷ rest)))))
      → VersionFree before
      → heading semver head ≡ some (v, anchor)
      → ForkFree between
      → fork_upgrade mark ≡ some upgrade
      → link_of semver links_by_version v ≡ some link
      → HeadingFree items
      → has_prefix stop (codes "#") ≡ true
      → parse_change_log semver links_by_version text
        ≡ scan semver links_by_version outside
            (put_data no_change_logs
              (string v)
              link
              (record (new_data anchor upgrade link) { changes = listed items }))
            rest
  unfolding scan new_data
  parse_change_log-section text head mark stop before between items rest v anchor upgrade link es ef
        eh hb em el hi hs =
      let d = new_data anchor upgrade link in
      rw (parse_change_log-eq-scan semver links_by_version text) (
        ground (
          arith,
          skip_lines no_change_logs before (head ∷ (between ++ (mark ∷ (items ++ (stop ∷ rest))))),
          skip_headings v anchor no_change_logs between (mark ∷ (items ++ (stop ∷ rest))),
          read_listed v link d no_change_logs items (stop ∷ rest),
        ))
