-- ===== src/ChangeLog/Parser.antt =====
-- parseChangeLog of app/changelog/changelog.go: three loops that share the index of the next line, here
-- the list of the lines that are left.
use idena_indexer_api.Prelude.{
  ℕ, zero, suc, ◌+◌, ◌==◌, Option, none, some, List, [], ◌∷◌, ◌++◌, if◌then◌else◌, length,
}
use idena_indexer_api.Prelude.Text.{Text, codes, has_prefix}
use idena_indexer_api.Prelude.Strings.{split, before_last}
use idena_indexer_api.Prelude.Assoc.{find, insert}
use idena_indexer_api.ChangeLog.{
  Semver, ChangeLogData, fork_upgrade, change_of, generate_url, heading,
}

-- The two maps that parseChangeLog returns; a missing upgrade reads as "".
pub record ChangeLogs : Type 0 where
  pub change_logs_by_version : List (Text × ChangeLogData)
  pub urls_by_upgrade : ℕ → Text

abbrev pub no_change_logs : ChangeLogs
no_change_logs = record { change_logs_by_version = []; urls_by_upgrade = λ u. [] }

-- What comes of a run: the maps, a panic, or no more fuel.
pub data Run : Type 0 where
  done : ChangeLogs → Run
  panicked : Run
  unfinished : Run

-- A line in the list of changes.
unfoldable pub add_change : ChangeLogData → Text → ChangeLogData
add_change d line =
    if has_prefix line (codes "- ")
    then record d { changes = d.changes ++ change_of line ∷ [] }
    else d

-- The innermost loop, and the lines behind the one that ends it.
unfoldable pub read_changes : List Text → ChangeLogData → ChangeLogData × List Text
read_changes [] d = (d, [])
read_changes (line ∷ lines) d =
    let more = read_changes lines (add_change d line) in
    if has_prefix line (codes "#") then (d, lines) else more

-- The loop that looks for the mark of a fork.
unfoldable pub find_fork : List Text → Option (ℕ × List Text)
find_fork [] = none
find_fork (line ∷ lines) = elim (fork_upgrade line) [
  | none ↦ find_fork lines
  | some upgrade ↦ some (upgrade, lines)
]

abbrev pub master_link : Text
master_link = codes "https://github.com/idena-network/idena-go/blob/master/CHANGELOG.md"

-- The item of a fork before its changes are read; `link` is what linksByVersion has for the version.
unfoldable pub new_data : Text → ℕ → Option Text → ChangeLogData
new_data anchor upgrade link = record {
  upgrade = upgrade;
  url = elim link [ none ↦ [] | some l ↦ generate_url master_link l anchor ];
  changes = [];
}

-- Into the maps; a url only if there is a link.
unfoldable pub put_data : ChangeLogs → Text → Option Text → ChangeLogData → ChangeLogs
put_data logs version link d = record {
  change_logs_by_version = insert logs.change_logs_by_version version d;
  urls_by_upgrade = elim link [
    | none ↦ logs.urls_by_upgrade
    | some l ↦ λ u. if u == d.upgrade then d.url else logs.urls_by_upgrade u
  ];
}

module _ (semver : Semver) (links_by_version : List (Text × Text)) where
  open semver use {Version, string}

  -- linksByVersion at "v" and the version less its last part; `none` is a panic.
  unfoldable pub link_of : Version → Option (Option Text)
  link_of v = elim (before_last (string v) b'.') [
    | none ↦ none
    | some major ↦ some (find links_by_version (b'v' ∷ major))
  ]

  -- The outer loop, from the lines that are left and the maps filled so far.
  unfoldable pub parse_lines : ℕ → List Text → ChangeLogs → Run
  parse_lines zero lines logs = unfinished
  parse_lines (suc fuel) [] logs = done logs
  parse_lines (suc fuel) (line ∷ lines) logs = elim (heading semver line) [
    | none ↦ parse_lines fuel lines logs
    | some (v, anchor) ↦ elim (find_fork lines) [
      | none ↦ parse_lines fuel [] logs
      | some (upgrade, rest) ↦ elim (link_of v) [
        | none ↦ panicked
        | some link ↦
            let (d, left) = read_changes rest (new_data anchor upgrade link) in
            parse_lines fuel left (put_data logs (string v) link d)
      ]
    ]
  ]

  -- Each round takes a line at least.
  unfoldable pub parse_change_log : Text → Run
  parse_change_log text =
      let lines = split text b'\n' in parse_lines (length lines + 1) lines no_change_logs
