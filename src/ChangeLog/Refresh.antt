-- ===== src/ChangeLog/Refresh.antt =====
-- The rounds of loopRefreshing of app/changelog/changelog.go, and what the change log serves.
pub mod Serving
use idena_indexer_api.Prelude.{
  ℕ, ◌+◌, ◌==◌, Option, none, some, List, [], ◌∷◌, ◌++◌, if◌then◌else◌, length,
}
use mathlib.Core.List.{reverse}
use idena_indexer_api.Prelude.Text.{Text, codes}
use idena_indexer_api.Prelude.Decimal.{itoa}
use idena_indexer_api.Prelude.Result.{Result, ok, err}
use idena_indexer_api.Prelude.Assoc.{find}
use idena_indexer_api.ChangeLog.{Semver, ChangeLogData, generate_url}
use idena_indexer_api.ChangeLog.Parser.{
  ChangeLogs, no_change_logs, Run, done, panicked, unfinished, parse_change_log,
}
use idena_indexer_api.ChangeLog.Main.{parse_main_change_log}

pub record ChangeLog : Type 0 where
  pub src_url : Text
  pub change_logs_by_version : List (Text × ChangeLogData)
  pub urls_by_upgrade : ℕ → Text
  pub prev_len : ℕ

-- NewChangeLog, before its goroutine runs
unfoldable pub new_change_log : Text → ChangeLog
new_change_log src_url = record {
  src_url = src_url;
  change_logs_by_version = no_change_logs.change_logs_by_version;
  urls_by_upgrade = no_change_logs.urls_by_upgrade;
  prev_len = 0;
}

-- The two assignments that end refresh.
unfoldable pub put_change_logs : ChangeLog → ChangeLogs → ChangeLog
put_change_logs c logs = record c { change_logs_by_version = logs.change_logs_by_version }

unfoldable pub put_urls : ChangeLog → ChangeLogs → ChangeLog
put_urls c logs = record c { urls_by_upgrade = logs.urls_by_upgrade }

-- What getData returns in one round, by the number of the request in the round and its url.
abbrev pub Web : Type 0
Web = ℕ → Text → Option Text

-- The files of the links, the last link's first, one behind the other; the links are given in the
-- order of their downloads.
unfoldable pub download : Web → ℕ → Text → List Text → Text → Option Text
download get n src_url [] all = some all
download get n src_url (link ∷ links) all = elim (get n (generate_url src_url link [])) [
  | none ↦ none
  | some text ↦ download get (n + 1) src_url links (all ++ text)
]

module _ (semver : Semver) where
  open semver use {Version, new_version, major, minor}

  -- What parseChangeLog returned; a run that has not ended does not come back. The two maps are
  -- assigned one after the other with no lock, so a reader may come between: the first state is the
  -- one between the assignments, the second the one behind both.
  unfoldable pub put_logs : ChangeLog → Run → Option (ChangeLog × ChangeLog)
  unfolding put_change_logs put_urls
  put_logs c (done logs) = some (put_change_logs c logs, put_urls (put_change_logs c logs) logs)
  put_logs c panicked = none
  put_logs c unfinished = none

  -- refresh, with the state between the assignments and the one at its end; `none` is a panic, which
  -- ends the program.
  unfoldable pub refresh : ChangeLog → Web → Option (ChangeLog × ChangeLog)
  unfolding put_logs
  refresh c get = elim (get 0 c.src_url) [
    | none ↦ some (c, c)
    | some main ↦
        let seen = record c { prev_len = length main } in
        if length main == c.prev_len then some (c, c) else elim (parse_main_change_log main) [
          | none ↦ none
          | some m ↦ elim (download get 1 c.src_url (reverse m.links) []) [
            | none ↦ some (seen, seen)
            | some all ↦ put_logs seen (parse_change_log semver m.links_by_version all)
          ]
        ]
  ]

  -- loopRefreshing, for the rounds that are given
  unfoldable pub loop_refreshing : ChangeLog → List Web → Option ChangeLog
  unfolding refresh
  loop_refreshing c [] = some c
  loop_refreshing c (get ∷ gets) = elim (refresh c get) [
    | none ↦ none
    | some r ↦ loop_refreshing r.1 gets
  ]

  -- What the readers may meet while the rounds run, until one of them panics.
  unfoldable pub served : ChangeLog → List Web → List ChangeLog
  unfolding refresh
  served c [] = c ∷ []
  served c (get ∷ gets) = elim (refresh c get) [
    | none ↦ c ∷ []
    | some r ↦ c ∷ r.0 ∷ served r.1 gets
  ]

  -- ForkChangeLog: an error for what is no version, and nil where the version has no fork.
  unfoldable pub fork_change_log : ChangeLog → Text → Result Text (Option ChangeLogData)
  fork_change_log c version = elim (new_version version) [
    | none ↦ err (codes "invalid version")
    | some v ↦
        ok (find c.change_logs_by_version (itoa (major v) ++ b'.' ∷ (itoa (minor v) ++ codes ".0")))
  ]

-- Url
unfoldable pub url : ChangeLog → ℕ → Text
url c upgrade = c.urls_by_upgrade upgrade
