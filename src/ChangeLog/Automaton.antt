-- ===== src/ChangeLog/Automaton.antt =====
-- The loops of parseChangeLog as one pass over the lines, with the loop that it is in as its state.
use idena_indexer_api.Prelude.{
  ℕ, zero, suc, ◌≤◌, ◌<◌, ◌≡◌, refl, sym, ◌∙◌, inl, inr, Option, none, some, List, [], ◌∷◌,
  if◌then◌else◌, length, arith, Option-cases,
}
use idena_indexer_api.Prelude.Text.{Text, codes, has_prefix}
use idena_indexer_api.Prelude.Strings.{split}
use idena_indexer_api.ChangeLog.{Semver, ChangeLogData, fork_upgrade, heading}
use idena_indexer_api.ChangeLog.Parser.{
  ChangeLogs, no_change_logs, Run, done, panicked, add_change, read_changes, find_fork, new_data,
  put_data, link_of, parse_lines, parse_change_log,
}

pub length-read_changes :
    (lines : List Text) (d : ChangeLogData) → length (read_changes lines d).1 ≤ length lines
unfolding read_changes
length-read_changes [] d = omega arith
length-read_changes (line ∷ lines) d = ground (arith, length-read_changes lines (add_change d line))

length-find_fork :
    (lines : List Text) (u : ℕ) (rest : List Text)
    → find_fork lines ≡ some (u, rest)
    → length rest ≤ length lines
unfolding find_fork
length-find_fork [] u rest e = ground arith
length-find_fork (line ∷ lines) u rest e = ground (arith, length-find_fork lines u rest)

module _ (semver : Semver) (links_by_version : List (Text × Text)) where
  open semver use {Version, string}

  -- Outside every section, behind the heading of a version, or in the changes of a fork.
  pub data Mode : Type 0 where
    outside : Mode
    in_version : Version → Text → Mode
    in_changes : Version → Option Text → ChangeLogData → Mode

  unfoldable pub step : Mode → ChangeLogs → Text → Option (Mode × ChangeLogs)
  step outside logs line = elim (heading semver line) [
    | none ↦ some (outside, logs)
    | some (v, anchor) ↦ some (in_version v anchor, logs)
  ]
  step (in_version v anchor) logs line = elim (fork_upgrade line) [
    | none ↦ some (in_version v anchor, logs)
    | some upgrade ↦ elim (link_of semver links_by_version v) [
      | none ↦ none
      | some link ↦ some (in_changes v link (new_data anchor upgrade link), logs)
    ]
  ]
  step (in_changes v link d) logs line =
      if has_prefix line (codes "#")
      then some (outside, put_data logs (string v) link d)
      else some (in_changes v link (add_change d line), logs)

  unfoldable pub close : Mode → ChangeLogs → ChangeLogs
  close outside logs = logs
  close (in_version v anchor) logs = logs
  close (in_changes v link d) logs = put_data logs (string v) link d

  unfoldable pub scan : Mode → ChangeLogs → List Text → Run
  unfolding step close
  scan mode logs [] = done (close mode logs)
  scan mode logs (line ∷ lines) = elim (step mode logs line) [
    | none ↦ panicked
    | some (next, kept) ↦ scan next kept lines
  ]

  scan_changes :
      (v : Version) (link : Option Text) (lines : List Text) (d : ChangeLogData) (logs : ChangeLogs)
      → scan (in_changes v link d) logs lines
        ≡ scan outside
            (put_data logs (string v) link (read_changes lines d).0)
            (read_changes lines d).1
  unfolding scan read_changes
  scan_changes v link [] d logs = refl
  scan_changes v link (line ∷ lines) d logs =
      ground (arith, scan_changes v link lines (add_change d line) logs)

  -- Where the loop that looks for a fork goes on.
  behind_fork : Version → Text → ChangeLogs → Option (ℕ × List Text) → Run
  behind_fork v anchor logs none = done logs
  behind_fork v anchor logs (some (upgrade, rest)) = elim (link_of semver links_by_version v) [
    | none ↦ panicked
    | some link ↦ scan (in_changes v link (new_data anchor upgrade link)) logs rest
  ]

  scan_version :
      (v : Version) (anchor : Text) (logs : ChangeLogs) (lines : List Text)
      → scan (in_version v anchor) logs lines ≡ behind_fork v anchor logs (find_fork lines)
  unfolding scan find_fork behind_fork
  scan_version v anchor logs [] = refl
  scan_version v anchor logs (line ∷ lines) = ground (arith, scan_version v anchor logs lines)

  pub parse_lines-eq-scan :
      (fuel : ℕ) (lines : List Text) (logs : ChangeLogs)
      → length lines < fuel
      → parse_lines semver links_by_version fuel lines logs ≡ scan outside logs lines
  unfolding parse_lines scan behind_fork
  parse_lines-eq-scan zero lines logs h = absurd (omega arith)
  parse_lines-eq-scan (suc fuel) [] logs h = refl
  parse_lines-eq-scan (suc fuel) (line ∷ lines) logs h = elim (Option-cases (heading semver line)) [
    | inl e ↦ rw (e, parse_lines, scan, step) (parse_lines-eq-scan fuel lines logs (omega arith))
    | inr ((v, anchor), e) ↦
        rw (e, parse_lines, scan, step)
          (rw (scan_version v anchor logs lines) (elim (Option-cases (find_fork lines)) [
            | inl f ↦ rw (f, behind_fork) (parse_lines-eq-scan fuel [] logs (omega arith))
            | inr ((u, rest), f) ↦
                rw (f, behind_fork)
                  (elim (Option-cases (link_of semver links_by_version v)) [
                    | inl k ↦ rw (k, behind_fork) refl
                    | inr (link, k) ↦
                        let d = new_data anchor u link in
                        rw (k, behind_fork)
                          (parse_lines-eq-scan fuel (read_changes rest d).1
                              (put_data logs (string v) link (read_changes rest d).0)
                              (omega (
                                arith,
                                length-read_changes rest d,
                                length-find_fork lines u rest f,
                              ))
                            ∙ sym (scan_changes v link rest d logs))
                  ])
          ]))
  ]

  -- parseChangeLog ends on every text, and does what one pass over its lines does that looks for a
  -- heading of a version, then for the mark of a fork, whatever other headings come before it, and then
  -- takes changes up to the next line that starts with "#", which it drops.
  pub parse_change_log-eq-scan :
      (text : Text)
      → parse_change_log semver links_by_version text
        ≡ scan outside no_change_logs (split text b'\n')
  unfolding parse_change_log
  parse_change_log-eq-scan text = parse_lines-eq-scan _ _ _ (omega arith)
