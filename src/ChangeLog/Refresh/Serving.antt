-- ===== src/ChangeLog/Refresh/Serving.antt =====
-- What the change log of app/changelog/changelog.go serves while the rounds of its loop run.
use idena_indexer_api.Prelude.{
  Any, All, ℕ, ◌≡◌, refl, ◌∙◌, ◌⊎◌, inl, inr, some, List, [], ◌∷◌, length, arith, Option-cases,
  Bool-cases, ◌==◌,
}
use mathlib.Core.Path.{subst}
use mathlib.Core.List.{reverse}
use idena_indexer_api.Prelude.Text.{Text}
use idena_indexer_api.ChangeLog.{Semver, ChangeLogData}
use idena_indexer_api.ChangeLog.Parser.{
  ChangeLogs, Run, done, panicked, unfinished, parse_change_log,
}
use idena_indexer_api.ChangeLog.Main.{MainLinks, parse_main_change_log}
use idena_indexer_api.ChangeLog.Refresh.{
  ChangeLog, Web, new_change_log, download, put_change_logs, put_urls, put_logs, refresh,
  loop_refreshing, served,
}

abbrev pub versions_of : ChangeLogs → List (Text × ChangeLogData)
versions_of logs = logs.change_logs_by_version

abbrev pub urls_of : ChangeLogs → ℕ → Text
urls_of logs = logs.urls_by_upgrade

module _ (semver : Semver) where
  -- The maps are what one round makes of the files that it downloads.
  pub record IsMade (src_url : Text) (logs : ChangeLogs) (get : Web) : Type 0 where
    pub main : Text
    pub links : MainLinks
    pub all : Text
    pub main_read : get 0 src_url ≡ some main
    pub main_parsed : parse_main_change_log main ≡ some links
    pub downloaded : download get 1 src_url (reverse links.links) [] ≡ some all
    pub parsed : parse_change_log semver links.links_by_version all ≡ done logs

  -- One of the two maps is that of what the round makes.
  abbrev pub Makes : {X : Type 0} → (ChangeLogs → X) → Text → X → Web → Type 0
  Makes part src_url x get = (logs : ChangeLogs) × IsMade src_url logs get × (x ≡ part logs)

  -- The map is the old one, or what one of the rounds makes.
  abbrev pub Comes : {X : Type 0} → (ChangeLogs → X) → Text → X → List Web → X → Type 0
  Comes part src_url old gets x = (x ≡ old) ⊎ Any (Makes part src_url x) gets

  -- Each of the two maps is, by itself, an old one or what one of the rounds makes.
  abbrev pub IsServed : ChangeLog → List Web → ChangeLog → Type 0
  IsServed c gets d =
      Comes versions_of c.src_url c.change_logs_by_version gets d.change_logs_by_version
      × Comes urls_of c.src_url c.urls_by_upgrade gets d.urls_by_upgrade

  -- What a round leaves between its assignments and at its end.
  record Step (c : ChangeLog) (get : Web) (between d : ChangeLog) : Type 0 where
    src_url : d.src_url ≡ c.src_url
    versions_between :
        (between.change_logs_by_version ≡ c.change_logs_by_version)
        ⊎ Makes versions_of c.src_url between.change_logs_by_version get
    urls_between : between.urls_by_upgrade ≡ c.urls_by_upgrade
    versions :
        (d.change_logs_by_version ≡ c.change_logs_by_version)
        ⊎ Makes versions_of c.src_url d.change_logs_by_version get
    urls : (d.urls_by_upgrade ≡ c.urls_by_upgrade) ⊎ Makes urls_of c.src_url d.urls_by_upgrade get

  unchanged-Step :
      (c d : ChangeLog) (get : Web) (r : ChangeLog × ChangeLog)
      → d.src_url ≡ c.src_url
      → d.change_logs_by_version ≡ c.change_logs_by_version
      → d.urls_by_upgrade ≡ c.urls_by_upgrade
      → some (d, d) ≡ some r
      → Step c get r.0 r.1
  unchanged-Step c d get r s v u e = record {
    src_url = ground arith;
    versions_between = inl (ground arith);
    urls_between = ground arith;
    versions = inl (ground arith);
    urls = inl (ground arith);
  }

  put_logs-Step :
      (c seen : ChangeLog) (get : Web) (run : Run) (r : ChangeLog × ChangeLog)
      → seen.src_url ≡ c.src_url
      → seen.urls_by_upgrade ≡ c.urls_by_upgrade
      → ((logs : ChangeLogs) → run ≡ done logs → IsMade c.src_url logs get)
      → put_logs semver seen run ≡ some r
      → Step c get r.0 r.1
  unfolding put_logs put_change_logs put_urls
  put_logs-Step c seen get (done logs) r s u made e = record {
    src_url = ground arith;
    versions_between = inr (logs, made logs refl, ground arith);
    urls_between = ground arith;
    versions = inr (logs, made logs refl, ground arith);
    urls = inr (logs, made logs refl, ground arith);
  }
  put_logs-Step c seen get panicked r s u made e = absurd (ground arith)
  put_logs-Step c seen get unfinished r s u made e = absurd (ground arith)

  refresh-Step :
      (c : ChangeLog) (get : Web) (r : ChangeLog × ChangeLog)
      → refresh semver c get ≡ some r
      → Step c get r.0 r.1
  unfolding refresh
  refresh-Step c get r e = elim (Option-cases (get 0 c.src_url)) [
    | inl m ↦ unchanged-Step c c get r refl refl refl (ground arith)
    | inr (main, m) ↦
        let seen : ChangeLog = record c { prev_len = length main } in
        elim (Bool-cases (length main == c.prev_len)) [
          | inl same ↦ unchanged-Step c c get r refl refl refl (ground arith)
          | inr new ↦ elim (Option-cases (parse_main_change_log main)) [
            | inl p ↦ absurd (ground arith)
            | inr (links, p) ↦
                elim (Option-cases (download get 1 c.src_url (reverse links.links) [])) [
                  | inl l ↦ unchanged-Step c seen get r refl refl refl (ground arith)
                  | inr (all, l) ↦
                      put_logs-Step c seen get (parse_change_log semver links.links_by_version all)
                        r refl refl
                        (λ logs q. record {
                          main = main;
                          links = links;
                          all = all;
                          main_read = m;
                          main_parsed = p;
                          downloaded = l;
                          parsed = q;
                        })
                        (ground arith)
                ]
          ]
        ]
  ]

  Comes-cons :
      {X : Type 0} (part : ChangeLogs → X) (src src' : Text) (old mid x : X) (get : Web)
      (gets : List Web)
      → src' ≡ src
      → (mid ≡ old) ⊎ Makes part src mid get
      → Comes part src' mid gets x
      → Comes part src old (get ∷ gets) x
  Comes-cons part src src' old mid x get gets s (inl q) (inl e) = inl (e ∙ q)
  Comes-cons part src src' old mid x get gets s (inr (logs, made, q)) (inl e) =
      inr (inl (logs, made, e ∙ q))
  Comes-cons part src src' old mid x get gets s first (inr later) =
      inr (inr (subst (λ t. Any (Makes part t x) gets) s later))

  weaken :
      (c d : ChangeLog) (get : Web) (gets : List Web) (between : ChangeLog) (es : List ChangeLog)
      → Step c get between d
      → All (IsServed d gets) es
      → All (IsServed c (get ∷ gets)) es
  weaken c d get gets between [] s tt = tt
  weaken c d get gets between (e ∷ es) s ((v, u), rest) = (
    (
      Comes-cons versions_of c.src_url d.src_url c.change_logs_by_version d.change_logs_by_version
          e.change_logs_by_version get gets s.src_url s.versions v,
      Comes-cons urls_of c.src_url d.src_url c.urls_by_upgrade d.urls_by_upgrade e.urls_by_upgrade
          get gets s.src_url s.urls u,
    ),
    weaken c d get gets between es s rest,
  )

  between-IsServed :
      (c d between : ChangeLog) (get : Web) (gets : List Web)
      → Step c get between d
      → IsServed c (get ∷ gets) between
  between-IsServed c d between get gets s =
      (elim s.versions_between [ inl q ↦ inl q | inr made ↦ inr (inl made) ], inl s.urls_between)

  served-AreServed :
      (c : ChangeLog) (gets : List Web) → All (IsServed c gets) (served semver c gets)
  unfolding served
  served-AreServed c [] = ((inl refl, inl refl), tt)
  served-AreServed c (get ∷ gets) = elim (Option-cases (refresh semver c get)) [
    | inl e ↦ rw (e, served) ((inl refl, inl refl), tt)
    | inr (r, e) ↦
        let step = refresh-Step c get r e in
        rw (e, served)
          (
            (inl refl, inl refl),
            (
              between-IsServed c r.1 r.0 get gets step,
              weaken c r.1 get gets r.0 (served semver r.1 gets) step (served-AreServed r.1 gets),
            ),
          )
  ]

  -- Whatever the rounds download, and also between the two assignments that end a round, each of the two
  -- maps that are served is, by itself, the empty one of the start or what one of the rounds made of
  -- the main file and of all the files that it links, as that round got them. The two maps may be of
  -- different rounds.
  pub served-new_change_log :
      (src_url : Text) (gets : List Web)
      → All (IsServed (new_change_log src_url) gets) (served semver (new_change_log src_url) gets)
  served-new_change_log src_url gets = served-AreServed (new_change_log src_url) gets

  -- The state behind the rounds is one of those that are served.
  loop_refreshing-served :
      (c d : ChangeLog) (gets : List Web)
      → loop_refreshing semver c gets ≡ some d
      → Any (λ e. e ≡ d) (served semver c gets)
  unfolding loop_refreshing served
  loop_refreshing-served c d [] h = inl (ground arith)
  loop_refreshing-served c d (get ∷ gets) h = elim (Option-cases (refresh semver c get)) [
    | inl e ↦ absurd (ground arith)
    | inr (r, e) ↦ rw (e, served) (inr (inr (loop_refreshing-served r.1 d gets (ground arith))))
  ]
