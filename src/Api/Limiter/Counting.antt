-- ===== src/Api/Limiter/Counting.antt =====
-- Sequences of requests of many clients through checkReqLimit of app/api/req_limiter.go.
use Prim.Native.Nat.{min}
use mathlib.Core.Option
use idena_indexer_api.Prelude.{
  ℕ, zero, suc, ◌+◌, ◌-◌, ◌≤◌, ◌<◌, ◌≡◌, refl, ◌∙◌, ap, Bool, true, false, ◌&&◌, Option, none, some,
  List, [], ◌∷◌, arith, if◌then◌else◌, ltb, Bool-cases, Option-cases, inl, inr,
}
use idena_indexer_api.Prelude.Int.{ℤ, pos, leb_ℤ}
use idena_indexer_api.Prelude.Text.{Text, text_eq, text_eq_iff, text_eq_refl}
use idena_indexer_api.GoCache.{GoCounters, default_expiration}
use idena_indexer_api.Api.Limiter.{
  Outcome, req_limit_exceed, done, failed, ReqLimiter, get_req_count, check_req_limit, add_first,
  new_limiter,
}

-- A request: its time and its client.
pub record Request : Type 0 where
  pub at : ℕ
  pub client : Text

abbrev pub is_done : Outcome → Bool
is_done done = true
is_done _ = false

-- The requests of a client among those that came.
unfoldable pub seen : Text → List Request → ℕ
seen c [] = 0
seen c (r ∷ rs) = (if text_eq r.client c then 1 else 0) + seen c rs

abbrev pub Within : ℕ → ℕ → List Request → Type 0
Within from until [] = Unit
Within from until (r ∷ rs) = (from ≤ r.at) × (r.at ≤ until) × Within from until rs

-- What the cache shows after `n` requests.
abbrev counter : ℕ → Option ℕ
counter zero = none
counter (suc n) = some (suc n)

module _ (g : GoCounters) where
  open g use {Store, get, default_span, increment}

  -- The requests of a client that checkReqLimit lets through.
  unfoldable pub accepted : Text → ReqLimiter Store → List Request → ℕ
  accepted c l [] = 0
  accepted c l (r ∷ rs) =
      let (o, l') = check_req_limit g l r.at r.client in
      (if text_eq r.client c && is_done o then 1 else 0) + accepted c l' rs

  -- Up to `until` the cache shows `n` requests of the client, and what is added from `from` on
  -- lives that long.
  pub record Tracks (s : Store) (c : Text) (from until n : ℕ) : Type 0 where
    pub shows : (now : ℕ) → now ≤ until → get s now c ≡ counter n
    pub lasts : until ≤ from + default_span s

  get_req_count_first :
      (s : Store) (now : ℕ) (c : Text)
      → get s now c ≡ none
      → get_req_count g s now c ≡ (1, g.set s now c 1 default_expiration)
  unfolding get_req_count
  get_req_count_first s now c e = rw (
    g.increment_missing s now c e,
    g.cache.add_fresh s now c 1 default_expiration e,
    get_req_count,
    add_first,
  )

  get_req_count_next :
      (s : Store) (now n : ℕ) (c : Text)
      → get s now c ≡ some n
      → (s' : Store) × (get_req_count g s now c ≡ (suc n, s'))
        × ((later : ℕ) (j : Text)
            → get s' later j
              ≡ (if text_eq c j then Option.map suc (get s later j) else get s later j))
        × (default_span s' ≡ default_span s)
  unfolding get_req_count
  get_req_count_next s now n c e =
      let (s', done', keeps, span') = g.increment_present s now c n e in
      (s', rw (done', get_req_count), keeps, span')

  shows_first :
      (s : Store) (now later : ℕ) (c : Text)
      → later ≤ now + default_span s
      → get (g.set s now c 1 default_expiration) later c ≡ some 1
  shows_first s now later c h =
      g.cache.get-set s now c 1 default_expiration later c ∙ rw text_eq_refl (ground arith)

  -- A request of the client is counted.
  own_request :
      (s : Store) (now : ℕ) (c : Text) (from until n : ℕ)
      → Tracks s c from until n
      → from ≤ now
      → now ≤ until
      → ((get_req_count g s now c).0 ≡ suc n)
        × Tracks (get_req_count g s now c).1 c from until (suc n)
  own_request s now c from until zero t a b = rw (get_req_count_first s now c (t.shows now b)) (
    refl,
    record {
      shows = λ later q. shows_first s now later c (omega (arith, t.lasts));
      lasts = rw g.cache.default_span-set t.lasts;
    },
  )
  own_request s now c from until (suc n) t a b =
      let (s', e, keeps, same) = get_req_count_next s now (suc n) c (t.shows now b) in
      rw e (
        refl,
        record {
          shows = λ later q. keeps later c ∙ rw (text_eq_refl, t.shows later q) refl;
          lasts = rw same t.lasts;
        },
      )

  -- The request of another client leaves the count as it is.
  other_request :
      (s : Store) (now : ℕ) (c d : Text) (from until n : ℕ)
      → text_eq d c ≡ false
      → Tracks s c from until n
      → Tracks (get_req_count g s now d).1 c from until n
  other_request s now c d from until n ne t = elim (Option-cases (get s now d)) [
    | inl e ↦ rw (get_req_count_first s now d e) (record {
      shows =
          λ later q. g.cache.get-set s now d 1 default_expiration later c ∙ rw ne (t.shows later q);
      lasts = rw g.cache.default_span-set t.lasts;
    })
    | inr (m, e) ↦
        let (s', e', keeps, same) = get_req_count_next s now m d e in
        rw e' (record {
          shows = λ later q. keeps later c ∙ rw ne (t.shows later q);
          lasts = rw same t.lasts;
        })
  ]

  check_limited :
      (l : ReqLimiter Store) (now limit : ℕ) (c : Text)
      → l.req_limit ≡ pos limit
      → 0 < limit
      → check_req_limit g l now c ≡ (
        if ltb limit (get_req_count g l.req_counts_by_client_id now c).0
            then failed req_limit_exceed
            else done,
        record l { req_counts_by_client_id = (get_req_count g l.req_counts_by_client_id now c).1 },
      )
  check_limited l now limit c e h = unfold check_req_limit in ground arith

  own_request_of :
      (s : Store) (now : ℕ) (c d : Text) (from until n : ℕ)
      → text_eq d c ≡ true
      → Tracks s c from until n
      → from ≤ now
      → now ≤ until
      → ((get_req_count g s now d).0 ≡ suc n)
        × Tracks (get_req_count g s now d).1 c from until (suc n)
  own_request_of s now c d from until n h t a b =
      rw ((text_eq_iff d c).0 h) (own_request s now c from until n t a b)

  abbrev counted : ReqLimiter Store → Request → ReqLimiter Store
  counted l r = record l {
    req_counts_by_client_id = (get_req_count g l.req_counts_by_client_id r.at r.client).1;
  }

  accepted_from :
      (l : ReqLimiter Store) (c : Text) (limit from until n : ℕ) (rs : List Request)
      → l.req_limit ≡ pos limit
      → 0 < limit
      → Tracks l.req_counts_by_client_id c from until n
      → Within from until rs
      → accepted c l rs ≡ min (seen c rs) (limit - n)
  unfolding accepted seen
  accepted_from l c limit from until n [] e p t w = omega arith
  accepted_from l c limit from until n (r ∷ rs) e p t (a, b, w) =
      rw (check_limited l r.at limit r.client e p) (elim (Bool-cases (text_eq r.client c)) [
        | inl own ↦
            let (value, t') =
              own_request_of l.req_counts_by_client_id r.at c r.client from until n own t a b in
            let ih = accepted_from (counted l r) c limit from until (suc n) rs e p t' w in
            ground (arith, value, ih, own)
        | inr other ↦
            let t' = other_request l.req_counts_by_client_id r.at c r.client from until n other t in
            let ih = accepted_from (counted l r) c limit from until n rs e p t' w in
            ground (arith, ih, other)
      ])

  -- With a limit above 0, from empty counters and while the requests come within the life of a
  -- counter from `from` on, checkReqLimit lets through exactly the first `limit` requests of each
  -- client, whatever the other clients send in between.
  pub accepted-eq-min :
      (l : ReqLimiter Store) (c : Text) (limit from until : ℕ) (rs : List Request)
      → l.req_limit ≡ pos limit
      → 0 < limit
      → ((now : ℕ) (k : Text) → get l.req_counts_by_client_id now k ≡ none)
      → until ≤ from + default_span l.req_counts_by_client_id
      → Within from until rs
      → accepted c l rs ≡ min (seen c rs) limit
  accepted-eq-min l c limit from until rs e p empty lasts w =
      accepted_from l c limit from until 0 rs e p
        (record { shows = λ now h. empty now c; lasts = lasts }) w
      ∙ ap (min (seen c rs)) (omega arith)

  -- With a limit of 0 or below checkReqLimit lets every request through.
  accepted-eq-seen :
      (l : ReqLimiter Store) (c : Text) (rs : List Request)
      → leb_ℤ l.req_limit (pos 0) ≡ true
      → accepted c l rs ≡ seen c rs
  unfolding accepted seen check_req_limit
  accepted-eq-seen l c [] h = refl
  accepted-eq-seen l c (r ∷ rs) h = rw h (ground (arith, accepted-eq-seen l c rs h))

  -- A server whose configured limit is at most 1 request per minute lets every request of every
  -- client through, at any time: NewServer halves the limit, and 1 / 2 is 0, the value that turns
  -- the limit off.
  pub accepted-new_limiter :
      (max_req_count thirty_seconds : ℕ) (limit : ℤ) (c : Text) (rs : List Request)
      → leb_ℤ limit (pos 1) ≡ true
      → accepted c (new_limiter g max_req_count limit thirty_seconds) rs ≡ seen c rs
  accepted-new_limiter max_req_count thirty_seconds limit c rs h =
      accepted-eq-seen (new_limiter g max_req_count limit thirty_seconds) c rs (halved limit h)
    where
      halved :
          (limit : ℤ)
          → leb_ℤ limit (pos 1) ≡ true
          → leb_ℤ (new_limiter g max_req_count limit thirty_seconds).req_limit (pos 0) ≡ true
      halved limit h = unfold new_limiter in ground arith
