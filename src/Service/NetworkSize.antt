-- ===== src/Service/NetworkSize.antt =====
-- app/service/network_size_loader.go: the cached network size.
use idena_indexer_api.Prelude.{
  ℕ, ◌+◌, ◌≤◌, ◌≡◌, refl, ◌∙◌, Bool, true, false, none, some, arith, if◌then◌else◌, leb, Bool-cases,
  inl, inr,
}
use idena_indexer_api.Prelude.Text.{Text, codes, text_eq_refl}
use idena_indexer_api.Prelude.Result.{Result, ok, err}
use idena_indexer_api.GoCache.{GoCache, Lifetime, default_expiration, lasting}

-- Durations in seconds.
unfoldable pub success_response_expiration : ℕ
success_response_expiration = 60

unfoldable pub err_response_expiration : ℕ
err_response_expiration = 10

abbrev pub name : Text
name = codes "data"

module _ {Err : Type 0} (g : GoCache (Result Err ℕ)) where
  open g use {Store}

  -- NewCachedNetworkSizeLoader
  unfoldable pub new_loader : Store
  unfolding success_response_expiration
  new_loader = g.new success_response_expiration

  abbrev pub expiration : Result Err ℕ → Lifetime
  expiration (ok n) = default_expiration
  expiration (err e) = lasting err_response_expiration

  -- The part of Load under the mutex: the cache is asked again at `locked`, and a load ends at `end`.
  unfoldable pub load_locked : Store → ℕ → ℕ → Result Err ℕ → Result Err ℕ × Bool × Store
  unfolding err_response_expiration
  load_locked s locked end loaded = elim (g.get s locked name) [
    | some r ↦ (r, false, s)
    | none ↦ (loaded, true, g.set s end name loaded (expiration loaded))
  ]

  -- `loaded` is what the wrapped loader returns if it is called; the Boolean says whether it was.
  unfoldable pub load : Store → ℕ → ℕ → ℕ → Result Err ℕ → Result Err ℕ × Bool × Store
  unfolding load_locked
  load s asked locked end loaded = elim (g.get s asked name) [
    | some r ↦ (r, false, s)
    | none ↦ load_locked s locked end loaded
  ]

  abbrev pub life : Result Err ℕ → ℕ
  life (ok n) = 60
  life (err e) = 10

  load_locked_miss :
      (s : Store) (locked end : ℕ) (r : Result Err ℕ)
      → g.get s locked name ≡ none
      → load_locked s locked end r ≡ (r, true, g.set s end name r (expiration r))
  unfolding load_locked
  load_locked_miss s locked end r e = rw (e, load_locked)

  load_locked_hit :
      (s : Store) (locked end : ℕ) (q r : Result Err ℕ)
      → g.get s locked name ≡ some q
      → load_locked s locked end r ≡ (q, false, s)
  unfolding load_locked
  load_locked_hit s locked end q r e = rw (e, load_locked)

  load_hit :
      (s : Store) (asked locked end : ℕ) (q r : Result Err ℕ)
      → g.get s asked name ≡ some q
      → load s asked locked end r ≡ (q, false, s)
  unfolding load
  load_hit s asked locked end q r e = rw (e, load)

  load_miss :
      (s : Store) (asked locked end : ℕ) (r : Result Err ℕ)
      → g.get s asked name ≡ none
      → load s asked locked end r ≡ load_locked s locked end r
  unfolding load
  load_miss s asked locked end r e = rw (e, load)

  get-set_name :
      (s : Store) (end later : ℕ) (r : Result Err ℕ)
      → g.default_span s ≡ 60
      → g.get (g.set s end name r (expiration r)) later name
        ≡ (if leb later (end + life r) then some r else none)
  unfolding err_response_expiration
  get-set_name s end later (ok n) d =
      g.get-set s end name (ok n) default_expiration later name ∙ rw (text_eq_refl, d) refl
  get-set_name s end later (err x) d =
      g.get-set s end name (err x) (lasting 10) later name ∙ rw text_eq_refl refl

  -- The result that a load leaves in the cache.
  abbrev pub after_load : Store → ℕ → ℕ → Result Err ℕ → Store
  after_load s locked end r = (load_locked s locked end r).2

  get-after_load :
      (s : Store) (locked end later : ℕ) (r : Result Err ℕ)
      → g.default_span s ≡ 60
      → g.get s locked name ≡ none
      → g.get (after_load s locked end r) later name
        ≡ (if leb later (end + life r) then some r else none)
  get-after_load s locked end later r d e =
      rw (load_locked_miss s locked end r e, after_load) (get-set_name s end later r d)

  -- Of two calls that hold the mutex one after the other, on a cache of 60 seconds that is empty
  -- for the first, the first loads, and the second, while the result lives, answers with it and
  -- loads nothing.
  pub load_locked_once :
      (s : Store) (locked end locked' end' : ℕ) (r r' : Result Err ℕ)
      → g.default_span s ≡ 60
      → g.get s locked name ≡ none
      → locked' ≤ end + life r
      → (load_locked s locked end r ≡ (r, true, after_load s locked end r))
        × (load_locked (after_load s locked end r) locked' end' r'
            ≡ (r, false, after_load s locked end r))
  load_locked_once s locked end locked' end' r r' d e le = (
    ground (arith, load_locked_miss s locked end r e),
    load_locked_hit (after_load s locked end r) locked' end' r r'
        (get-after_load s locked end locked' r d e ∙ ground arith),
  )

  -- If a call finds a cache of 60 seconds empty and loads, a later call answers with the loaded
  -- result for 60 seconds after a success and for 10 after an error, without a load, and loads anew
  -- after that.
  pub load-after_load :
      (s : Store) (locked end asked locked' end' : ℕ) (r r' : Result Err ℕ)
      → g.default_span s ≡ 60
      → g.get s locked name ≡ none
      → asked ≤ locked'
      → load (after_load s locked end r) asked locked' end' r' ≡ (
          if leb asked (end + life r)
          then (r, false, after_load s locked end r)
          else (r', true, g.set (after_load s locked end r) end' name r' (expiration r')))
  load-after_load s locked end asked locked' end' r r' d e le =
      let s' = after_load s locked end r in
      elim (Bool-cases (leb asked (end + life r))) [
        | inl lives ↦
            load_hit s' asked locked' end' r r'
              (get-after_load s locked end asked r d e ∙ ground arith)
            ∙ ground arith
        | inr gone ↦
            load_miss s' asked locked' end' r'
              (get-after_load s locked end asked r d e ∙ ground arith)
            ∙ load_locked_miss s' locked' end' r'
                (get-after_load s locked end locked' r d e ∙ ground arith)
            ∙ ground arith
      ]
