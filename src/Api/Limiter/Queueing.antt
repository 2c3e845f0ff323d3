-- ===== src/Api/Limiter/Queueing.antt =====
-- The two channels of app/api/req_limiter.go under any interleaving of requests: takeResource
-- before a handler runs, releaseResource when it has returned.
use idena_indexer_api.Prelude.{
  ℕ, ◌+◌, ◌≤◌, ◌≡◌, refl, ap, ◌∙◌, Bool, false, List, [], ◌∷◌, ◌++◌, arith, if◌then◌else◌,
}
use idena_indexer_api.Prelude.Text.{Text}
use idena_indexer_api.Prelude.Int.{ℤ}
use idena_indexer_api.GoCache.{GoCounters}
use idena_indexer_api.Api.Limiter.{
  new_limiter, LimiterError, done, failed, ReqLimiter, is_adjacent, take_resource, release_resource,
}
use idena_indexer_api.Api.Limiter.Sending.{
  Received, IsSent, take_resource-Sent, take_resource-failed, release_resource-Received,
}

-- The requests in flight that use the channel of adjacent data, or the other one.
unfoldable pub number_adjacent : List Text → ℕ
number_adjacent [] = 0
number_adjacent (p ∷ ps) = (if is_adjacent p then 1 else 0) + number_adjacent ps

unfoldable pub number_other : List Text → ℕ
number_other [] = 0
number_other (p ∷ ps) = (if is_adjacent p then 0 else 1) + number_other ps

number_adjacent-middle :
    (ps qs : List Text) (p : Text)
    → number_adjacent (ps ++ p ∷ qs) ≡ (if is_adjacent p then 1 else 0) + number_adjacent (ps ++ qs)
unfolding number_adjacent
number_adjacent-middle [] qs p = refl
number_adjacent-middle (q ∷ ps) qs p = omega (arith, number_adjacent-middle ps qs p)

number_other-middle :
    (ps qs : List Text) (p : Text)
    → number_other (ps ++ p ∷ qs) ≡ (if is_adjacent p then 0 else 1) + number_other (ps ++ qs)
unfolding number_other
number_other-middle [] qs p = refl
number_other-middle (q ∷ ps) qs p = omega (arith, number_other-middle ps qs p)

module _ (g : GoCounters) where
  open g use {Store}

  pub record World : Type 0 where
    pub limiter : ReqLimiter Store
    pub in_flight : List Text

  -- A request is let in or refused, at any time and with the timer firing or not, or the handler
  -- of a request in flight returns.
  pub data Step (w : World) : World → Type 0 where
    admit :
        (now : ℕ) (client path : Text) (l : ReqLimiter Store)
        → take_resource g w.limiter now client path false ≡ (done, l)
        → Step w (record { limiter = l; in_flight = path ∷ w.in_flight })
    refuse :
        (now : ℕ) (client path : Text) (timer : Bool) (e : LimiterError) (l : ReqLimiter Store)
        → take_resource g w.limiter now client path timer ≡ (failed e, l)
        → Step w (record { limiter = l; in_flight = w.in_flight })
    finish :
        (before after : List Text) (path : Text) (l : ReqLimiter Store)
        → w.in_flight ≡ before ++ path ∷ after
        → release_resource g w.limiter path ≡ (done, l)
        → Step w (record { limiter = l; in_flight = before ++ after })

  pub data Reach (start : World) : World → Type 0 where
    here : Reach start start
    next : {v w : World} → Reach start v → Step v w → Reach start w

  -- The channels hold one element for each request in flight, and never more than fit.
  pub record IsBalanced (max : ℕ) (w : World) : Type 0 where
    pub adjacent_used : w.limiter.adjacent_data_queue.used ≡ number_adjacent w.in_flight
    pub other_used : w.limiter.queue.used ≡ number_other w.in_flight
    pub adjacent_capacity : w.limiter.adjacent_data_queue.capacity ≡ 1
    pub other_capacity : w.limiter.queue.capacity ≡ max
    pub adjacent_fits : w.limiter.adjacent_data_queue.used ≤ 1
    pub other_fits : w.limiter.queue.used ≤ max

  admit-IsBalanced :
      (max : ℕ) (w : World) (path : Text) (l : ReqLimiter Store)
      → IsSent g w.limiter l path
      → IsBalanced max w
      → IsBalanced max (record { limiter = l; in_flight = path ∷ w.in_flight })
  unfolding number_adjacent number_other
  admit-IsBalanced max w path l s b = ground arith

  refuse-IsBalanced :
      (max : ℕ) (w : World) (l : ReqLimiter Store)
      → l.queue ≡ w.limiter.queue
      → l.adjacent_data_queue ≡ w.limiter.adjacent_data_queue
      → IsBalanced max w
      → IsBalanced max (record { limiter = l; in_flight = w.in_flight })
  refuse-IsBalanced max w l p q b = ground arith

  finish-IsBalanced :
      (max : ℕ) (w : World) (before after : List Text) (path : Text) (l : ReqLimiter Store)
      → w.in_flight ≡ before ++ path ∷ after
      → Received w.limiter.queue w.limiter.adjacent_data_queue l.queue l.adjacent_data_queue path
      → IsBalanced max w
      → IsBalanced max (record { limiter = l; in_flight = before ++ after })
  finish-IsBalanced max w before after path l e r b =
      let adjacent = ap number_adjacent e ∙ number_adjacent-middle before after path in
      let other = ap number_other e ∙ number_other-middle before after path in ground arith

  Step-IsBalanced : {max : ℕ} {v w : World} → Step v w → IsBalanced max v → IsBalanced max w
  Step-IsBalanced {max} {v} (admit now client path l e) b =
      admit-IsBalanced max v path l (take_resource-Sent g v.limiter l now client path false e) b
  Step-IsBalanced {max} {v} (refuse now client path timer err l e) b =
      let (p, q) = take_resource-failed g v.limiter l now client path timer err e in
      refuse-IsBalanced max v l p q b
  Step-IsBalanced {max} {v} (finish before after path l e r) b =
      finish-IsBalanced max v before after path l e (release_resource-Received g v.limiter l path r)
        b

  pub Reach-IsBalanced :
      {max : ℕ} {start w : World} → IsBalanced max start → Reach start w → IsBalanced max w
  Reach-IsBalanced b here = b
  Reach-IsBalanced b (next r s) = Step-IsBalanced s (Reach-IsBalanced b r)

  -- The limiter that NewServer makes, with no request in flight.
  abbrev pub idle : ℕ → ℤ → ℕ → World
  idle max limit thirty_seconds = record {
    limiter = new_limiter g max limit thirty_seconds;
    in_flight = [];
  }

  idle-IsBalanced :
      (max : ℕ) (limit : ℤ) (thirty_seconds : ℕ) → IsBalanced max (idle max limit thirty_seconds)
  unfolding new_limiter number_adjacent number_other
  idle-IsBalanced max limit thirty_seconds = ground arith

  module _ (max thirty_seconds : ℕ) (limit : ℤ) (w : World)
      (r : Reach (idle max limit thirty_seconds) w) where
    -- In every state that is reached from the limiter of NewServer, whatever requests come and in
    -- whatever order they end, at most one request for adjacent data and at most maxReqCount others
    -- are in flight.
    pub in_flight_bounds : (number_adjacent w.in_flight ≤ 1) × (number_other w.in_flight ≤ max)
    in_flight_bounds =
        let b = Reach-IsBalanced (idle-IsBalanced max limit thirty_seconds) r in ground arith

    -- In every state that is reached from the limiter of NewServer, the release at the end of a
    -- request in flight does not block.
    pub release_resource_done :
        (before after : List Text) (path : Text)
        → w.in_flight ≡ before ++ path ∷ after
        → (release_resource g w.limiter path).0 ≡ done
    release_resource_done before after path e =
        let b = Reach-IsBalanced (idle-IsBalanced max limit thirty_seconds) r in
        let adjacent = ap number_adjacent e ∙ number_adjacent-middle before after path in
        let other = ap number_other e ∙ number_other-middle before after path in
        unfold release_resource in ground arith
