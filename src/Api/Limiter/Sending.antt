-- ===== src/Api/Limiter/Sending.antt =====
-- What takeResource and releaseResource of app/api/req_limiter.go make of the two channels.
use idena_indexer_api.Prelude.{ℕ, ◌+◌, ◌≤◌, ◌≡◌, ap, ◌∙◌, Bool, arith, if◌then◌else◌}
use idena_indexer_api.Prelude.Text.{Text}
use mathlib.Core.Path.{subst₂}
use idena_indexer_api.GoCache.{GoCounters}
use idena_indexer_api.Api.Limiter.{
  Channel, Outcome, LimiterError, done, failed, blocked, ReqLimiter, is_adjacent, check_req_limit,
  take_resource, release_resource, select_send, then_send,
}

-- What a successful send makes of the channels `q` and `a`.
pub record Sent (q a q' a' : Channel) (path : Text) : Type 0 where
  pub adjacent_used : a'.used ≡ (if is_adjacent path then 1 else 0) + a.used
  pub other_used : q'.used ≡ (if is_adjacent path then 0 else 1) + q.used
  pub adjacent_capacity : a'.capacity ≡ a.capacity
  pub other_capacity : q'.capacity ≡ q.capacity
  pub adjacent_fits : a.used ≤ a.capacity → a'.used ≤ a.capacity
  pub other_fits : q.used ≤ q.capacity → q'.used ≤ q.capacity

-- What a successful receive makes of the channels.
pub record Received (q a q' a' : Channel) (path : Text) : Type 0 where
  pub adjacent_used : a.used ≡ (if is_adjacent path then 1 else 0) + a'.used
  pub other_used : q.used ≡ (if is_adjacent path then 0 else 1) + q'.used
  pub adjacent_capacity : a'.capacity ≡ a.capacity
  pub other_capacity : q'.capacity ≡ q.capacity

module _ (g : GoCounters) where
  open g use {Store}

  pub check_keeps :
      (l : ReqLimiter Store) (now : ℕ) (c : Text)
      → ((check_req_limit g l now c).1.queue ≡ l.queue)
        × ((check_req_limit g l now c).1.adjacent_data_queue ≡ l.adjacent_data_queue)
  unfolding check_req_limit
  check_keeps l now c = ground arith

  abbrev pub IsSent : ReqLimiter Store → ReqLimiter Store → Text → Type 0
  IsSent l l' path = Sent l.queue l.adjacent_data_queue l'.queue l'.adjacent_data_queue path

  select_send-Sent :
      (l l' : ReqLimiter Store) (path : Text) (timer : Bool)
      → select_send g l path timer ≡ (done, l')
      → IsSent l l' path
  unfolding select_send
  select_send-Sent l l' path timer e = ground arith

  select_send-failed :
      (l l' : ReqLimiter Store) (path : Text) (timer : Bool) (err : LimiterError)
      → select_send g l path timer ≡ (failed err, l')
      → l' ≡ l
  unfolding select_send
  select_send-failed l l' path timer err e = ground arith

  then_send-Sent :
      (o : Outcome) (k l l' : ReqLimiter Store) (path : Text) (timer : Bool)
      → k.queue ≡ l.queue
      → k.adjacent_data_queue ≡ l.adjacent_data_queue
      → then_send g (o, k) path timer ≡ (done, l')
      → IsSent l l' path
  then_send-Sent done k l l' path timer p q e =
      subst₂ (λ c a. Sent c a l'.queue l'.adjacent_data_queue path) p q
        (select_send-Sent k l' path timer e)
  then_send-Sent (failed err) k l l' path timer p q e = ground arith
  then_send-Sent blocked k l l' path timer p q e = ground arith

  then_send-failed :
      (o : Outcome) (k l l' : ReqLimiter Store) (path : Text) (timer : Bool) (err : LimiterError)
      → k.queue ≡ l.queue
      → k.adjacent_data_queue ≡ l.adjacent_data_queue
      → then_send g (o, k) path timer ≡ (failed err, l')
      → (l'.queue ≡ l.queue) × (l'.adjacent_data_queue ≡ l.adjacent_data_queue)
  then_send-failed done k l l' path timer err p q e =
      let same = select_send-failed k l' path timer err e in
      (ap (λ m. m.queue) same ∙ p, ap (λ m. m.adjacent_data_queue) same ∙ q)
  then_send-failed (failed err') k l l' path timer err p q e = ground arith
  then_send-failed blocked k l l' path timer err p q e = ground arith

  pub take_resource-Sent :
      (l l' : ReqLimiter Store) (now : ℕ) (client path : Text) (timer : Bool)
      → take_resource g l now client path timer ≡ (done, l')
      → IsSent l l' path
  unfolding take_resource
  take_resource-Sent l l' now client path timer e =
      let r = check_req_limit g l now client in
      let (p, q) = check_keeps l now client in then_send-Sent r.0 r.1 l l' path timer p q e

  pub take_resource-failed :
      (l l' : ReqLimiter Store) (now : ℕ) (client path : Text) (timer : Bool) (err : LimiterError)
      → take_resource g l now client path timer ≡ (failed err, l')
      → (l'.queue ≡ l.queue) × (l'.adjacent_data_queue ≡ l.adjacent_data_queue)
  unfolding take_resource
  take_resource-failed l l' now client path timer err e =
      let r = check_req_limit g l now client in
      let (p, q) = check_keeps l now client in then_send-failed r.0 r.1 l l' path timer err p q e

  pub release_resource-Received :
      (l l' : ReqLimiter Store) (path : Text)
      → release_resource g l path ≡ (done, l')
      → Received l.queue l.adjacent_data_queue l'.queue l'.adjacent_data_queue path
  unfolding release_resource
  release_resource-Received l l' path e = ground arith
