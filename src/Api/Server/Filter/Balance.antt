-- ===== src/Api/Server/Filter/Balance.antt =====
-- What requestFilter of app/api/server.go does to the channels of the request limiter.
use idena_indexer_api.Prelude.{ℕ, ◌+◌, ◌≡◌, refl, ap, ◌∙◌, Bool, true, false, ◌≢◌, List, [], arith}
use mathlib.Core.Path.{subst}
use idena_indexer_api.Prelude.Text.{Text, to_lower}
use idena_indexer_api.GoCache.{GoCounters}
use idena_indexer_api.Api.Params.{get_ip}
use idena_indexer_api.Api.Limiter.{
  ReqLimiter, Outcome, done, failed, blocked, check_req_limit, take_resource, then_send,
  select_send, release_resource,
}
use idena_indexer_api.Api.Limiter.Sending.{check_keeps}
use idena_indexer_api.Api.Limiter.Queueing.{World, admit, refuse, finish, Reach, here, next}
use idena_indexer_api.Api.Server.Filter.{
  Incoming, waits, FilterState, generate_req_id, release, after_take, request_filter,
}

module _ (g : GoCounters) where
  open g use {Store}

  then_send_done :
      (o : Outcome) (k l : ReqLimiter Store) (path : Text) (timer : Bool)
      → then_send g (o, k) path timer ≡ (done, l)
      → (timer ≡ false) × (select_send g k path false ≡ (done, l))
  unfolding select_send
  then_send_done done k l path true e = absurd (ground arith)
  then_send_done done k l path false e = (refl, e)
  then_send_done (failed f) k l path timer e = absurd (ground arith)
  then_send_done blocked k l path timer e = absurd (ground arith)

  take_resource_done :
      (l l' : ReqLimiter Store) (now : ℕ) (client path : Text) (timer : Bool)
      → take_resource g l now client path timer ≡ (done, l')
      → (timer ≡ false) × (select_send g (check_req_limit g l now client).1 path false ≡ (done, l'))
  unfolding take_resource
  take_resource_done l l' now client path timer e =
      then_send_done (check_req_limit g l now client).0 (check_req_limit g l now client).1 l' path
        timer e

  -- The release undoes a send.
  release_undoes :
      (l l' : ReqLimiter Store) (path : Text)
      → select_send g l path false ≡ (done, l')
      → release_resource g l' path ≡ (done, l)
  unfolding select_send release_resource
  release_undoes l l' path e = ground arith

  abbrev pub world : FilterState g → List Text → World g
  world s ps = record { limiter = s.limiter; in_flight = ps }

  after_take-Reach :
      (s : FilterState g) (now : ℕ) (timer : Bool) (order : List Text) (r : Incoming)
      (ps : List Text) (client : Text) (o : Outcome) (l : ReqLimiter Store)
      → take_resource g s.limiter now client (to_lower r.url_path) timer ≡ (o, l)
      → (after_take g s order r (o, l)).0 ≢ waits
      → Reach g (world s ps) (world (after_take g s order r (o, l)).1 ps)
  unfolding after_take
  after_take-Reach s now timer order r ps client (failed err) l e n =
      next here (refuse now client (to_lower r.url_path) timer err l e)
  after_take-Reach s now timer order r ps client blocked l e n = absurd (n refl)
  after_take-Reach s now timer order r ps client done l e n =
      let path = to_lower r.url_path in
      let k = (check_req_limit g s.limiter now client).1 in
      let (t, sent) = take_resource_done s.limiter l now client path timer e in
      let rel = release_undoes k l path sent in
      unfold release in
      rw rel (
        next
          (next here (
            admit now client path l
              (subst (λ b. take_resource g s.limiter now client path b ≡ (done, l)) t e)))
          (finish [] ps path k refl rel))

  -- A request that requestFilter does not leave waiting is, to the limiter, one admission and the end
  -- of the request, or one refusal, whatever becomes of its form and its handler: requests that pass
  -- the filter one behind the other only make steps of the interleavings above, and the requests in
  -- flight are as before.
  pub request_filter-Reach :
      (s : FilterState g) (now : ℕ) (timer : Bool) (order : List Text) (r : Incoming)
      (ps : List Text)
      → (request_filter g s now timer order r).0 ≢ waits
      → Reach g (world s ps) (world (request_filter g s now timer order r).1 ps)
  unfolding request_filter generate_req_id
  request_filter-Reach s now timer order r ps n =
      let client = get_ip r.forwarded_for r.remote_addr in
      let taken = take_resource g s.limiter now client (to_lower r.url_path) timer in
      after_take-Reach (record s { counter = s.counter + 1 }) now timer order r ps client taken.0
        taken.1 refl n

  then_send_kept :
      (p o : Outcome) (k l : ReqLimiter Store) (path : Text) (timer : Bool)
      → then_send g (p, k) path timer ≡ (o, l)
      → o ≢ done
      → l ≡ k
  unfolding select_send
  then_send_kept done o k l path timer e n = ground arith
  then_send_kept (failed f) o k l path timer e n = ground arith
  then_send_kept blocked o k l path timer e n = ground arith

  after_take-queues :
      (s : FilterState g) (now : ℕ) (timer : Bool) (order : List Text) (r : Incoming)
      (client : Text) (o : Outcome) (l : ReqLimiter Store)
      → take_resource g s.limiter now client (to_lower r.url_path) timer ≡ (o, l)
      → (after_take g s order r (o, l)).1.limiter ≡ (check_req_limit g s.limiter now client).1
  unfolding after_take take_resource
  after_take-queues s now timer order r client (failed f) l e =
      then_send_kept (check_req_limit g s.limiter now client).0 (failed f)
        (check_req_limit g s.limiter now client).1 l (to_lower r.url_path) timer e (cc)
  after_take-queues s now timer order r client blocked l e =
      then_send_kept (check_req_limit g s.limiter now client).0 blocked
        (check_req_limit g s.limiter now client).1 l (to_lower r.url_path) timer e (cc)
  after_take-queues s now timer order r client done l e =
      let (t, sent) = take_resource_done s.limiter l now client (to_lower r.url_path) timer e in
      unfold release in
      ap (λ p. p.1)
        (release_undoes (check_req_limit g s.limiter now client).1 l (to_lower r.url_path) sent)

  -- However a request ends, refused, with a form that cannot be parsed, served, or waiting, the filter
  -- leaves the channels as they were: what one request takes it gives back.
  pub request_filter-queues :
      (s : FilterState g) (now : ℕ) (timer : Bool) (order : List Text) (r : Incoming)
      → ((request_filter g s now timer order r).1.limiter.queue ≡ s.limiter.queue)
        × ((request_filter g s now timer order r).1.limiter.adjacent_data_queue
            ≡ s.limiter.adjacent_data_queue)
  unfolding request_filter generate_req_id
  request_filter-queues s now timer order r =
      let client = get_ip r.forwarded_for r.remote_addr in
      let taken = take_resource g s.limiter now client (to_lower r.url_path) timer in
      let same =
        after_take-queues (record s { counter = s.counter + 1 }) now timer order r client taken.0
          taken.1 refl in
      let kept = check_keeps g s.limiter now client in
      (
        ap (λ (l : ReqLimiter Store). l.queue) same ∙ kept.0,
        ap (λ (l : ReqLimiter Store). l.adjacent_data_queue) same ∙ kept.1,
      )
