-- ===== src/Api/Server/Filter.antt =====
-- requestFilter of app/api/server.go, which stands before every handler.
pub mod Balance
pub mod Forms
use idena_indexer_api.Prelude.{ℕ, ◌+◌, Bool, Option, none, some, List, [], ◌∷◌}
use idena_indexer_api.Prelude.Text.{Text, to_lower}
use idena_indexer_api.Prelude.Assoc.{find, insert}
use idena_indexer_api.GoCache.{GoCounters}
use idena_indexer_api.Api.Params.{get_ip}
use idena_indexer_api.Api.Limiter.{
  ReqLimiter, Outcome, done, failed, blocked, LimiterError, timeout, req_limit_exceed,
  take_resource, release_resource,
}

-- r.Form
abbrev pub Form : Type 0
Form = List (Text × List Text)

-- What the filter reads of a request; ParseForm gives a form or fails.
pub record Incoming : Type 0 where
  pub url_path : Text
  pub forwarded_for : Text
  pub remote_addr : Text
  pub form : Option Form

-- r.Form[strings.ToLower(name)] = value
unfoldable pub add_lower_name : Form → Text → Form
add_lower_name form name = elim (find form name) [
  | none ↦ form
  | some values ↦ insert form (to_lower name) values
]

-- The loop that adds each name in lower case, in the order in which the map is ranged over. What the
-- loop adds while it runs may be visited too, which changes nothing.
unfoldable pub add_lower_names : List Text → Form → Form
add_lower_names [] form = form
add_lower_names (name ∷ names) form = add_lower_names names (add_lower_name form name)

-- An error of the limiter with its status, status 400 for a form that cannot be parsed, the handler's
-- reply to the path and form that it is given, or a goroutine that waits for the limiter.
pub data Answer : Type 0 where
  refused : ℕ → LimiterError → Answer
  bad_request : Answer
  served : Text → Form → Answer
  waits : Answer

unfoldable pub status_of : LimiterError → ℕ
status_of timeout = 503
status_of req_limit_exceed = 429

module _ (g : GoCounters) where
  open g use {Store}

  pub record FilterState : Type 0 where
    pub counter : ℕ
    pub limiter : ReqLimiter Store

  -- generateReqId
  unfoldable pub generate_req_id : FilterState → ℕ × FilterState
  generate_req_id s = (s.counter, record s { counter = s.counter + 1 })

  -- The limiter after the deferred releaseResource.
  unfoldable pub release : FilterState → Text → FilterState
  release s path = record s { limiter = (release_resource g s.limiter path).1 }

  -- What follows takeResource, for a request that runs alone.
  unfoldable pub after_take :
      FilterState → List Text → Incoming → Outcome × ReqLimiter Store → Answer × FilterState
  after_take s order r (failed e, l) = (refused (status_of e) e, record s { limiter = l })
  after_take s order r (blocked, l) = (waits, record s { limiter = l })
  after_take s order r (done, l) = (
    elim r.form [
      | none ↦ bad_request
      | some form ↦ served (to_lower r.url_path) (add_lower_names order form)
    ],
    release (record s { limiter = l }) (to_lower r.url_path),
  )

  unfoldable pub request_filter :
      FilterState → ℕ → Bool → List Text → Incoming → Answer × FilterState
  request_filter s now timer order r =
      let (id, t) = generate_req_id s in
      after_take t order r (
        take_resource g t.limiter now (get_ip r.forwarded_for r.remote_addr) (to_lower r.url_path)
          timer)
