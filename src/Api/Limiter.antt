-- ===== src/Api/Limiter.antt =====
-- app/api/req_limiter.go: the request limiter in front of the HTTP handlers. A channel of empty
-- structs is the number of its elements; a go-cache counts the requests of each client.
pub mod Counting
pub mod Sending
pub mod Queueing
use idena_indexer_api.Prelude.{
  ℕ, zero, suc, ◌+◌, ◌-◌, ◌/◌, Bool, true, false, Option, none, some, if◌then◌else◌, leb, ltb,
}
use idena_indexer_api.Prelude.Int.{ℤ, pos, negsuc, leb_ℤ, ltb_ℤ}
use idena_indexer_api.Prelude.Text.{Text, codes, contains}
use idena_indexer_api.GoCache.{GoCounters, default_expiration}

-- The errors of the limiter, and what a send on a full channel does until it is released.
pub data LimiterError : Type 0 where
  timeout : LimiterError
  req_limit_exceed : LimiterError

pub data Outcome : Type 0 where
  done : Outcome
  failed : LimiterError → Outcome
  blocked : Outcome

-- chan struct{}
pub record Channel : Type 0 where
  pub capacity : ℕ
  pub used : ℕ

unfoldable pub has_room : Channel → Bool
has_room c = ltb c.used c.capacity

pub record ReqLimiter (Store : Type 0) : Type 0 where
  pub queue : Channel
  pub adjacent_data_queue : Channel
  pub req_counts_by_client_id : Store
  pub req_limit : ℤ

-- Go's division of an int by 2 rounds towards 0.
abbrev half : ℤ → ℤ
half (pos n) = pos (n / 2)
half (negsuc n) = if leb n 0 then pos 0 else negsuc ((n + 1) / 2 - 1)

unfoldable pub is_adjacent : Text → Bool
is_adjacent lower_url_path = contains lower_url_path (codes "/adjacent")

module _ (g : GoCounters) where
  open g use {Store, increment}

  -- the limiter that NewServer makes; the counters live 30 seconds
  unfoldable pub new_limiter : ℕ → ℤ → ℕ → ReqLimiter Store
  new_limiter max_req_count reqs_per_minute_limit thirty_seconds = record {
    queue = record { capacity = max_req_count; used = 0 };
    adjacent_data_queue = record { capacity = 1; used = 0 };
    req_counts_by_client_id = g.cache.new thirty_seconds;
    req_limit = half reqs_per_minute_limit;
  }

  -- the closure getReqCount, run without interruption: IncrementInt, Add, IncrementInt
  unfoldable pub increment_again : Store → ℕ → Text → ℕ × Store
  increment_again s now client = elim (increment s now client) [
    | some (n, s') ↦ (n, s')
    | none ↦ (1, s)
  ]

  unfoldable pub add_first : Store → ℕ → Text → ℕ × Store
  unfolding increment_again
  add_first s now client = elim (g.add s now client 1 default_expiration) [
    | some s' ↦ (1, s')
    | none ↦ increment_again s now client
  ]

  unfoldable pub get_req_count : Store → ℕ → Text → ℕ × Store
  unfolding add_first
  get_req_count s now client = elim (increment s now client) [
    | some (n, s') ↦ (n, s')
    | none ↦ add_first s now client
  ]

  unfoldable pub check_req_limit : ReqLimiter Store → ℕ → Text → Outcome × ReqLimiter Store
  unfolding get_req_count
  check_req_limit l now client =
      let (count, s) = get_req_count l.req_counts_by_client_id now client in
      if leb_ℤ l.req_limit (pos 0)
      then (done, l)
      else if ltb_ℤ l.req_limit (pos count)
      then (failed req_limit_exceed, record l { req_counts_by_client_id = s })
      else (done, record l { req_counts_by_client_id = s })

  -- getQueueByUrlPath: which of the two channels a path uses
  unfoldable pub get_queue_by_url_path : ReqLimiter Store → Text → Channel
  unfolding is_adjacent
  get_queue_by_url_path l path = if is_adjacent path then l.adjacent_data_queue else l.queue

  -- a write through the channel that getQueueByUrlPath returns
  unfoldable pub set_queue_by_url_path : ReqLimiter Store → Text → Channel → ReqLimiter Store
  unfolding is_adjacent
  set_queue_by_url_path l path c =
      if is_adjacent path then record l { adjacent_data_queue = c } else record l { queue = c }

  -- The select of takeResource: `timer` says that the timer has fired and is the case chosen.
  unfoldable pub select_send : ReqLimiter Store → Text → Bool → Outcome × ReqLimiter Store
  unfolding get_queue_by_url_path set_queue_by_url_path has_room
  select_send l path timer =
      let c = get_queue_by_url_path l path in
      if timer
      then (failed timeout, l)
      else if has_room c
      then (done, set_queue_by_url_path l path (record c { used = c.used + 1 }))
      else (blocked, l)

  abbrev pub then_send : Outcome × ReqLimiter Store → Text → Bool → Outcome × ReqLimiter Store
  then_send (done, l) path timer = select_send l path timer
  then_send (failed e, l) path timer = (failed e, l)
  then_send (blocked, l) path timer = (blocked, l)

  unfoldable pub take_resource :
      ReqLimiter Store → ℕ → Text → Text → Bool → Outcome × ReqLimiter Store
  take_resource l now client path timer = then_send (check_req_limit l now client) path timer

  -- A receive from an empty channel blocks.
  unfoldable pub release_resource : ReqLimiter Store → Text → Outcome × ReqLimiter Store
  unfolding get_queue_by_url_path set_queue_by_url_path
  release_resource l path =
      let c = get_queue_by_url_path l path in
      if leb c.used 0
      then (blocked, l)
      else (done, set_queue_by_url_path l path (record c { used = c.used - 1 }))
