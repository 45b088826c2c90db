-- ===== src/RateLimit.antt =====
-- The request limits of the public API: apps/api/src/middleware/rate-limit.ts, with
-- apps/api/src/shared/policy/rate-limit-policy.ts and the charge of
-- apps/api/src/middleware/usage-log.ts. What the library rate-limiter-flexible answers is an argument.
-- The client's address and the path's cost are fields of the request.
pub mod Charge
pub mod Decision
mod Tests
use planisfy.Common.{
  ℕ, ◌+◌, ◌-◌, ◌/◌, min, max, String, Bool, true, false, not, ◌&&◌, ◌||◌, Option, none, some, List,
  [], ◌∷◌, ◌++◌, if◌then◌else◌, or_else,
}
use planisfy.Quota.{
  Limit, finite, infinite, QuotaEvaluation, Calendar, UsageLog, QuotaWarning, is_success, Redis,
  Reserved, reserve_monthly_quota, release_monthly_quota, build_quota_warning_request,
}

-- The source floors the value first; values are naturals here.
unfoldable pub normalize_requests_per_minute : Limit → Limit
normalize_requests_per_minute infinite = infinite
normalize_requests_per_minute (finite value) = finite (max 1 value)

abbrev pub anonymous_public_rpm : ℕ
anonymous_public_rpm = 120

-- How `consume` ends: it resolves with the points left, it rejects with a `RateLimiterRes`, or it
-- rejects with another error. The times are the milliseconds before the next point.
pub data Consumed : Type 0 where
  passed : (remaining_points ms_before_next : ℕ) → Consumed
  limited : (ms_before_next : ℕ) → Consumed
  broken : Consumed

pub data LimiterKey : Type 0 where
  anonymous : String → LimiterKey
  owner : ℕ → LimiterKey

-- `blocked ip` is whether `blockLimiter.consume(ip, 0)` rejects, with any reason, since the code
-- catches them all alike; `consume points key cost` what the
-- request limiter of that many points answers.
pub record Limiters : Type 0 where
  pub blocked : String → Bool
  pub consume : ℕ → LimiterKey → ℕ → Consumed

pub record Request : Type 0 where
  pub client_ip : String
  pub owner_id : Option ℕ
  pub cost : ℕ

pub record PlanLimits : Type 0 where
  pub requests_per_minute : Limit
  pub monthly_units : Limit

-- What the handlers behind the middleware leave: the response's status and the request's variables.
-- Where they threw, there is no status to be successful.
pub record Handled : Type 0 where
  pub threw : Bool
  pub status : ℕ
  pub billable_usage : Bool
  pub charge_usage_on_failure : Bool
  pub request_cost : Option ℕ

pub record Headers : Type 0 where
  pub rate_limit : Option Limit
  pub rate_remaining : Option Limit
  pub rate_reset : Option ℕ
  pub retry_after : Option ℕ
  pub quota_limit : Option Limit
  pub quota_used : Option ℕ
  pub quota_remaining : Option Limit

pub data Response : Type 0 where
  rate_limited : Response
  quota_exceeded : (used projected : ℕ) → Limit → Response
  handled : Handled → Response

-- The middleware's run: the response and its headers, how often the block limiter was charged, the
-- quota's key, and the warning that was enqueued.
pub record Run : Type 0 where
  pub response : Response
  pub headers : Headers
  pub block_points : ℕ
  pub redis : Redis
  pub warning : Option QuotaWarning

abbrev no_headers : Headers
no_headers = record {
  rate_limit = none;
  rate_remaining = none;
  rate_reset = none;
  retry_after = none;
  quota_limit = none;
  quota_used = none;
  quota_remaining = none;
}

-- `Math.ceil(ms / 1000)`
abbrev pub ceil_seconds : ℕ → ℕ
ceil_seconds ms = (ms + 999) / 1000

passed_headers : ℕ → (remaining ms now : ℕ) → Headers
passed_headers points remaining ms now = record no_headers {
  rate_limit = some (finite points);
  rate_remaining = some (finite (max 0 remaining));
  rate_reset = some (ceil_seconds (now + ms));
}

limited_headers : ℕ → ℕ → Headers
limited_headers points ms = record no_headers {
  rate_limit = some (finite points);
  rate_remaining = some (finite 0);
  retry_after = some (ceil_seconds ms);
}

unfoldable pub set_quota_headers : QuotaEvaluation → Headers → Headers
set_quota_headers q h = record h {
  quota_limit = some q.limit;
  quota_used = some q.projected;
  quota_remaining = some q.remaining;
}

-- `successful`, `billable` and `finalCost` of the `finally` block.
unfoldable pub is_successful : Handled → Bool
is_successful h = not h.threw && is_success h.status

unfoldable pub is_billable : Handled → Bool
unfolding is_successful
is_billable h = h.billable_usage && (is_successful h || h.charge_usage_on_failure)

unfoldable pub final_cost : ℕ → Handled → ℕ
unfolding is_billable
final_cost cost h = if is_billable h then max 0 (min cost (or_else h.request_cost cost)) else 0

-- The cost that `usageLogMiddleware` writes, over the cost of the path where the request has none.
-- The status is 500 where the handlers threw.
unfoldable pub logged_status : Handled → ℕ
logged_status h = if h.threw then 500 else h.status

unfoldable pub usage_log_cost : ℕ → Handled → ℕ
unfolding logged_status
usage_log_cost endpoint_cost h =
    if (is_success (logged_status h) || h.charge_usage_on_failure) && h.billable_usage
    then or_else h.request_cost endpoint_cost
    else 0

-- `handle` are the handlers, `meanwhile` what other requests do to the quota's key while they run,
-- and `email_configured` is `isQuotaEmailDeliveryConfigured()`. `now` is the clock's one reading.
module _ (cal : Calendar) (limiters : Limiters) (plan : ℕ → PlanLimits) (logs : List UsageLog)
    (email_configured : Bool) (handle : Handled) (meanwhile : Redis → Redis) (now : ℕ) where
  warning_after : ℕ → Handled → Reserved → ℕ → Option QuotaWarning
  warning_after owner_id h r billed =
      if is_successful h && email_configured
      then build_quota_warning_request cal owner_id r.quota.used billed r.quota.limit now
      else none

  -- Behind the request limiter: the quota, the handlers and the `finally` block.
  unfoldable pub with_quota : ℕ → ℕ → Headers → Redis → Run
  unfolding warning_after set_quota_headers
  with_quota owner_id cost headers redis =
      let (r, redis') =
        reserve_monthly_quota cal owner_id cost (plan owner_id).monthly_units now logs redis in
      let headers' = set_quota_headers r.quota headers in
      if not r.quota.allowed
      then record {
        response = quota_exceeded r.quota.used r.quota.projected r.quota.limit;
        headers = headers';
        block_points = 0;
        redis = redis';
        warning = none;
      }
      else record {
        response = handled handle;
        headers = headers';
        block_points = 0;
        redis = release_monthly_quota r.holds (cost - final_cost cost handle) (meanwhile redis');
        warning = warning_after owner_id handle r (final_cost cost handle);
      }

  after_owner_limiter : ℕ → ℕ → ℕ → Redis → Consumed → Run
  unfolding with_quota passed_headers limited_headers
  after_owner_limiter owner_id cost points redis (passed remaining ms) =
      with_quota owner_id cost (passed_headers points remaining ms now) redis
  after_owner_limiter owner_id cost points redis (limited ms) = record {
    response = rate_limited;
    headers = limited_headers points ms;
    block_points = 1;
    redis = redis;
    warning = none;
  }
  after_owner_limiter owner_id cost points redis broken = with_quota owner_id cost no_headers redis

  for_owner : ℕ → ℕ → Redis → Limit → Run
  unfolding after_owner_limiter
  for_owner owner_id cost redis infinite =
      with_quota owner_id cost
        (record no_headers { rate_limit = some infinite; rate_remaining = some infinite }) redis
  for_owner owner_id cost redis (finite points) =
      after_owner_limiter owner_id cost points redis (limiters.consume points (owner owner_id) cost)

  unquoted : Headers → Redis → Run
  unquoted headers redis = record {
    response = handled handle;
    headers = headers;
    block_points = 0;
    redis = meanwhile redis;
    warning = none;
  }

  for_anonymous : Redis → Consumed → Run
  unfolding passed_headers limited_headers unquoted
  for_anonymous redis (passed remaining ms) =
      unquoted (passed_headers anonymous_public_rpm remaining ms now) redis
  for_anonymous redis (limited ms) = record {
    response = rate_limited;
    headers = limited_headers anonymous_public_rpm ms;
    block_points = 0;
    redis = redis;
    warning = none;
  }
  for_anonymous redis broken = unquoted no_headers redis

  unfoldable pub rate_limit_middleware : Request → Redis → Run
  unfolding for_owner for_anonymous normalize_requests_per_minute
  rate_limit_middleware request redis =
      if limiters.blocked request.client_ip
      then record {
        response = rate_limited;
        headers = no_headers;
        block_points = 0;
        redis = redis;
        warning = none;
      }
      else elim request.owner_id [
        | none ↦
            for_anonymous redis
              (limiters.consume anonymous_public_rpm (anonymous request.client_ip) request.cost)
        | some owner_id ↦
            for_owner owner_id request.cost redis
              (normalize_requests_per_minute (plan owner_id).requests_per_minute)
      ]
