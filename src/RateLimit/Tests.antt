-- ===== src/RateLimit/Tests.antt =====
-- The middleware at concrete requests.
use planisfy.Common.{ℕ, ◌+◌, ◌-◌, ◌/◌, ◌*◌, ◌≡◌, refl, ◌↔◌, true, false, some, [], ◌∷◌}
use planisfy.Quota.{
  finite, Calendar, UsageLog, up, get_monthly_usage_units, reserve_monthly_quota,
  release_monthly_quota, quota_reservation_script, quota_release_script, parse_quota_reservation,
  build_quota_warning_request,
}
use planisfy.RateLimit.{
  Limiters, passed, limited, Request, PlanLimits, Handled, rate_limited, quota_exceeded, final_cost,
  usage_log_cost, is_successful, logged_status, set_quota_headers, with_quota,
  rate_limit_middleware,
}
use planisfy.RateLimit.Charge.{Charged, rate_limit_middleware-Charged, charged_failure-not_durable}
use planisfy.RateLimit.Decision.{Stopped, rate_limited_iff}

abbrev months : Calendar
months = record {
  utc_full_year = λ t. t / 1200;
  utc_month = λ t. t / 100 - 12 * (t / 1200);
  date_utc = λ y m. 1200 * y + 100 * m;
}

abbrev limiters : Limiters
limiters = record { blocked = λ ip. false; consume = λ points key cost. passed 7 1500 }

abbrev over : Limiters
over = record { blocked = λ ip. false; consume = λ points key cost. limited 1500 }

abbrev plan : ℕ → PlanLimits
plan owner_id = record { requests_per_minute = finite 60; monthly_units = finite 100 }

abbrev served : Handled
served = record {
  threw = false;
  status = 200;
  billable_usage = true;
  charge_usage_on_failure = false;
  request_cost = some 4;
}

abbrev failed : Handled
failed = record served { status = 502 }

abbrev charged : Handled
charged = record served { status = 502; charge_usage_on_failure = true }

abbrev request : Request
request = record { client_ip = "10.0.0.1"; owner_id = some 1; cost = 10 }

limit-tests : Unit {0}
unfolding rate_limit_middleware with_quota set_quota_headers final_cost reserve_monthly_quota
    release_monthly_quota quota_reservation_script quota_release_script parse_quota_reservation
    get_monthly_usage_units build_quota_warning_request is_successful
limit-tests = tt

middleware_tests :
    ((rate_limit_middleware months limiters plan [] false served
        (λ r. r)
        1250
        request
        (up (some 20))).redis
      ≡ up (some 24))
    × ((rate_limit_middleware months limiters plan [] false failed
          (λ r. r)
          1250
          request
          (up (some 20))).redis
        ≡ up (some 20))
    × ((rate_limit_middleware months limiters plan [] false served
          (λ r. r)
          1250
          request
          (up (some 95))).response
        ≡ quota_exceeded 95 105 (finite 100))
    × ((rate_limit_middleware months over plan [] false served
          (λ r. r)
          1250
          request
          (up (some 20))).response
        ≡ rate_limited)
    × ((rate_limit_middleware months over plan [] false served
          (λ r. r)
          1250
          request
          (up (some 20))).block_points
        ≡ 1)
unfolding limit-tests
middleware_tests = (refl, refl, refl, refl, refl)

rate_limit_middleware-Charged_example :
    Charged months limiters plan [] false served 1250 1 10 100 (some 20) (
      rate_limit_middleware months limiters plan [] false served
        (λ r. r)
        1250
        request
        (up (some 20)))
rate_limit_middleware-Charged_example =
    rate_limit_middleware-Charged months limiters plan [] false served 1250 "10.0.0.1" 1 10 100
      (some 20) refl

charged_failure-not_durable_example :
    let log : UsageLog = record {
      profile_id = 1;
      timestamp = 1250;
      status_code = logged_status charged;
      cost = usage_log_cost 3 charged;
    } in
    (final_cost 10 charged ≡ 4)
    × (log.cost ≡ 4)
    × (get_monthly_usage_units months 1 1200 (log ∷ []) ≡ get_monthly_usage_units months 1 1200 [])
unfolding limit-tests
charged_failure-not_durable_example =
    charged_failure-not_durable months 1 1200 1250 1 10 3 4 charged [] refl refl refl refl

rate_limited_iff_example :
    ((rate_limit_middleware months over plan [] false served
        (λ r. r)
        1250
        request
        (up (some 20))).response
      ≡ rate_limited)
    ↔ Stopped over plan request
rate_limited_iff_example =
    rate_limited_iff months over plan [] false served (λ r. r) 1250 "10.0.0.1" (some 1) 10
      (up (some 20))
