-- ===== src/RateLimit/Charge.antt =====
-- apps/api/src/middleware/rate-limit.ts: what a request is charged in the month's counter, beside what
-- apps/api/src/middleware/usage-log.ts logs.
use planisfy.Common.{
  ℕ, ◌+◌, ◌-◌, ◌≤◌, ◌<◌, min, max, String, ◌≡◌, ◌≢◌, refl, ◌⊎◌, inl, inr, Bool, true, false, Option,
  some, List, ◌∷◌, arith, Bool-cases, ltb,
}
use planisfy.Quota.{
  Limit, finite, infinite, Calendar, UsageLog, up, sum_where, get_monthly_usage_units,
  release_monthly_quota, quota_release_script,
}
use planisfy.Quota.Reservation.{counter, durable, reserve_monthly_quota_up}
use planisfy.RateLimit.{
  Limiters, PlanLimits, Handled, Headers, rate_limited, handled, Run, Consumed, passed, limited,
  broken, is_successful, is_billable, final_cost, logged_status, usage_log_cost, with_quota,
  after_owner_limiter, for_owner, rate_limit_middleware, passed_headers, no_headers,
}

pub final_cost-le : (cost : ℕ) (h : Handled) → final_cost cost h ≤ cost
unfolding final_cost
final_cost-le cost h = elim (Bool-cases (is_billable h)) [
  | inl e ↦ rw e (omega arith)
  | inr e ↦ rw e (omega arith)
]

-- Giving back what was reserved beyond the final cost leaves the final cost charged.
release-charge :
    (stored : Option ℕ) (lifted cost final : ℕ)
    → final ≤ cost
    → counter stored ≡ lifted + cost
    → (stored' : Option ℕ) × (release_monthly_quota true (cost - final) (up stored) ≡ up stored')
      × (counter stored' ≡ lifted + final)
unfolding release_monthly_quota quota_release_script
release-charge stored lifted cost final h c = elim (Bool-cases (ltb 0 (cost - final))) [
  | inl e ↦ rw e (_, refl, omega arith)
  | inr e ↦ rw e (stored, refl, ground arith)
]

module _ (cal : Calendar) (limiters : Limiters) (plan : ℕ → PlanLimits) (logs : List UsageLog)
    (email_configured : Bool) (handle : Handled) (now : ℕ) where
  -- How a run may end for an owner with a finite month: the request is charged its final cost, or it
  -- is refused for its quota or by a request limiter and charged nothing. A run that reserves lifts
  -- the counter to the durable units first.
  abbrev pub Charged : ℕ → ℕ → ℕ → Option ℕ → Run → Type 0
  Charged owner_id cost limit stored run =
      let lifted = max (counter stored) (durable cal owner_id cost limit now logs) in
      (lifted + cost ≤ limit)
        × (run.response ≡ handled handle)
        × ((stored' : Option ℕ) × (run.redis ≡ up stored')
            × (counter stored' ≡ lifted + final_cost cost handle))
      ⊎ (limit < lifted + cost)
        × (run.response ≢ handled handle)
        × ((stored' : Option ℕ) × (run.redis ≡ up stored') × (counter stored' ≡ lifted))
      ⊎ (run.response ≡ rate_limited) × (run.redis ≡ up stored)

  with_quota-Charged :
      (owner_id cost limit : ℕ) (headers : Headers) (stored : Option ℕ)
      → (plan owner_id).monthly_units ≡ finite limit
      → Charged owner_id cost limit stored (
          with_quota cal limiters plan logs email_configured handle
            (λ r. r)
            now
            owner_id
            cost
            headers
            (up stored))
  unfolding with_quota
  with_quota-Charged owner_id cost limit headers stored e =
      let (stored', now_up, used, outcome) =
        reserve_monthly_quota_up cal owner_id cost limit now logs stored in
      elim outcome [
        | inl (fits, allowed, holds, count) ↦
            rw (e, allowed, now_up, holds)
              (inl (
                fits,
                refl,
                release-charge stored' _ cost (final_cost cost handle) (final_cost-le cost handle)
                    count,
              ))
        | inr (over, refused, free, count) ↦
            rw (e, refused, now_up) (inr (inl (over, (λ x. cc), (stored', refl, count))))
      ]

  after_owner_limiter-Charged :
      (owner_id cost limit points : ℕ) (stored : Option ℕ) (answer : Consumed)
      → (plan owner_id).monthly_units ≡ finite limit
      → Charged owner_id cost limit stored (
          after_owner_limiter cal limiters plan logs email_configured handle
            (λ r. r)
            now
            owner_id
            cost
            points
            (up stored)
            answer)
  unfolding after_owner_limiter
  after_owner_limiter-Charged owner_id cost limit points stored (passed remaining ms) e =
      with_quota-Charged owner_id cost limit (passed_headers points remaining ms now) stored e
  after_owner_limiter-Charged owner_id cost limit points stored (limited ms) e =
      inr (inr (refl, refl))
  after_owner_limiter-Charged owner_id cost limit points stored broken e =
      with_quota-Charged owner_id cost limit no_headers stored e

  for_owner-Charged :
      (owner_id cost limit : ℕ) (stored : Option ℕ) (rpm : Limit)
      → (plan owner_id).monthly_units ≡ finite limit
      → Charged owner_id cost limit stored (
          for_owner cal limiters plan logs email_configured handle
            (λ r. r)
            now
            owner_id
            cost
            (up stored)
            rpm)
  unfolding for_owner
  for_owner-Charged owner_id cost limit stored infinite e =
      with_quota-Charged owner_id cost limit
        (record no_headers { rate_limit = some infinite; rate_remaining = some infinite }) stored e
  for_owner-Charged owner_id cost limit stored (finite points) e =
      after_owner_limiter-Charged owner_id cost limit points stored _ e

  -- An owner's request with a finite month, while Redis answers and no other request touches the
  -- counter, ends in one of three ways. Its cost fits under the limit, it is handled, and the counter
  -- is the lifted units and its final cost. Or its cost does not fit, it is not handled, and the
  -- counter is the lifted units. Or a request limiter refuses it and the counter stays.
  pub rate_limit_middleware-Charged :
      (client_ip : String) (owner_id cost limit : ℕ) (stored : Option ℕ)
      → (plan owner_id).monthly_units ≡ finite limit
      → Charged owner_id cost limit stored (
          rate_limit_middleware cal limiters plan logs email_configured handle
            (λ r. r)
            now
            (record { client_ip = client_ip; owner_id = some owner_id; cost = cost })
            (up stored))
  unfolding rate_limit_middleware
  rate_limit_middleware-Charged client_ip owner_id cost limit stored e =
      elim (Bool-cases (limiters.blocked client_ip)) [
        | inl b ↦ rw b (inr (inr (refl, refl)))
        | inr b ↦ rw b (for_owner-Charged owner_id cost limit stored _ e)
      ]

-- A request that is handled for at most its estimated cost is logged with the cost that stays charged
-- in the counter, whatever its outcome.
pub usage_log_cost-eq-final_cost :
    (cost endpoint_cost units : ℕ) (h : Handled)
    → h.request_cost ≡ some units
    → units ≤ cost
    → usage_log_cost endpoint_cost h ≡ final_cost cost h
unfolding usage_log_cost logged_status final_cost is_billable is_successful
usage_log_cost-eq-final_cost cost endpoint_cost units h e p = ground arith

-- The durable units leave out what is charged for a failure: a failed request that handlers mark as
-- charged keeps its units in the counter and is logged with them, and the sum over the logs, from
-- which the counter is lifted once the key is lost, is the same without it.
pub charged_failure-not_durable :
    (cal : Calendar) (owner_id start timestamp profile_id cost endpoint_cost units : ℕ)
    (h : Handled) (logs : List UsageLog)
    → is_successful h ≡ false
    → h.charge_usage_on_failure ≡ true
    → h.billable_usage ≡ true
    → h.request_cost ≡ some units
    → let log : UsageLog = record {
      profile_id = profile_id;
      timestamp = timestamp;
      status_code = logged_status h;
      cost = usage_log_cost endpoint_cost h;
    } in
      (final_cost cost h ≡ min cost units)
      × (log.cost ≡ units)
      × (get_monthly_usage_units cal owner_id start (log ∷ logs)
          ≡ get_monthly_usage_units cal owner_id start logs)
unfolding get_monthly_usage_units sum_where final_cost is_billable usage_log_cost is_successful
    logged_status
charged_failure-not_durable cal owner_id start timestamp profile_id cost endpoint_cost units h logs
      f c b u =
    (ground arith, ground arith, ground arith)
