-- ===== src/RateLimit/Decision.antt =====
-- apps/api/src/middleware/rate-limit.ts: which requests the limiters stop, and what they do when their
-- store fails.
use planisfy.Common.{
  ℕ, String, ◌≡◌, ◌≢◌, refl, subst, ◌↔◌, inl, inr, Bool, true, false, Option, none, some, List,
  Bool-cases,
}
use planisfy.Quota.{
  Limit, finite, infinite, Calendar, UsageLog, Redis, down, check_monthly_usage_quota,
  reserve_monthly_quota,
}
use planisfy.RateLimit.{
  Limiters, Consumed, passed, limited, broken, anonymous, owner, Request, PlanLimits, Handled,
  Headers, rate_limited, handled, Run, anonymous_public_rpm, normalize_requests_per_minute,
  passed_headers, no_headers, with_quota, after_owner_limiter, for_owner, unquoted, for_anonymous,
  rate_limit_middleware,
}

abbrev pub Limits : Consumed → Type 0
Limits answer = (ms : ℕ) × (answer ≡ limited ms)

-- The requests that a limiter stops: one whose client the block limiter rejects, blocked or because
-- its store fails; an anonymous one over the public limit; an owner over the plan's requests per
-- minute.
pub data Stopped (limiters : Limiters) (plan : ℕ → PlanLimits) (request : Request) : Type 0 where
  blocked : limiters.blocked request.client_ip ≡ true → Stopped limiters plan request
  anonymous_over :
      request.owner_id ≡ none
      → Limits (limiters.consume anonymous_public_rpm (anonymous request.client_ip) request.cost)
      → Stopped limiters plan request
  owner_over :
      (owner_id points : ℕ)
      → request.owner_id ≡ some owner_id
      → normalize_requests_per_minute (plan owner_id).requests_per_minute ≡ finite points
      → Limits (limiters.consume points (owner owner_id) request.cost)
      → Stopped limiters plan request

module _ {limiters : Limiters} {plan : ℕ → PlanLimits} {request : Request}
    (free : limiters.blocked request.client_ip ≡ false) where
  Stopped-anonymous :
      request.owner_id ≡ none
      → Stopped limiters plan request
      → Limits (limiters.consume anonymous_public_rpm (anonymous request.client_ip) request.cost)
  Stopped-anonymous e (blocked b) = cc
  Stopped-anonymous e (anonymous_over e' l) = l
  Stopped-anonymous e (owner_over o points e' r l) = cc

  Stopped-owner :
      (owner_id : ℕ)
      → request.owner_id ≡ some owner_id
      → Stopped limiters plan request
      → (points : ℕ) × (normalize_requests_per_minute (plan owner_id).requests_per_minute
          ≡ finite points)
        × Limits (limiters.consume points (owner owner_id) request.cost)
  Stopped-owner owner_id e (blocked b) = cc
  Stopped-owner owner_id e (anonymous_over e' l) = cc
  Stopped-owner owner_id e (owner_over o points e' r l) =
      let same : o ≡ owner_id = cc in
      (
        points,
        subst
            (λ (i : ℕ). normalize_requests_per_minute (plan i).requests_per_minute ≡ finite points)
            same r,
        subst (λ (i : ℕ). Limits (limiters.consume points (owner i) request.cost)) same l,
      )

module _ (cal : Calendar) (limiters : Limiters) (plan : ℕ → PlanLimits) (logs : List UsageLog)
    (email_configured : Bool) (handle : Handled) (meanwhile : Redis → Redis) (now : ℕ) where
  abbrev quota_run : ℕ → ℕ → Headers → Redis → Run
  quota_run = with_quota cal limiters plan logs email_configured handle meanwhile now

  with_quota-not_limited :
      (owner_id cost : ℕ) (headers : Headers) (redis : Redis)
      → (quota_run owner_id cost headers redis).response ≢ rate_limited
  unfolding with_quota
  with_quota-not_limited owner_id cost headers redis =
      elim (Bool-cases
        (reserve_monthly_quota cal owner_id cost (plan owner_id).monthly_units now logs
          redis).0.quota.allowed) [ inl e ↦ rw e (λ h. cc) | inr e ↦ rw e (λ h. cc) ]

  owner-limited :
      (owner_id cost points : ℕ) (redis : Redis) (answer : Consumed)
      → ((after_owner_limiter cal limiters plan logs email_configured handle meanwhile now owner_id
            cost points redis answer).response
          ≡ rate_limited)
        ↔ Limits answer
  unfolding after_owner_limiter
  owner-limited owner_id cost points redis (passed remaining ms) = (
    λ h.
        absurd
          (with_quota-not_limited owner_id cost (passed_headers points remaining ms now) redis h),
    λ l. let e : passed remaining ms ≡ limited l.0 = l.1 in cc,
  )
  owner-limited owner_id cost points redis (limited ms) = (λ h. (ms, refl), λ l. refl)
  owner-limited owner_id cost points redis broken = (
    λ h. absurd (with_quota-not_limited owner_id cost no_headers redis h),
    λ l. let e : broken ≡ limited l.0 = l.1 in cc,
  )

  anonymous-limited :
      (redis : Redis) (answer : Consumed)
      → ((for_anonymous cal limiters plan logs email_configured handle meanwhile now redis
            answer).response
          ≡ rate_limited)
        ↔ Limits answer
  unfolding for_anonymous unquoted
  anonymous-limited redis (passed remaining ms) =
      (λ h. cc, λ l. let e : passed remaining ms ≡ limited l.0 = l.1 in cc)
  anonymous-limited redis (limited ms) = (λ h. (ms, refl), λ l. refl)
  anonymous-limited redis broken = (λ h. cc, λ l. let e : broken ≡ limited l.0 = l.1 in cc)

  for_owner-limited :
      (owner_id cost : ℕ) (redis : Redis) (rpm : Limit)
      → ((for_owner cal limiters plan logs email_configured handle meanwhile now owner_id cost redis
            rpm).response
          ≡ rate_limited)
        ↔ ((points : ℕ) × (rpm ≡ finite points)
            × Limits (limiters.consume points (owner owner_id) cost))
  unfolding for_owner
  for_owner-limited owner_id cost redis infinite = (
    λ h. absurd (
        with_quota-not_limited owner_id cost
          (record no_headers { rate_limit = some infinite; rate_remaining = some infinite }) redis
          h),
    λ l. let e : infinite ≡ finite l.0 = l.1 in cc,
  )
  for_owner-limited owner_id cost redis (finite points) =
      let (to, from) =
        owner-limited owner_id cost points redis (limiters.consume points (owner owner_id) cost) in
      (
        λ h. (points, refl, to h),
        λ l.
            let e : finite points ≡ finite l.0 = l.1 in
            let same : l.0 ≡ points = cc in
            from (subst (λ (n : ℕ). Limits (limiters.consume n (owner owner_id) cost)) same (l.2)),
      )

  -- A request is answered with RATE_LIMITED exactly when the block limiter rejects its client, for
  -- whatever reason, or when the request limiter that the client, without an owner, or the owner with a
  -- finite plan comes to answers that the limit is exceeded.
  pub rate_limited_iff :
      (client_ip : String) (owner_id : Option ℕ) (cost : ℕ) (redis : Redis)
      → let request : Request = record {
        client_ip = client_ip;
        owner_id = owner_id;
        cost = cost;
      } in
        ((rate_limit_middleware cal limiters plan logs email_configured handle meanwhile now request
            redis).response
          ≡ rate_limited)
        ↔ Stopped limiters plan request
  unfolding rate_limit_middleware
  rate_limited_iff client_ip none cost redis = elim (Bool-cases (limiters.blocked client_ip)) [
    | inl b ↦ rw b (λ h. blocked b, λ s. refl)
    | inr b ↦
        let (to, from) =
          anonymous-limited redis
            (limiters.consume anonymous_public_rpm (anonymous client_ip) cost) in
        rw b (λ h. anonymous_over refl (to h), λ s. from (Stopped-anonymous b refl s))
  ]
  rate_limited_iff client_ip (some owner_id) cost redis =
      elim (Bool-cases (limiters.blocked client_ip)) [
        | inl b ↦ rw b (λ h. blocked b, λ s. refl)
        | inr b ↦
            let (to, from) =
              for_owner-limited owner_id cost redis
                (normalize_requests_per_minute (plan owner_id).requests_per_minute) in
            rw b (
              λ h. let l = to h in owner_over owner_id (l.0) refl (l.1) (l.2),
              λ s. from (Stopped-owner b owner_id refl s),
            )
      ]

  -- With Redis out of reach a finite month is decided by the durable units alone, and nothing is
  -- reserved or given back.
  pub with_quota_down :
      (owner_id cost limit : ℕ) (headers : Headers)
      → (plan owner_id).monthly_units ≡ finite limit
      → ((quota_run owner_id cost headers down).response ≡ handled handle)
        ↔ ((check_monthly_usage_quota cal owner_id cost (finite limit) now logs).allowed ≡ true)
  unfolding with_quota reserve_monthly_quota
  with_quota_down owner_id cost limit headers e =
      elim (Bool-cases
        (check_monthly_usage_quota cal owner_id cost (finite limit) now logs).allowed) [
          | inl a ↦ rw (e, a) (λ h. refl, λ h. refl)
          | inr a ↦ rw (e, a) (λ h. cc, λ h. cc)
        ]
