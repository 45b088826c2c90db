-- ===== src/Quota.antt =====
-- Monthly quotas: apps/api/src/domains/usage/usage-quota.ts and the two Redis scripts of
-- apps/api/src/middleware/rate-limit.ts. Units, costs and baselines are naturals (they are sums of
-- the costs of requests), a limit may be Infinity, and a quotient of numbers is exact before it is
-- rounded.
pub mod Evaluation
pub mod Reservation
mod Tests
use planisfy.Common.{
  ℕ, ◌+◌, ◌-◌, ◌*◌, ◌/◌, min, max, Bool, true, false, ◌&&◌, Option, none, some, List, [], ◌∷◌,
  if◌then◌else◌, ◌==◌, ltb, leb, or_else, is_some,
}

pub data Limit : Type 0 where
  finite : ℕ → Limit
  infinite : Limit

-- A rounded percentage; NaN comes from 0 of 0.
pub data Percent : Type 0 where
  percent : ℕ → Percent
  nan : Percent

-- `Math.min(100, Math.round((part / whole) * 100))`: the nearest integer, a half rounded up.
abbrev pub rounded_percent : ℕ → ℕ → Percent
rounded_percent part whole =
    if whole == 0
    then (if part == 0 then nan else percent 100)
    else percent (min 100 ((200 * part + whole) / (2 * whole)))

pub record QuotaEvaluation : Type 0 where
  pub allowed : Bool
  pub used : ℕ
  pub projected : ℕ
  pub limit : Limit
  pub remaining : Limit
  pub percent_used : Percent

unfoldable pub evaluate_monthly_quota : ℕ → ℕ → Limit → QuotaEvaluation
evaluate_monthly_quota used cost infinite = record {
  allowed = true;
  used = max 0 used;
  projected = max 0 used + max 0 cost;
  limit = infinite;
  remaining = infinite;
  percent_used = percent 0;
}
evaluate_monthly_quota used cost (finite limit) =
    let projected = max 0 used + max 0 cost in
    record {
      allowed = leb projected limit;
      used = max 0 used;
      projected = projected;
      limit = finite limit;
      remaining = finite (max 0 (limit - projected));
      percent_used = rounded_percent projected limit;
    }

-- What JavaScript's `Date` gives: the UTC year and month (from 0) of a time, and the time at which a
-- month begins, where month 12 is the January after.
pub record Calendar : Type 0 where
  pub utc_full_year : ℕ → ℕ
  pub utc_month : ℕ → ℕ
  pub date_utc : ℕ → ℕ → ℕ

-- The key is printed as the year and the month; here it is the pair.
pub record MonthlyUsagePeriod : Type 0 where
  pub start : ℕ
  pub end : ℕ
  pub key : ℕ × ℕ

unfoldable pub get_monthly_usage_period : Calendar → ℕ → MonthlyUsagePeriod
get_monthly_usage_period cal now =
    let start = cal.date_utc (cal.utc_full_year now) (cal.utc_month now) in
    record {
      start = start;
      end = cal.date_utc (cal.utc_full_year now) (cal.utc_month now + 1);
      key = (cal.utc_full_year start, cal.utc_month start + 1);
    }

-- A row of `usage_logs`, with the columns that the query reads.
pub record UsageLog : Type 0 where
  pub profile_id : ℕ
  pub timestamp : ℕ
  pub status_code : ℕ
  pub cost : ℕ

abbrev pub is_success : ℕ → Bool
is_success status = leb 200 status && ltb status 400

abbrev pub counts_for : ℕ → ℕ → ℕ → UsageLog → Bool
counts_for owner_id start end l =
    l.profile_id == owner_id
    && (leb start l.timestamp && (ltb l.timestamp end && is_success l.status_code))

unfoldable pub sum_where : (UsageLog → Bool) → List UsageLog → ℕ
sum_where p [] = 0
sum_where p (l ∷ logs) = (if p l then l.cost else 0) + sum_where p logs

-- The period ends with the month that its start lies in.
unfoldable pub get_monthly_usage_units : Calendar → ℕ → ℕ → List UsageLog → ℕ
unfolding sum_where get_monthly_usage_period
get_monthly_usage_units cal owner_id period_start logs =
    sum_where (counts_for owner_id period_start (get_monthly_usage_period cal period_start).end)
      logs

unfoldable pub check_monthly_usage_quota :
    Calendar → ℕ → ℕ → Limit → ℕ → List UsageLog → QuotaEvaluation
unfolding evaluate_monthly_quota get_monthly_usage_units get_monthly_usage_period
check_monthly_usage_quota cal owner_id cost limit now logs =
    let used = get_monthly_usage_units cal owner_id (get_monthly_usage_period cal now).start logs in
    evaluate_monthly_quota used cost limit

pub record QuotaWarning : Type 0 where
  pub account_id : ℕ
  pub period : MonthlyUsagePeriod
  pub used_units : ℕ
  pub total_units : ℕ
  pub percent_used : ℕ
  pub threshold : ℕ

-- `percentUsed < 80` is false of NaN, but NaN comes from a total of 0, which is refused before.
warning_of : (account_id used total : ℕ) → MonthlyUsagePeriod → Percent → Option QuotaWarning
warning_of account_id used total period nan = none
warning_of account_id used total period (percent p) =
    if ltb p 80
    then none
    else some (record {
      account_id = account_id;
      period = period;
      used_units = used;
      total_units = total;
      percent_used = p;
      threshold = 80;
    })

unfoldable pub build_quota_warning_request :
    Calendar → (account_id used_units billable_units : ℕ) → Limit → ℕ → Option QuotaWarning
unfolding warning_of get_monthly_usage_period
build_quota_warning_request cal account_id used_units billable_units infinite now = none
build_quota_warning_request cal account_id used_units billable_units (finite total) now =
    if leb billable_units 0
    then none
    else if leb total 0
    then none
    else (let used = max 0 (used_units + billable_units) in
        warning_of account_id used total (get_monthly_usage_period cal now)
          (rounded_percent used total))

-- `QUOTA_RESERVATION_SCRIPT`: the reply, and the value of the key afterwards. The key may be absent;
-- its time to live is renewed and not modelled.
unfoldable pub quota_reservation_script : (baseline cost limit : ℕ) → Option ℕ → List ℕ × Option ℕ
quota_reservation_script baseline cost limit stored =
    let current = or_else stored 0 in
    let lifted = ltb current baseline in
    let current' = if lifted then baseline else current in
    let stored' = if lifted then some baseline else stored in
    let projected = current' + cost in
    if ltb limit projected
    then (0 ∷ current' ∷ projected ∷ [], stored')
    else (1 ∷ current' ∷ projected ∷ [], some (or_else stored' 0 + cost))

-- `QUOTA_RELEASE_SCRIPT`
unfoldable pub quota_release_script : ℕ → Option ℕ → Option ℕ
quota_release_script cost stored = some (max 0 (or_else stored 0 - cost))

-- `parseQuotaReservation`, which throws (`none`) on a short array; the script's replies are arrays of
-- finite numbers.
unfoldable pub parse_quota_reservation : List ℕ → Option (ℕ × ℕ)
parse_quota_reservation [] = none
parse_quota_reservation (a ∷ []) = none
parse_quota_reservation (allowed ∷ used ∷ rest) = some (allowed, used)

-- Redis as one owner's key of the month: out of reach, or with the key's value.
pub data Redis : Type 0 where
  down : Redis
  up : Option ℕ → Redis

pub record Reserved : Type 0 where
  pub quota : QuotaEvaluation
  -- `reservationKey !== null`
  pub holds : Bool

-- The part of the `try` block behind the script's call; a throw goes to the `catch` block, `fallback`.
reserved_of : ℕ → ℕ → Option (ℕ × ℕ) → QuotaEvaluation → Reserved
reserved_of cost limit none fallback = record { quota = fallback; holds = false }
reserved_of cost limit (some (allowed_raw, used_raw)) fallback =
    let quota = evaluate_monthly_quota used_raw cost (finite limit) in
    record {
      quota = record quota { allowed = allowed_raw == 1 && quota.allowed };
      holds = allowed_raw == 1;
    }

-- `reserveMonthlyQuota`, with the month's logs as Postgres has them.
unfoldable pub reserve_monthly_quota :
    Calendar → (owner_id cost : ℕ) → Limit → ℕ → List UsageLog → Redis → Reserved × Redis
unfolding reserved_of evaluate_monthly_quota
reserve_monthly_quota cal owner_id cost infinite now logs redis =
    (record { quota = evaluate_monthly_quota 0 cost infinite; holds = false }, redis)
reserve_monthly_quota cal owner_id cost (finite limit) now logs down = (
  record {
    quota = check_monthly_usage_quota cal owner_id cost (finite limit) now logs;
    holds = false;
  },
  down,
)
reserve_monthly_quota cal owner_id cost (finite limit) now logs (up stored) =
    let durable_used =
      get_monthly_usage_units cal owner_id (get_monthly_usage_period cal now).start logs in
    let (reply, stored') = quota_reservation_script durable_used cost limit stored in
    (
      reserved_of cost limit (parse_quota_reservation reply)
          (check_monthly_usage_quota cal owner_id cost (finite limit) now logs),
      up stored',
    )

-- `releaseMonthlyQuota`; a failing call is swallowed.
unfoldable pub release_monthly_quota : Bool → ℕ → Redis → Redis
release_monthly_quota holds cost down = down
release_monthly_quota holds cost (up stored) =
    if holds && ltb 0 cost then up (quota_release_script cost stored) else up stored
