-- ===== src/Quota/Tests.antt =====
-- Quotas at concrete inputs.
use planisfy.Common.{ℕ, ◌+◌, ◌*◌, ◌-◌, ◌/◌, ◌≡◌, refl, false, none, some, List, [], ◌∷◌, arith}
use planisfy.Quota.{
  finite, percent, rounded_percent, evaluate_monthly_quota, Calendar, UsageLog,
  get_monthly_usage_units, get_monthly_usage_period, check_monthly_usage_quota,
  quota_reservation_script, quota_release_script, parse_quota_reservation, down, up,
  reserve_monthly_quota,
}
use planisfy.Quota.Reservation.{
  Meter, granted, returned, Moves, here, next, IsCovered, Moves-IsCovered,
}

-- Months of 100 milliseconds, twelve to a year.
abbrev months : Calendar
months = record {
  utc_full_year = λ t. t / 1200;
  utc_month = λ t. t / 100 - 12 * (t / 1200);
  date_utc = λ y m. 1200 * y + 100 * m;
}

abbrev log : ℕ → ℕ → ℕ → UsageLog
log timestamp status_code cost = record {
  profile_id = 1;
  timestamp = timestamp;
  status_code = status_code;
  cost = cost;
}

abbrev month : List UsageLog
month = log 1210 200 30 ∷ log 1299 500 40 ∷ log 1300 200 5 ∷ log 1190 200 7 ∷ []

quota_tests :
    ((get_monthly_usage_period months 1250).end ≡ 1300)
    × (get_monthly_usage_units months 1 1200 month ≡ 30)
    × ((evaluate_monthly_quota 90 15 (finite 100)).allowed ≡ false)
    × (◌≡◌ {A = _} (rounded_percent 159 200) (percent 80))
    × ((reserve_monthly_quota months 1 10 (finite 100) 1250 month (up (some 4))).1 ≡ up (some 40))
    × ((reserve_monthly_quota months 1 71 (finite 100) 1250 month (up (some 4))).1 ≡ up (some 30))
    × ((reserve_monthly_quota months 1 71 (finite 100) 1250 month down).0.quota.allowed ≡ false)
unfolding evaluate_monthly_quota get_monthly_usage_units quota_reservation_script
    parse_quota_reservation reserve_monthly_quota check_monthly_usage_quota get_monthly_usage_period
quota_tests = (refl, refl, refl, refl, refl, refl, refl)

abbrev empty_month : Meter
empty_month = record { stored = none; held = 0 }

abbrev one_held : Meter
one_held = record { stored = some 40; held = 10 }

abbrev one_returned : Meter
one_returned = record { stored = quota_release_script 6 (some 40); held = 4 }

some-Moves : Moves 100 empty_month one_returned
unfolding quota_reservation_script
some-Moves =
    next (next here (granted empty_month 30 10 30 40 (some 40) refl))
      (returned one_held 6 (omega arith))

Moves-IsCovered_example : IsCovered 100 one_returned
Moves-IsCovered_example = Moves-IsCovered refl some-Moves
