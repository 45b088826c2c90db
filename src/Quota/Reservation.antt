-- ===== src/Quota/Reservation.antt =====
-- apps/api/src/middleware/rate-limit.ts: the reservation of a month's units in Redis.
use planisfy.Common.{
  ℕ, ◌+◌, ◌-◌, ◌≤◌, ◌<◌, max, ◌≡◌, refl, ◌⊎◌, inl, inr, true, false, Option, none, some, List, [],
  ◌∷◌, arith, Bool-cases, or_else, ltb,
}
use planisfy.Quota.{
  finite, QuotaEvaluation, evaluate_monthly_quota, Calendar, UsageLog, quota_reservation_script,
  quota_release_script, parse_quota_reservation, up, reserved_of, reserve_monthly_quota,
  get_monthly_usage_units, get_monthly_usage_period,
}

abbrev pub counter : Option ℕ → ℕ
counter stored = or_else stored 0

-- What the script does to the key, by its first reply: the units lifted to the baseline, and the cost
-- added if it fits under the limit.
script_cases :
    (baseline cost limit : ℕ) (stored : Option ℕ)
    → let (reply, stored') = quota_reservation_script baseline cost limit stored in
      let lifted = max (counter stored) baseline in
      (lifted + cost ≤ limit)
        × (reply ≡ 1 ∷ lifted ∷ (lifted + cost) ∷ [])
        × (counter stored' ≡ lifted + cost)
      ⊎ (limit < lifted + cost)
        × (reply ≡ 0 ∷ lifted ∷ (lifted + cost) ∷ [])
        × (counter stored' ≡ lifted)
unfolding quota_reservation_script
script_cases baseline cost limit none = elim (Bool-cases (ltb 0 baseline)) [
  | inl e ↦
      let m : max 0 baseline ≡ baseline = ground arith in
      rw m (elim (Bool-cases (ltb limit (baseline + cost))) [
        | inl o ↦ inr (ground arith, rw (e, o), rw (e, o))
        | inr o ↦ inl (ground arith, rw (e, o), rw (e, o))
      ])
  | inr e ↦
      let m : max 0 baseline ≡ 0 = ground arith in
      rw m (elim (Bool-cases (ltb limit (0 + cost))) [
        | inl o ↦ inr (ground arith, rw (e, o), rw (e, o))
        | inr o ↦ inl (ground arith, rw (e, o), rw (e, o))
      ])
]
script_cases baseline cost limit (some n) = elim (Bool-cases (ltb n baseline)) [
  | inl e ↦
      let m : max n baseline ≡ baseline = ground arith in
      rw m (elim (Bool-cases (ltb limit (baseline + cost))) [
        | inl o ↦ inr (ground arith, rw (e, o), rw (e, o))
        | inr o ↦ inl (ground arith, rw (e, o), rw (e, o))
      ])
  | inr e ↦
      let m : max n baseline ≡ n = ground arith in
      rw m (elim (Bool-cases (ltb limit (n + cost))) [
        | inl o ↦ inr (ground arith, rw (e, o), rw (e, o))
        | inr o ↦ inl (ground arith, rw (e, o), rw (e, o))
      ])
]

-- One owner's month: the key in Redis, and the units that are reserved and not given back.
pub record Meter : Type 0 where
  pub stored : Option ℕ
  pub held : ℕ

-- What the requests of all servers do to the key, in the order in which Redis runs the scripts: a
-- reservation over the durable units of that moment, or the return of units of one that was granted.
pub data Move (limit : ℕ) : Meter → Meter → Type 0 where
  granted :
      (m : Meter) (baseline cost used projected : ℕ) (stored : Option ℕ)
      → quota_reservation_script baseline cost limit m.stored ≡ (1 ∷ used ∷ projected ∷ [], stored)
      → Move limit m (record { stored = stored; held = m.held + cost })
  refused :
      (m : Meter) (baseline cost used projected : ℕ) (stored : Option ℕ)
      → quota_reservation_script baseline cost limit m.stored ≡ (0 ∷ used ∷ projected ∷ [], stored)
      → Move limit m (record { stored = stored; held = m.held })
  returned :
      (m : Meter) (units : ℕ)
      → units ≤ m.held
      → Move limit m
          (record { stored = quota_release_script units m.stored; held = m.held - units })

pub data Moves (limit : ℕ) (m : Meter) : Meter → Type 0 where
  here : Moves limit m m
  next : {n k : Meter} → Moves limit m n → Move limit n k → Moves limit m k

-- The key covers what is held, and no more is held than the limit.
pub record IsCovered (limit : ℕ) (m : Meter) : Type 0 where
  pub covered : m.held ≤ counter m.stored
  pub within : m.held ≤ limit

release-covered :
    (stored : Option ℕ) (units held : ℕ)
    → held ≤ counter stored
    → held - units ≤ counter (quota_release_script units stored)
unfolding quota_release_script
release-covered stored units held h = omega arith

Move-IsCovered : {limit : ℕ} {m n : Meter} → Move limit m n → IsCovered limit m → IsCovered limit n
Move-IsCovered {limit} (granted m baseline cost used projected stored e) c =
    elim (script_cases baseline cost limit m.stored) [
      | inl (fits, reply, count) ↦
          let now_stored : counter stored ≡ max (counter m.stored) baseline + cost =
            rw e at count in
          record { covered = omega arith; within = omega arith }
      | inr (over, reply, count) ↦
          let same : 1 ∷ used ∷ projected ∷ []
              ≡ 0
                ∷ max (counter m.stored) baseline
                ∷ (max (counter m.stored) baseline + cost)
                ∷ [] =
            rw e at reply in
          absurd (ground arith)
    ]
Move-IsCovered {limit} (refused m baseline cost used projected stored e) c =
    elim (script_cases baseline cost limit m.stored) [
      | inl (fits, reply, count) ↦
          let same : 0 ∷ used ∷ projected ∷ []
              ≡ 1
                ∷ max (counter m.stored) baseline
                ∷ (max (counter m.stored) baseline + cost)
                ∷ [] =
            rw e at reply in
          absurd (ground arith)
      | inr (over, reply, count) ↦
          let now_stored : counter stored ≡ max (counter m.stored) baseline = rw e at count in
          record { covered = omega arith; within = c.within }
    ]
Move-IsCovered (returned m units h) c = record {
  covered = release-covered m.stored units m.held c.covered;
  within = omega (arith, c.within);
}

-- However the servers' reservations and returns interleave, whatever durable units each reservation
-- starts from, no more units are held at one time than the monthly limit, and Redis's counter is
-- never below what is held. The month begins with nothing held.
pub Moves-IsCovered : {limit : ℕ} {m n : Meter} → m.held ≡ 0 → Moves limit m n → IsCovered limit n
Moves-IsCovered empty here = record { covered = omega arith; within = omega arith }
Moves-IsCovered empty (next moves move) = Move-IsCovered move (Moves-IsCovered empty moves)

reserved_granted :
    (used cost limit projected : ℕ) (fallback : QuotaEvaluation)
    → used + cost ≤ limit
    → let r =
        reserved_of cost limit (parse_quota_reservation (1 ∷ used ∷ projected ∷ [])) fallback in
      (r.quota.used ≡ used) × (r.quota.allowed ≡ true) × (r.holds ≡ true)
unfolding reserved_of parse_quota_reservation evaluate_monthly_quota
reserved_granted used cost limit projected fallback h = (ground arith, ground arith, refl)

reserved_refused :
    (used cost limit projected : ℕ) (fallback : QuotaEvaluation)
    → let r =
        reserved_of cost limit (parse_quota_reservation (0 ∷ used ∷ projected ∷ [])) fallback in
      (r.quota.used ≡ used) × (r.quota.allowed ≡ false) × (r.holds ≡ false)
unfolding reserved_of parse_quota_reservation evaluate_monthly_quota
reserved_refused used cost limit projected fallback = (ground arith, refl, refl)

module _ (cal : Calendar) (owner_id cost limit now : ℕ) (logs : List UsageLog) where
  abbrev pub durable : ℕ
  durable = get_monthly_usage_units cal owner_id (get_monthly_usage_period cal now).start logs

  -- While Redis answers, a reservation is held exactly if the request is allowed, and it is allowed
  -- exactly if the counter, lifted to the durable units, and the cost fit under the limit; the counter
  -- ends up at the lifted units, with the cost added only if the request is allowed.
  pub reserve_monthly_quota_up :
      (stored : Option ℕ)
      → let (r, redis) =
          reserve_monthly_quota cal owner_id cost (finite limit) now logs (up stored) in
        let lifted = max (counter stored) durable in
        (stored' : Option ℕ) × (redis ≡ up stored')
        × (r.quota.used ≡ lifted)
        × ((lifted + cost ≤ limit)
              × (r.quota.allowed ≡ true)
              × (r.holds ≡ true)
              × (counter stored' ≡ lifted + cost)
            ⊎ (limit < lifted + cost)
              × (r.quota.allowed ≡ false)
              × (r.holds ≡ false)
              × (counter stored' ≡ lifted))
  unfolding reserve_monthly_quota
  reserve_monthly_quota_up stored = elim (script_cases durable cost limit stored) [
    | inl (fits, reply, count) ↦
        let (used, allowed, holds) =
          reserved_granted (max (counter stored) durable) cost limit _ _ fits in
        rw reply (_, refl, used, inl (fits, allowed, holds, count))
    | inr (over, reply, count) ↦
        let (used, allowed, holds) =
          reserved_refused (max (counter stored) durable) cost limit _ _ in
        rw reply (_, refl, used, inr (over, allowed, holds, count))
  ]
