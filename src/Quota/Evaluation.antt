-- ===== src/Quota/Evaluation.antt =====
-- apps/api/src/domains/usage/usage-quota.ts: the decision on a month's quota and its warning.
use native.Mathlib.Nat.{le-div_iff_mul-le}
use planisfy.Common.{
  ℕ, ◌+◌, ◌-◌, ◌*◌, ◌/◌, ◌≤◌, ◌<◌, min, max, ◌≡◌, refl, ap, ◌↔◌, ◌⊎◌, inl, inr, true, false, not,
  ◌||◌, arith, Bool-cases, is_some, ltb, leb, ◌==◌,
}
use planisfy.Quota.{
  Limit, finite, infinite, percent, rounded_percent, QuotaEvaluation, evaluate_monthly_quota,
  Calendar, build_quota_warning_request, warning_of,
}

-- A finite quota that allows a request, and one that refuses it.
abbrev pub Allows : ℕ → ℕ → QuotaEvaluation → Type 0
Allows projected limit q =
    (q.allowed ≡ true)
    × (projected ≤ limit)
    × (q.remaining ≡ finite (limit - projected))
    × (rounded_percent projected limit ≡ q.percent_used)

abbrev pub Refuses : ℕ → ℕ → QuotaEvaluation → Type 0
Refuses projected limit q =
    (q.allowed ≡ false)
    × (limit < projected)
    × (q.remaining ≡ finite 0)
    × (q.percent_used ≡ percent 100)

full_percent :
    (projected limit : ℕ) → limit < projected → rounded_percent projected limit ≡ percent 100
full_percent projected limit h = elim (Bool-cases (limit == 0)) [
  | inl zero_ ↦ rw zero_ (ground arith)
  | inr some_ ↦
      let most : 100 ≤ (200 * projected + limit) / (2 * limit) =
        (le-div_iff_mul-le {k = 2 * limit} {x = 100} {y = 200 * projected + limit} (ground arith)).1
          (omega arith) in
      rw some_ (ap percent (omega arith))
]

zero_max : (n : ℕ) → max 0 n ≡ n
zero_max n = omega arith

-- A finite limit allows a request exactly when the units used and its cost fit into it together; the
-- evaluation then shows what is left, and otherwise shows nothing left and 100 percent.
pub evaluate_monthly_quota_finite :
    (used cost limit : ℕ)
    → let q = evaluate_monthly_quota used cost (finite limit) in
      (q.used ≡ used)
      × (q.projected ≡ used + cost)
      × (Allows (used + cost) limit q ⊎ Refuses (used + cost) limit q)
unfolding evaluate_monthly_quota
evaluate_monthly_quota_finite used cost limit = simp zero_max (
  refl,
  refl,
  elim (Bool-cases (leb (used + cost) limit)) [
    | inl e ↦ inl (e, ground arith, refl, refl)
    | inr e ↦
        let over : limit < used + cost = ground arith in
        inr (e, over, ap finite (omega arith), full_percent (used + cost) limit over)
  ],
)

eighty_iff :
    (used total : ℕ)
    → 0 < total
    → (80 ≤ (200 * used + total) / (2 * total)) ↔ (159 * total ≤ 200 * used)
eighty_iff used total h =
    let f = le-div_iff_mul-le {k = 2 * total} {x = 80} {y = 200 * used + total} (omega arith) in
    (λ e. omega (arith, f.0 e), λ e. f.1 (omega arith))

percent_below :
    (used total : ℕ)
    → 0 < total
    → (ltb (min 100 ((200 * used + total) / (2 * total))) 80 ≡ false) ↔ (159 * total ≤ 200 * used)
percent_below used total h =
    let (to, from) = eighty_iff used total h in
    (λ e. to (ground arith), λ e. let most = from e in ground arith)

warning_of-is_some :
    (cal : Calendar) (account_id used billable total now : ℕ)
    → 0 < billable
    → 0 < total
    → is_some (build_quota_warning_request cal account_id used billable (finite total) now)
      ≡ not (ltb (min 100 ((200 * (used + billable) + total) / (2 * total))) 80)
unfolding build_quota_warning_request warning_of
warning_of-is_some cal account_id used billable total now b t =
    let b' : leb billable 0 ≡ false = ground arith in
    let t' : leb total 0 ≡ false = ground arith in
    let t'' : (total == 0) ≡ false = ground arith in
    simp (b', t', t'', zero_max)
      (elim (Bool-cases (ltb (min 100 ((200 * (used + billable) + total) / (2 * total))) 80)) [
        | inl e ↦ rw e
        | inr e ↦ rw e
      ])

no_warning :
    (cal : Calendar) (account_id used billable total now : ℕ)
    → leb billable 0 || leb total 0 ≡ true
    → is_some (build_quota_warning_request cal account_id used billable (finite total) now) ≡ false
unfolding build_quota_warning_request
no_warning cal account_id used billable total now h = elim (Bool-cases (leb billable 0)) [
  | inl e ↦ rw e
  | inr e ↦ rw (e, rw e at h)
]

-- A warning is asked for exactly when the request was billed, the limit is finite and positive, and
-- the units used with this request are at least 159 of 200 parts of the limit: the rounded
-- percentage reaches 80 from 79.5 on.
pub build_quota_warning_request_iff :
    (cal : Calendar) (account_id used billable : ℕ) (limit : Limit) (now : ℕ)
    → (is_some (build_quota_warning_request cal account_id used billable limit now) ≡ true) ↔ (
        (0 < billable)
        × ((total : ℕ) × (limit ≡ finite total)
            × (0 < total)
            × (159 * total ≤ 200 * (used + billable))))
unfolding build_quota_warning_request warning_of
build_quota_warning_request_iff cal account_id used billable infinite now =
    (λ e. cc, λ h. let e : infinite ≡ finite h.1.0 = h.1.1 in cc)
build_quota_warning_request_iff cal account_id used billable (finite total) now =
    elim (Bool-cases (leb billable 0 || leb total 0)) [
      | inl out ↦
          let off = no_warning cal account_id used billable total now out in
          (
            λ e. cc,
            λ h.
                let b : 0 < billable = h.0 in
                let e : finite total ≡ finite h.1.0 = h.1.1 in
                let e' : total ≡ h.1.0 = cc in let t : 0 < h.1.0 = h.1.2 in absurd (ground arith),
          )
      | inr within ↦
          let b : 0 < billable = ground arith in
          let t : 0 < total = ground arith in
          let (to, from) = percent_below (used + billable) total t in
          rw (warning_of-is_some cal account_id used billable total now b t) (
            λ e. (b, (total, refl, t, to (ground arith))),
            λ h.
                let e : finite total ≡ finite h.1.0 = h.1.1 in
                let e' : total ≡ h.1.0 = cc in let low = from (rw e' (h.1.3)) in rw low,
          )
    ]
