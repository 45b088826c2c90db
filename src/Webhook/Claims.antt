-- ===== src/Webhook/Claims.antt =====
-- apps/api/src/domains/billing/webhook-inbox.ts: which events `processDueDodoWebhookEvents` claims,
-- what a lease excludes, and what a run leaves alone.
use mathlib.Core.List.{map}
use planisfy.Common.{
  ℕ, String, ◌≡◌, refl, ◌∙◌, ◌⊎◌, inl, inr, Bool, true, false, Option, List, [], ◌∷◌, ◌+◌, ◌<◌,
  ◌==◌, arith, length, or_else, ◌≤◌, none, some, leb→le, Option-cases, All, All-map, All-take,
  All-of_map, All-swap, Pointwise, Pointwise-refl, Pointwise-trans, Pointwise-map_with,
}
use planisfy.Common.Json.{Fields}
use planisfy.Common.Table.{
  update_where, update_where-All, update_where-Pointwise, select_where-All, select_where-All_of,
  order_by-All,
}
use planisfy.Common.Unique.{Unique, select_where-Unique}
use planisfy.Webhook.{
  WebhookStatus, pending, processing, processed, failed, lease_over, WebhookEvent, due_where,
  claimable_where, in_ids, select_due, claim_row, claim_where, claim, is_dodo_webhook_claim_due,
  Applied, applied, threw, finish_event, fail_event, Tally, attempt, settle, process_claimed,
  process_due, process_due_dodo_webhook_events, record_value, webhook_lease_ms,
}

abbrev pub same_id : WebhookEvent → WebhookEvent → Bool
same_id a b = a.id == b.id

same_id_comm : (a b : WebhookEvent) → same_id a b ≡ same_id b a
same_id_comm a b = ground arith

-- The exported test of one event decides the same as the condition of the query for due events.
pub is_dodo_webhook_claim_due-eq-due_where :
    (e : WebhookEvent) (now : ℕ) → is_dodo_webhook_claim_due e now ≡ due_where now e
unfolding is_dodo_webhook_claim_due
is_dodo_webhook_claim_due-eq-due_where e now = ground arith

module _ (ids : List ℕ) (now : ℕ) where
  leased_row :
      (now' : ℕ) (e : WebhookEvent)
      → now' < now + webhook_lease_ms
      → claimable_where now' (claim_row now e) ≡ false
  unfolding claim_row
  leased_row now' e h = ground arith

  claim_row-id : (e : WebhookEvent) → (claim_row now e).id ≡ e.id
  unfolding claim_row
  claim_row-id e = refl

  claim_where-claimable :
      (e : WebhookEvent) → claim_where ids now e ≡ true → claimable_where now e ≡ true
  unfolding claim_where
  claim_where-claimable e h = ground arith

  claim_where-in_ids : (e : WebhookEvent) → claim_where ids now e ≡ true → in_ids ids e.id ≡ true
  unfolding claim_where
  claim_where-in_ids e h = ground arith

  -- After a claim, a row with the id of a claimed one cannot be claimed while the lease runs.
  claim-excludes :
      (now' : ℕ) (events : List WebhookEvent) (c : WebhookEvent)
      → now' < now + webhook_lease_ms
      → All (λ e. (same_id e c ≡ false) ⊎ (claim_where ids now e ≡ true)) events
      → All
          (λ e. (same_id e c ≡ false) ⊎ (claimable_where now' e ≡ false))
          (update_where (claim_where ids now) (claim_row now) events)
  claim-excludes now' events c h =
      update_where-All (λ e. (same_id e c ≡ false) ⊎ (claim_where ids now e ≡ true))
        (λ e. (same_id e c ≡ false) ⊎ (claimable_where now' e ≡ false)) (claim_where ids now)
        (claim_row now) events (λ e k t. inr (leased_row now' e h))
        (λ e k f. elim k [ inl other ↦ inl other | inr t ↦ cc ])

second_claim-misses :
    (ids : List ℕ) (now : ℕ) (events : List WebhookEvent) (c : WebhookEvent)
    → All (λ e. (same_id e c ≡ false) ⊎ (claimable_where now e ≡ false)) events
    → All (λ d. same_id d c ≡ false) (claim ids now events).0
unfolding claim
second_claim-misses ids now events c a =
    All-of_map (λ d. same_id d c ≡ false) (claim_row now) _
      (select_where-All_of (λ e. (same_id e c ≡ false) ⊎ (claimable_where now e ≡ false))
        (λ e. same_id (claim_row now e) c ≡ false) (claim_where ids now) events
        (λ e k t. missed e k (claim_where-claimable ids now e t)) a)
  where
    missed :
        (e : WebhookEvent)
        → (same_id e c ≡ false) ⊎ (claimable_where now e ≡ false)
        → claimable_where now e ≡ true
        → same_id (claim_row now e) c ≡ false
    missed e (inl other) t = rw (claim_row-id ids now e) other
    missed e (inr free) t = cc

-- Two workers do not hold one event: what a second claim returns, over any ids and at any time
-- before the first lease is over, shares no id with what the first returned.
pub claim_exclusive :
    (ids ids' : List ℕ) (now now' : ℕ) (events : List WebhookEvent)
    → Unique same_id events
    → now' < now + webhook_lease_ms
    → All
        (λ c. All (λ d. same_id d c ≡ false) (claim ids' now' (claim ids now events).1).0)
        (claim ids now events).0
unfolding claim
claim_exclusive ids ids' now now' events u h =
    let after = update_where (claim_where ids now) (claim_row now) events in
    All-of_map (λ c. All (λ d. same_id d c ≡ false) (claim ids' now' after).0) (claim_row now) _
      (All-map (λ c. All (λ e. (same_id e c ≡ false) ⊎ (claim_where ids now e ≡ true)) events)
        (λ c. All (λ d. same_id d (claim_row now c) ≡ false) (claim ids' now' after).0) _
        (λ c k. second_claim-misses ids' now' after c (claim-excludes ids now now' events c h k))
        (select_where-Unique same_id (claim_where ids now) (λ e. claim_where ids now e ≡ true)
          (λ e t. t) same_id_comm events u))

-- A row that a run over claimed ids may have written, with its keys kept.
abbrev Touched : List ℕ → WebhookEvent → WebhookEvent → Type 0
Touched ids e e' =
    (e'.id ≡ e.id) × (e'.webhook_id ≡ e.webhook_id) × ((in_ids ids e.id ≡ true) ⊎ (e' ≡ e))

Touched-trans :
    (ids : List ℕ) (a b c : WebhookEvent) → Touched ids a b → Touched ids b c → Touched ids a c
Touched-trans ids a b c (i, w, inl t) (j, v, k) = (j ∙ i, v ∙ w, inl t)
Touched-trans ids a b c (i, w, inr e) (j, v, inl t) = (j ∙ i, v ∙ w, inl (rw (← i) t))
Touched-trans ids a b c (i, w, inr e) (j, v, inr f) = (j ∙ i, v ∙ w, inr (f ∙ e))

Touched-refl : (ids : List ℕ) (e : WebhookEvent) → Touched ids e e
Touched-refl ids e = (refl, refl, inr refl)

module _ (ids : List ℕ) (apply : Fields → String → Option ℕ → Applied) (clock : ℕ → ℕ) where
  settle-Touched :
      (c : WebhookEvent) (r : Applied) (t : Tally) (events : List WebhookEvent)
      → in_ids ids c.id ≡ true
      → Pointwise (Touched ids) events (settle apply clock c r (t, events)).1
  unfolding settle finish_event fail_event
  settle-Touched c (applied result) t events h =
      update_where-Pointwise (Touched ids) _ _ events (λ e k. (refl, refl, inl (ground arith)))
        (Touched-refl ids)
  settle-Touched c (threw message) t events h =
      update_where-Pointwise (Touched ids) _ _ events (λ e k. (refl, refl, inl (ground arith)))
        (Touched-refl ids)

  settle-counts :
      (c : WebhookEvent) (r : Applied) (t : Tally) (events : List WebhookEvent)
      → let t' = (settle apply clock c r (t, events)).0 in
        t'.processed + t'.failed ≡ t.processed + t.failed + 1
  unfolding settle
  settle-counts c (applied result) t events = omega arith
  settle-counts c (threw message) t events = omega arith

  process_claimed-Touched :
      (claimed : List WebhookEvent) (acc : Tally × List WebhookEvent)
      → All (λ c. in_ids ids c.id ≡ true) claimed
      → Pointwise (Touched ids) acc.1 (process_claimed apply clock claimed acc).1
  unfolding process_claimed
  process_claimed-Touched [] acc h = Pointwise-refl (Touched ids) acc.1 (Touched-refl ids)
  process_claimed-Touched (c ∷ claimed) acc (p, h) =
      let next = settle apply clock c (attempt apply clock c (record_value c.payload)) acc in
      Pointwise-trans (Touched ids) acc.1 next.1 (process_claimed apply clock claimed next).1
        (Touched-trans ids) (settle-Touched c _ acc.0 acc.1 p)
        (process_claimed-Touched claimed next h)

  process_claimed-counts :
      (claimed : List WebhookEvent) (acc : Tally × List WebhookEvent)
      → let t = (process_claimed apply clock claimed acc).0 in
        t.processed + t.failed ≡ length claimed + acc.0.processed + acc.0.failed
  unfolding process_claimed
  process_claimed-counts [] acc = omega arith
  process_claimed-counts (c ∷ claimed) acc =
      let next = settle apply clock c (attempt apply clock c (record_value c.payload)) acc in
      omega (
        arith,
        process_claimed-counts claimed next,
        settle-counts c (attempt apply clock c (record_value c.payload)) acc.0 acc.1,
      )

-- The rows whose id a list of due events has are due themselves.
in_ids-due :
    (now : ℕ) (e : WebhookEvent) (due : List WebhookEvent)
    → All (λ c. (same_id e c ≡ false) ⊎ (due_where now e ≡ true)) due
    → (in_ids (map (λ (c : WebhookEvent). c.id) due) e.id ≡ false) ⊎ (due_where now e ≡ true)
in_ids-due now e [] h = inl refl
in_ids-due now e (c ∷ due) (inr t, h) = inr t
in_ids-due now e (c ∷ due) (inl f, h) = elim (in_ids-due now e due h) [
  | inl g ↦ inl (rw (f, g))
  | inr t ↦ inr t
]

select_due-due :
    (now limit : ℕ) (events : List WebhookEvent)
    → Unique same_id events
    → let ids = map (λ (c : WebhookEvent). c.id) (select_due now limit events) in
      All (λ e. (in_ids ids e.id ≡ false) ⊎ (due_where now e ≡ true)) events
unfolding select_due
select_due-due now limit events u =
    let P =
      λ (c : WebhookEvent). All (λ e. (same_id e c ≡ false) ⊎ (due_where now e ≡ true)) events in
    let selected =
      select_where-Unique same_id (due_where now) (λ e. due_where now e ≡ true) (λ e t. t)
        same_id_comm events u in
    let due = All-take P limit _ (order_by-All P _ _ (order_by-All P _ _ selected)) in
    All-map (λ e. All (λ c. (same_id e c ≡ false) ⊎ (due_where now e ≡ true)) _)
      (λ e. (in_ids _ e.id ≡ false) ⊎ (due_where now e ≡ true)) events (λ e h. in_ids-due now e _ h)
      (All-swap (λ c e. (same_id e c ≡ false) ⊎ (due_where now e ≡ true)) _ events due)

-- An event that a worker may take.
pub data IsDue (now : ℕ) (e : WebhookEvent) : Type 0 where
  waiting : e.status ≡ pending → e.next_attempt_at ≤ now → IsDue now e
  unleased : e.status ≡ processing → e.lease_until ≡ none → IsDue now e
  lapsed : (t : ℕ) → e.status ≡ processing → e.lease_until ≡ some t → t ≤ now → IsDue now e

lease_over-IsDue :
    (now : ℕ) (e : WebhookEvent)
    → e.status ≡ processing
    → lease_over e.lease_until now ≡ true
    → IsDue now e
lease_over-IsDue now e s h = elim (Option-cases e.lease_until) [
  | inl n ↦ unleased s n
  | inr (t, k) ↦ lapsed t s k (leb→le t now (rw k at h))
]

due_where-IsDue : (now : ℕ) (e : WebhookEvent) → due_where now e ≡ true → IsDue now e
due_where-IsDue now e h = by_status e.status refl
  where
    by_status : (s : WebhookStatus) → e.status ≡ s → IsDue now e
    by_status pending k = waiting k (ground arith)
    by_status processing k = lease_over-IsDue now e k (ground arith)
    by_status processed k = cc (rw k at h)
    by_status failed k = cc (rw k at h)

module _ (apply : Fields → String → Option ℕ → Applied) (clock : ℕ → ℕ) where
  claim_row-Touched :
      (ids : List ℕ) (now : ℕ) (events : List WebhookEvent)
      → Pointwise (Touched ids) events (claim ids now events).1
  unfolding claim claim_row
  claim_row-Touched ids now events =
      update_where-Pointwise (Touched ids) (claim_where ids now) (claim_row now) events
        (λ e t. (refl, refl, inl (claim_where-in_ids ids now e t))) (Touched-refl ids)

  claimed-in_ids :
      (ids : List ℕ) (now : ℕ) (events : List WebhookEvent)
      → All (λ c. in_ids ids c.id ≡ true) (claim ids now events).0
  unfolding claim claim_row
  claimed-in_ids ids now events =
      All-of_map (λ c. in_ids ids c.id ≡ true) (claim_row now) _
        (select_where-All (λ c. in_ids ids c.id ≡ true) (claim_where ids now) events
          (claim_where-in_ids ids now))

  process_due-Touched :
      (now : ℕ) (events due : List WebhookEvent)
      → let ids = map (λ (c : WebhookEvent). c.id) due in
        let (n, t, events') = process_due apply clock now events due in
        (n ≡ t.processed + t.failed) × Pointwise (Touched ids) events events'
  unfolding process_due
  process_due-Touched now events [] =
      (omega arith, Pointwise-refl (Touched []) events (Touched-refl []))
  process_due-Touched now events (d ∷ due) =
      let ids = map (λ (c : WebhookEvent). c.id) (d ∷ due) in
      let acc : Tally × List WebhookEvent =
        (record { processed = 0; failed = 0 }, (claim ids now events).1) in
      (
        omega (arith, process_claimed-counts ids apply clock (claim ids now events).0 acc),
        Pointwise-trans (Touched ids) events (claim ids now events).1 _ (Touched-trans ids)
            (claim_row-Touched ids now events)
            (process_claimed-Touched ids apply clock (claim ids now events).0 acc
              (claimed-in_ids ids now events)),
      )

  -- A run counts every claimed event as processed or failed, keeps each row with its ids, and
  -- changes no row but those that are PENDING with their next attempt due, or PROCESSING with no lease
  -- or one that is over. The ids of the rows are distinct, and nobody else writes the table meanwhile.
  pub process_due-Touches :
      (now : ℕ) (limit : Option ℕ) (events : List WebhookEvent)
      → Unique same_id events
      → let (n, t, events') = process_due_dodo_webhook_events apply clock now limit events in
        (n ≡ t.processed + t.failed)
        × Pointwise
            (λ e e'. (e'.id ≡ e.id) × (e'.webhook_id ≡ e.webhook_id) × (IsDue now e ⊎ (e' ≡ e)))
            events
            events'
  unfolding process_due_dodo_webhook_events
  process_due-Touches now limit events u =
      let due = select_due now (or_else limit 25) events in
      let (count, rows) = process_due-Touched now events due in
      (
        count,
        Pointwise-map_with _ _ _ events _ (λ e e' k r. only_due due e e' k r)
            (select_due-due now (or_else limit 25) events u) rows,
      )
    where
      only_due :
          (due : List WebhookEvent) (e e' : WebhookEvent)
          → (in_ids (map (λ (c : WebhookEvent). c.id) due) e.id ≡ false) ⊎ (due_where now e ≡ true)
          → Touched (map (λ (c : WebhookEvent). c.id) due) e e'
          → (e'.id ≡ e.id) × (e'.webhook_id ≡ e.webhook_id) × (IsDue now e ⊎ (e' ≡ e))
      only_due due e e' (inl f) (i, w, inl t) = absurd (cc)
      only_due due e e' (inl f) (i, w, inr same) = (i, w, inr same)
      only_due due e e' (inr t) (i, w, k) = (i, w, inl (due_where-IsDue now e t))
