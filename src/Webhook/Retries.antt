-- ===== src/Webhook/Retries.antt =====
-- apps/api/src/domains/billing/webhook-inbox.ts: how often a delivery that cannot be applied is tried.
use planisfy.Common.{
  ℕ, suc, zero, ◌+◌, ◌≤◌, ◌<◌, String, ◌≡◌, ◌⊎◌, inl, inr, true, false, arith, Bool-cases, leb,
}
use planisfy.Webhook.{
  WebhookEvent, pending, failed, due_where, claim_row, fail_row, dodo_webhook_failure_transition,
  webhook_retry_delays_ms, delay_at,
}

-- The row after `n` runs that claimed it when it was due, at any times, and failed to apply it: the
-- claim's statement, and the statement of the `catch` block with the attempts that the claim returned.
pub data Tried (start : WebhookEvent) : ℕ → WebhookEvent → Type 0 where
  untried : Tried start 0 start
  again :
      {n : ℕ} {e : WebhookEvent} (now at : ℕ) (message : String)
      → Tried start n e
      → due_where now e ≡ true
      → Tried start (suc n) (fail_row (claim_row now e).attempts message at (claim_row now e))

-- What is known of a delivery after `n` failed tries.
pub record IsTried (n : ℕ) (e : WebhookEvent) : Type 0 where
  pub counted : e.attempts ≡ n
  pub outcome : (n < 8) × (e.status ≡ pending) ⊎ (n ≡ 8) × (e.status ≡ failed)

fail_row-IsTried :
    (n now at : ℕ) (message : String) (e : WebhookEvent)
    → e.attempts ≡ n
    → n < 8
    → IsTried (suc n) (fail_row (claim_row now e).attempts message at (claim_row now e))
unfolding claim_row dodo_webhook_failure_transition
fail_row-IsTried n now at message e c h = record {
  counted = omega arith;
  outcome = elim (Bool-cases (leb 8 (e.attempts + 1))) [
    | inl t ↦ inr (ground arith, rw t)
    | inr f ↦ inl (ground arith, rw f)
  ];
}

not_due_when_failed : (now : ℕ) (e : WebhookEvent) → e.status ≡ failed → due_where now e ≡ false
not_due_when_failed now e h = rw h

-- A delivery that starts PENDING and untried, and whose application fails whenever it is tried, has
-- counted its failed tries; it is PENDING again after fewer than eight and FAILED after the eighth,
-- so that a ninth never comes.
pub Tried-IsTried :
    (start : WebhookEvent) {n : ℕ} {e : WebhookEvent}
    → start.attempts ≡ 0
    → start.status ≡ pending
    → Tried start n e
    → IsTried n e
Tried-IsTried start a p untried = record { counted = a; outcome = inl (omega arith, p) }
Tried-IsTried start a p (again {n} {e} now at message t due) = next (Tried-IsTried start a p t)
  where
    next :
        IsTried n e
        → IsTried (suc n) (fail_row (claim_row now e).attempts message at (claim_row now e))
    next h = elim h.outcome [
      | inl (below, waits) ↦ fail_row-IsTried n now at message e h.counted below
      | inr (all_, dead) ↦ cc (not_due_when_failed now e dead)
    ]

due_when_pending : (e : WebhookEvent) → e.status ≡ pending → due_where e.next_attempt_at e ≡ true
due_when_pending e p = rw p (ground arith)

-- The row after `n` tries, each of which claims it at its next attempt's time, and ends at the given
-- time with the given message.
unfoldable pub failing_run : WebhookEvent → (at : ℕ → ℕ) (message : ℕ → String) → ℕ → WebhookEvent
failing_run start at message zero = start
failing_run start at message (suc n) =
    let e = failing_run start at message n in
    let claimed = claim_row e.next_attempt_at e in
    fail_row claimed.attempts (message n) (at n) claimed

-- For a delivery that is PENDING and untried, and whatever the messages and whenever the tries end:
-- a worker that claims it at its next attempt's time finds it due each time, up to the eighth try,
-- after which the row is FAILED with eight attempts.
pub Tried-reached :
    (start : WebhookEvent) (at : ℕ → ℕ) (message : ℕ → String)
    → start.attempts ≡ 0
    → start.status ≡ pending
    → ((n : ℕ) → n ≤ 8 → Tried start n (failing_run start at message n))
      × ((failing_run start at message 8).attempts ≡ 8)
      × ((failing_run start at message 8).status ≡ failed)
unfolding failing_run
Tried-reached start at message a p =
    let last = Tried-IsTried start a p (tries 8 (omega arith)) in
    (
      tries,
      last.counted,
      elim last.outcome [ inl (below, waits) ↦ absurd (omega arith) | inr (all_, dead) ↦ dead ],
    )
  where
    tries : (n : ℕ) → n ≤ 8 → Tried start n (failing_run start at message n)
    tries zero h = untried
    tries (suc n) h =
        let e = failing_run start at message n in
        let t = tries n (omega arith) in
        elim ((Tried-IsTried start a p t).outcome) [
          | inl (below, waits) ↦
              again e.next_attempt_at (at n) (message n) t (due_when_pending e waits)
          | inr (all_, dead) ↦ absurd (omega arith)
        ]

-- After its n-th try has failed, for n from 1 to 7, a delivery is not due before the n-th delay is
-- over, and due from then on.
pub fail_row-waits :
    (n now at at' : ℕ) (message : String) (e : WebhookEvent)
    → e.attempts + 1 ≡ n
    → n < 8
    → due_where at' (fail_row (claim_row now e).attempts message at (claim_row now e))
      ≡ leb (at + delay_at webhook_retry_delays_ms n) at'
unfolding claim_row dodo_webhook_failure_transition
fail_row-waits n now at at' message e c h = ground arith
