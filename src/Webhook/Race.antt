-- ===== src/Webhook/Race.antt =====
-- apps/api/src/domains/billing/webhook-inbox.ts: two workers on one event. The statement at the end
-- of the `try` block asks for the status PROCESSING; the one of the `catch` block does not.
use planisfy.Common.{
  ℕ, ◌<◌, String, ◌≡◌, refl, ◌⊎◌, inl, inr, true, false, List, [], ◌∷◌, arith, All, Pointwise,
  Bool-cases, ◌==◌,
}
use planisfy.Common.Json.{Json}
use planisfy.Common.Table.{update_where}
use planisfy.Webhook.{
  WebhookEvent, pending, processed, due_where, finish_event, fail_event, fail_row,
  dodo_webhook_failure_transition,
}

-- The row that another worker has settled, as the table holds it.
abbrev pub Settled : WebhookEvent → WebhookEvent → Type 0
Settled event e = (e.id == event.id ≡ false) ⊎ (e.status ≡ processed)

-- What a row becomes: another id and the row as it was, or a row that waits for its next try.
abbrev pub Reopened : WebhookEvent → WebhookEvent → WebhookEvent → Type 0
Reopened event e e' =
    (e.id == event.id ≡ false) × (e' ≡ e)
    ⊎ (e'.status ≡ pending)
      × (due_where e'.next_attempt_at e' ≡ true)
      × (e'.processed_at ≡ e.processed_at)

-- A late success leaves a row that another worker has settled as it is.
finish_event-Settled :
    (event : WebhookEvent) (result : Json) (now : ℕ) (events : List WebhookEvent)
    → All (Settled event) events
    → finish_event event result now events ≡ events
unfolding finish_event update_where
finish_event-Settled event result now [] h = refl
finish_event-Settled event result now (e ∷ events) (s, h) =
    ground (arith, finish_event-Settled event result now events h)

fail_row-Reopened :
    (event : WebhookEvent) (message : String) (now : ℕ) (e : WebhookEvent)
    → event.attempts < 8
    → ((fail_row event.attempts message now e).status ≡ pending)
      × (due_where
            (fail_row event.attempts message now e).next_attempt_at
            (fail_row event.attempts message now e)
          ≡ true)
unfolding dodo_webhook_failure_transition
fail_row-Reopened event message now e h = (ground arith, ground arith)

fail_event-Reopened :
    (event : WebhookEvent) (message : String) (now : ℕ) (events : List WebhookEvent)
    → event.attempts < 8
    → Pointwise (Reopened event) events (fail_event event message now events)
unfolding fail_event update_where
fail_event-Reopened event message now [] h = tt
fail_event-Reopened event message now (e ∷ events) h =
    let rest = fail_event-Reopened event message now events h in
    let (waits, due) = fail_row-Reopened event message now e h in
    elim (Bool-cases (e.id == event.id)) [
      | inl t ↦ rw t (inr (waits, due, refl), rest)
      | inr f ↦ rw f (inl (refl, refl), rest)
    ]

-- When the rows of an event's id are PROCESSED by now, a worker whose lease ran out and that succeeds
-- late changes nothing, but one that fails late, on a try before the eighth, turns the row back to
-- PENDING and due for another try, with the time at which it was processed kept.
pub late_worker :
    (event : WebhookEvent) (result : Json) (message : String) (now : ℕ) (events : List WebhookEvent)
    → All (Settled event) events
    → event.attempts < 8
    → (finish_event event result now events ≡ events)
      × Pointwise (Reopened event) events (fail_event event message now events)
late_worker event result message now events h below = (
  finish_event-Settled event result now events h,
  fail_event-Reopened event message now events below,
)
