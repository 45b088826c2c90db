-- ===== src/Webhook/Tests.antt =====
-- Webhooks at concrete inputs: a run of the inbox, the race of two workers, and the theorems applied.
use planisfy.Common.{
  ℕ, String, ◌≡◌, refl, ◌⊎◌, inl, inr, true, false, Option, none, some, List, [], ◌∷◌, arith, All,
  Pointwise, ◌+◌, ◌*◌, ◌≤◌,
}
use planisfy.Common.Json.{null, str, object, Fields, end, field, get_field, truncate}
use planisfy.Common.Table.{update_where, select_where, find_where, any_where, order_by}
use planisfy.Common.Unique.{Unique}
use planisfy.Webhook.{
  WebhookEvent, pending, processed, failed, accept_dodo_webhook_event, claim, claim_row, Applied,
  applied, threw, finish_event, fail_event, fail_row, process_due_dodo_webhook_events, select_due,
  dodo_webhook_failure_transition,
}
use planisfy.Webhook.Accept.{UniqueWebhooks, Stored, accept-Stored}
use planisfy.Webhook.Claims.{same_id, IsDue, claim_exclusive, process_due-Touches}
use planisfy.Webhook.Retries.{
  Tried, untried, again, IsTried, Tried-IsTried, failing_run, Tried-reached,
}
use planisfy.Webhook.Race.{Reopened, late_worker}

abbrev body : Fields
body = field "type" (str "payment.succeeded") end

abbrev row : ℕ → String → WebhookEvent
row i w = record {
  id = i;
  webhook_id = w;
  event_type = some "payment.succeeded";
  payload = object body;
  result = none;
  status = pending;
  attempts = 0;
  event_at = none;
  lease_until = none;
  next_attempt_at = 50;
  last_error = none;
  received_at = 50;
  processed_at = none;
  updated_at = 50;
}

abbrev done_row : WebhookEvent
done_row = record (row 2 "b") { status = processed; processed_at = some 60 }

abbrev dead_row : WebhookEvent
dead_row = record (row 3 "c") { status = failed; attempts = 8 }

abbrev inbox : List WebhookEvent
inbox = row 1 "a" ∷ done_row ∷ dead_row ∷ []

abbrev apply_all : Fields → String → Option ℕ → Applied
apply_all payload webhook_id event_at = applied null

abbrev apply_none : Fields → String → Option ℕ → Applied
apply_none payload webhook_id event_at = threw "no"

inbox-tests : Unit {0}
unfolding accept_dodo_webhook_event process_due_dodo_webhook_events select_due claim finish_event
    fail_event dodo_webhook_failure_transition update_where select_where find_where any_where
    order_by get_field truncate
inbox-tests = tt

accept_tests :
    ((accept_dodo_webhook_event 9 "b" body none 70 inbox).0
      ≡ record { duplicate = true; replayed = false })
    × ((accept_dodo_webhook_event 9 "c" body none 70 inbox).0
        ≡ record { duplicate = false; replayed = true })
    × ((accept_dodo_webhook_event 9 "d" body none 70 inbox).0
        ≡ record { duplicate = false; replayed = false })
unfolding inbox-tests
accept_tests = (refl, refl, refl)

process_tests :
    (process_due_dodo_webhook_events apply_all (λ i. 80) 70 none inbox ≡ (
      1,
      record { processed = 1; failed = 0 },
      record (row 1 "a") {
        status = processed;
        attempts = 1;
        result = some null;
        processed_at = some 80;
        updated_at = 80;
      }
          ∷ done_row
          ∷ dead_row
          ∷ [],
    ))
    × (process_due_dodo_webhook_events apply_none (λ i. 80) 70 none inbox ≡ (
      1,
      record { processed = 0; failed = 1 },
      record (row 1 "a") {
        attempts = 1;
        next_attempt_at = 5080;
        last_error = some "no";
        updated_at = 80;
      }
          ∷ done_row
          ∷ dead_row
          ∷ [],
    ))
unfolding inbox-tests
process_tests = (refl, refl)

-- A claims at 70 and stalls; B claims when the lease is over and finishes; then A's try fails.
race : List WebhookEvent → List WebhookEvent
race events =
    let a = claim (1 ∷ []) 70 events in
    let b = claim (1 ∷ []) 120070 a.1 in
    let finished = finish_event (row 1 "a") null 120080 b.1 in
    fail_event (record (row 1 "a") { attempts = 1 }) "late" 120090 finished

race_test :
    race inbox
    ≡ record (row 1 "a") {
      status = pending;
      attempts = 2;
      result = some null;
      processed_at = some 120080;
      next_attempt_at = 125090;
      last_error = some "late";
      updated_at = 120090;
    }
      ∷ done_row
      ∷ dead_row
      ∷ []
unfolding race inbox-tests
race_test = refl

inbox-UniqueWebhooks : UniqueWebhooks inbox
inbox-UniqueWebhooks = ((refl, (refl, tt)), ((refl, tt), (tt, tt)))

inbox-Unique : Unique same_id inbox
inbox-Unique = ((refl, (refl, tt)), ((refl, tt), (tt, tt)))

accept-Stored_example :
    Stored "c" body none 70 inbox (accept_dodo_webhook_event 9 "c" body none 70 inbox)
accept-Stored_example = accept-Stored "c" body none 70 9 inbox inbox-UniqueWebhooks

claim_exclusive_example :
    All
      (λ c.
        All (λ d. same_id d c ≡ false) (claim (1 ∷ 2 ∷ []) 120000 (claim (1 ∷ []) 70 inbox).1).0)
      (claim (1 ∷ []) 70 inbox).0
claim_exclusive_example =
    claim_exclusive (1 ∷ []) (1 ∷ 2 ∷ []) 70 120000 inbox inbox-Unique (omega arith)

process_due-Touches_example :
    let (n, t, events) = process_due_dodo_webhook_events apply_none (λ i. 80) 70 none inbox in
    (n ≡ t.processed + t.failed)
    × Pointwise
        (λ e e'. (e'.id ≡ e.id) × (e'.webhook_id ≡ e.webhook_id) × (IsDue 70 e ⊎ (e' ≡ e)))
        inbox
        events
process_due-Touches_example = process_due-Touches apply_none (λ i. 80) 70 none inbox inbox-Unique

abbrev once : WebhookEvent
once = fail_row (claim_row 50 (row 1 "a")).attempts "no" 60 (claim_row 50 (row 1 "a"))

Tried-once : Tried (row 1 "a") 1 once
Tried-once = again 50 60 "no" untried refl

Tried-IsTried_example : IsTried 1 once
Tried-IsTried_example = Tried-IsTried (row 1 "a") refl refl Tried-once

Tried-reached_example :
    let run = failing_run (row 1 "a") (λ n. n * 50000000) (λ n. "no") in
    ((n : ℕ) → n ≤ 8 → Tried (row 1 "a") n (run n))
    × ((run 8).attempts ≡ 8)
    × ((run 8).status ≡ failed)
Tried-reached_example = Tried-reached (row 1 "a") (λ n. n * 50000000) (λ n. "no") refl refl

late_worker_example :
    (finish_event done_row null 90 inbox ≡ inbox)
    × Pointwise (Reopened done_row) inbox (fail_event done_row "late" 90 inbox)
late_worker_example =
    late_worker done_row null "late" 90 inbox (inl refl, (inr refl, (inl refl, tt))) (omega arith)
