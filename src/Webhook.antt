-- ===== src/Webhook.antt =====
-- apps/api/src/domains/billing/webhook-inbox.ts: the durable inbox of billing webhooks, over the
-- table `billing_webhook_events` of packages/database/src/schema/billing.ts. All rows are DODO's.
-- Ids are naturals, times are milliseconds, and the clock's readings are arguments.
pub mod Accept
pub mod Claims
pub mod Retries
pub mod Race
mod Tests
use Prim.Native.String.{String}
use mathlib.Core.List.{map}
use text.Mathlib.Text.{◌==◌ as str_eq}
use planisfy.Common.{
  ℕ, zero, suc, ◌+◌, ◌-◌, min, Bool, true, false, ◌&&◌, ◌||◌, not, Option, none, some, List, [],
  ◌∷◌, ◌++◌, if◌then◌else◌, ◌==◌, leb, is_some, or_else, length, take,
}
use planisfy.Common.Json.{Json, str, object, Fields, get_field, truncate}
use planisfy.Common.Table.{update_where, select_where, find_where, any_where, order_by}

pub data WebhookStatus : Type 0 where
  pending processing processed failed : WebhookStatus

pub record WebhookEvent : Type 0 where
  pub id : ℕ
  pub webhook_id : String
  pub event_type : Option String
  pub payload : Json
  pub result : Option Json
  pub status : WebhookStatus
  pub attempts : ℕ
  pub event_at : Option ℕ
  pub lease_until : Option ℕ
  pub next_attempt_at : ℕ
  pub last_error : Option String
  pub received_at : ℕ
  pub processed_at : Option ℕ
  pub updated_at : ℕ

abbrev pub is_pending : WebhookStatus → Bool
is_pending pending = true
is_pending _ = false

abbrev pub is_processing : WebhookStatus → Bool
is_processing processing = true
is_processing _ = false

abbrev pub is_processed : WebhookStatus → Bool
is_processed processed = true
is_processed _ = false

abbrev pub is_failed : WebhookStatus → Bool
is_failed failed = true
is_failed _ = false

abbrev pub webhook_lease_ms : ℕ
webhook_lease_ms = 120000

abbrev pub webhook_retry_delays_ms : List ℕ
webhook_retry_delays_ms =
    0 ∷ 5000 ∷ 300000 ∷ 1800000 ∷ 7200000 ∷ 18000000 ∷ 36000000 ∷ 36000000 ∷ []

-- `WEBHOOK_RETRY_DELAYS_MS[i]`; every index that the code uses is in range
abbrev delay_at : List ℕ → ℕ → ℕ
delay_at [] i = 0
delay_at (d ∷ ds) zero = d
delay_at (d ∷ ds) (suc i) = delay_at ds i

abbrev pub string_value : Option Json → Option String
string_value (some (str s)) = if str_eq s "" then none else some s
string_value _ = none

abbrev pub record_value : Json → Option Fields
record_value (object fields) = some fields
record_value _ = none

abbrev first_of_two : Option String → Option String → Option String
first_of_two (some s) other = some s
first_of_two none other = other

-- `stringValue(payload.type) ?? stringValue(payload.event_type)`
abbrev pub payload_type : Fields → Option String
payload_type p =
    first_of_two (string_value (get_field "type" p)) (string_value (get_field "event_type" p))

abbrev pub same_webhook : String → WebhookEvent → Bool
same_webhook webhook_id e = str_eq e.webhook_id webhook_id

pub record Accepted : Type 0 where
  pub duplicate : Bool
  pub replayed : Bool

unfoldable pub should_replay_dodo_webhook : WebhookEvent → Bool
should_replay_dodo_webhook e = is_failed e.status && not (is_some e.processed_at)

-- What `acceptDodoWebhookEvent` inserts; `new_id` and `now` are what the database and the clock give.
new_event : ℕ → String → Fields → Option ℕ → ℕ → WebhookEvent
new_event new_id webhook_id payload event_at now = record {
  id = new_id;
  webhook_id = webhook_id;
  event_type = payload_type payload;
  payload = object payload;
  result = none;
  status = pending;
  attempts = 0;
  event_at = event_at;
  lease_until = none;
  next_attempt_at = now;
  last_error = none;
  received_at = now;
  processed_at = none;
  updated_at = now;
}

replay : Fields → Option ℕ → ℕ → WebhookEvent → WebhookEvent
replay payload event_at now e = record e {
  payload = object payload;
  event_type = payload_type payload;
  event_at = event_at;
  status = pending;
  attempts = 0;
  next_attempt_at = now;
  lease_until = none;
  last_error = none;
  updated_at = now;
}

-- The part of `acceptDodoWebhookEvent` behind the insertion that met a row of the same webhook.
accept_existing :
    String
    → Fields
    → Option ℕ
    → ℕ
    → List WebhookEvent
    → Option WebhookEvent
    → Accepted × List WebhookEvent
unfolding should_replay_dodo_webhook
accept_existing webhook_id payload event_at now events none =
    (record { duplicate = true; replayed = false }, events)
accept_existing webhook_id payload event_at now events (some existing) =
    if is_some existing.processed_at || is_processed existing.status
    then (record { duplicate = true; replayed = false }, events)
    else if should_replay_dodo_webhook existing
    then (
      record { duplicate = false; replayed = true },
      update_where (λ e. same_webhook webhook_id e && is_failed e.status)
          (replay payload event_at now) events,
    )
    else (record { duplicate = true; replayed = false }, events)

-- `acceptDodoWebhookEvent`, with no other writer between its insertion, its query and its update; the
-- insertion does nothing where the unique index on the provider and
-- the webhook's id has the key.
unfoldable pub accept_dodo_webhook_event :
    ℕ → String → Fields → Option ℕ → ℕ → List WebhookEvent → Accepted × List WebhookEvent
unfolding accept_existing new_event replay
accept_dodo_webhook_event new_id webhook_id payload event_at now events =
    if any_where (same_webhook webhook_id) events
    then accept_existing webhook_id payload event_at now events
        (find_where (same_webhook webhook_id) events)
    else (
      record { duplicate = false; replayed = false },
      events ++ new_event new_id webhook_id payload event_at now ∷ [],
    )

-- A lease that is null or over: `or(isNull(leaseUntil), lte(leaseUntil, now))`
abbrev pub lease_over : Option ℕ → ℕ → Bool
lease_over none now = true
lease_over (some t) now = leb t now

-- The condition of the query for due events.
abbrev pub due_where : ℕ → WebhookEvent → Bool
due_where now e =
    (is_pending e.status && leb e.next_attempt_at now)
    || (is_processing e.status && lease_over e.lease_until now)

-- The condition of the claim, beside the list of ids.
abbrev pub claimable_where : ℕ → WebhookEvent → Bool
claimable_where now e =
    is_pending e.status || (is_processing e.status && lease_over e.lease_until now)

unfoldable pub is_dodo_webhook_claim_due : WebhookEvent → ℕ → Bool
is_dodo_webhook_claim_due e now =
    if is_pending e.status
    then leb e.next_attempt_at now
    else is_processing e.status && lease_over e.lease_until now

abbrev pub in_ids : List ℕ → ℕ → Bool
in_ids [] i = false
in_ids (j ∷ ids) i = i == j || in_ids ids i

-- The first statement of `processDueDodoWebhookEvents`.
unfoldable pub select_due : ℕ → ℕ → List WebhookEvent → List WebhookEvent
select_due now limit events = take limit (
    order_by (λ e. e.next_attempt_at)
      (order_by (λ e. e.received_at) (select_where (due_where now) events)))

unfoldable pub claim_row : ℕ → WebhookEvent → WebhookEvent
claim_row now e = record e {
  status = processing;
  attempts = e.attempts + 1;
  lease_until = some (now + webhook_lease_ms);
  updated_at = now;
}

claim_where : List ℕ → ℕ → WebhookEvent → Bool
claim_where ids now e = in_ids ids e.id && claimable_where now e

-- The second statement: the rows as `returning()` gives them, and the new table.
unfoldable pub claim : List ℕ → ℕ → List WebhookEvent → List WebhookEvent × List WebhookEvent
unfolding claim_row claim_where
claim ids now events = (
  map (claim_row now) (select_where (claim_where ids now) events),
  update_where (claim_where ids now) (claim_row now) events,
)

pub record FailureTransition : Type 0 where
  pub status : WebhookStatus
  pub next_attempt_at : ℕ

unfoldable pub dodo_webhook_failure_transition : ℕ → ℕ → FailureTransition
dodo_webhook_failure_transition attempts now =
    let exhausted = leb (length webhook_retry_delays_ms) attempts in
    let retry_delay =
      delay_at webhook_retry_delays_ms (min attempts (length webhook_retry_delays_ms - 1)) in
    record { status = if exhausted then failed else pending; next_attempt_at = now + retry_delay }

-- What applying an event ends in: `applyDodoWebhookEvent` returns a result, or throws.
pub data Applied : Type 0 where
  applied : Json → Applied
  threw : String → Applied

abbrev finish_row : Json → ℕ → WebhookEvent → WebhookEvent
finish_row result now e = record e {
  result = some result;
  status = processed;
  processed_at = some now;
  lease_until = none;
  last_error = none;
  updated_at = now;
}

abbrev fail_row : ℕ → String → ℕ → WebhookEvent → WebhookEvent
fail_row attempts message now e =
    let retry = dodo_webhook_failure_transition attempts now in
    record e {
      status = retry.status;
      next_attempt_at = retry.next_attempt_at;
      lease_until = none;
      last_error = some (truncate 2000 message);
      updated_at = now;
    }

-- The statement at the end of the `try` block, and the one of the `catch` block, for a claimed event.
unfoldable pub finish_event : WebhookEvent → Json → ℕ → List WebhookEvent → List WebhookEvent
finish_event event result now =
    update_where (λ e. e.id == event.id && is_processing e.status) (finish_row result now)

unfoldable pub fail_event : WebhookEvent → String → ℕ → List WebhookEvent → List WebhookEvent
fail_event event message now =
    update_where (λ e. e.id == event.id) (fail_row event.attempts message now)

-- What the `for` loop counts.
pub record Tally : Type 0 where
  pub processed : ℕ
  pub failed : ℕ

module _ (apply : Fields → String → Option ℕ → Applied) (clock : ℕ → ℕ) where
  -- The `try` block up to the first statement: the payload must be an object.
  attempt : WebhookEvent → Option Fields → Applied
  attempt event none = threw "Stored webhook payload is not an object"
  attempt event (some payload) = apply payload event.webhook_id event.event_at

  settle : WebhookEvent → Applied → Tally × List WebhookEvent → Tally × List WebhookEvent
  settle event (applied result) (t, events) =
      (record t { processed = t.processed + 1 }, finish_event event result (clock event.id) events)
  settle event (threw message) (t, events) =
      (record t { failed = t.failed + 1 }, fail_event event message (clock event.id) events)

  process_claimed : List WebhookEvent → Tally × List WebhookEvent → Tally × List WebhookEvent
  process_claimed [] acc = acc
  process_claimed (event ∷ rest) acc =
      process_claimed rest (settle event (attempt event (record_value event.payload)) acc)

  -- The body behind the first statement: claim what is due, if anything is, and settle it in turn.
  process_due : ℕ → List WebhookEvent → List WebhookEvent → ℕ × Tally × List WebhookEvent
  process_due now events [] = (0, record { processed = 0; failed = 0 }, events)
  process_due now events (event ∷ due) =
      let (claimed, events') = claim (map (λ e. e.id) (event ∷ due)) now events in
      let done = process_claimed claimed (record { processed = 0; failed = 0 }, events') in
      (length claimed, done.0, done.1)

  -- `processDueDodoWebhookEvents`: the number of claimed events, the counts and the table.
  -- `clock` says when the event of an id is finished. No other writer comes between the statements.
  unfoldable pub process_due_dodo_webhook_events :
      ℕ → Option ℕ → List WebhookEvent → ℕ × Tally × List WebhookEvent
  unfolding attempt settle process_claimed process_due
  process_due_dodo_webhook_events now limit events =
      process_due now events (select_due now (or_else limit 25) events)
