-- ===== src/Outbox.antt =====
-- The outbox of the geodata worker: claiming, settling and retrying events by
-- apps/worker-geodata/src/domains/outbox/outbox-dispatcher.ts, over the table `event_outbox` of
-- packages/database/src/schema/geodata.ts. What the handler of an event does is an argument.
pub mod Life
pub mod Claims
pub mod Builds
mod Tests
use planisfy.Common.{
  ℕ, zero, suc, ◌+◌, ◌-◌, ◌*◌, min, String, Bool, true, false, not, ◌&&◌, ◌||◌, Option, none, some,
  List, [], ◌∷◌, if◌then◌else◌, ◌==◌, leb, take,
}
use planisfy.Common.Table.{update_where, select_where, order_by}
use mathlib.Core.List.{map}

pub data EventStatus : Type 0 where
  pending processing completed failed archived : EventStatus

pub data EventName : Type 0 where
  tileset_build_requested source_import_requested artifact_cleanup_requested : EventName
  other : String → EventName

pub record OutboxEvent : Type 0 where
  pub id : ℕ
  pub event_name : EventName
  pub status : EventStatus
  pub attempts : ℕ
  pub process_at : ℕ
  pub last_error : Option String
  pub created_at : ℕ
  pub updated_at : ℕ

abbrev pub is_dispatchable : EventName → Bool
is_dispatchable (other s) = false
is_dispatchable _ = true

abbrev pub is_pending : EventStatus → Bool
is_pending pending = true
is_pending _ = false

abbrev pub max_attempts : ℕ
max_attempts = 5

-- The condition of the query for due events.
abbrev pub is_due : (now : ℕ) → OutboxEvent → Bool
is_due now e = is_pending e.status && (is_dispatchable e.event_name && leb e.process_at now)

abbrev pub is_one_of : List ℕ → ℕ → Bool
is_one_of [] id = false
is_one_of (i ∷ ids) id = i == id || is_one_of ids id

unfoldable pub select_due : (limit now : ℕ) → List OutboxEvent → List ℕ
select_due limit now events =
    map (λ e. e.id)
      (take limit (
        order_by (λ e. e.process_at)
          (order_by (λ e. e.created_at) (select_where (is_due now) events))))

unfoldable pub claim_row : (now : ℕ) → OutboxEvent → OutboxEvent
claim_row now e = record e { status = processing; attempts = e.attempts + 1; updated_at = now }

abbrev pub is_claimed : List ℕ → OutboxEvent → Bool
is_claimed ids e = is_pending e.status && is_one_of ids e.id

-- The update of the rows that were selected: those that it returns, and the table.
unfoldable pub claim_selected :
    List ℕ → (now : ℕ) → List OutboxEvent → List OutboxEvent × List OutboxEvent
unfolding claim_row
claim_selected ids now events = (
  map (claim_row now) (select_where (is_claimed ids) events),
  update_where (is_claimed ids) (claim_row now) events,
)

-- `meanwhile` is what others commit between the query and the update.
unfoldable pub claim_due_dispatchable_events :
    (limit now : ℕ) (meanwhile : List OutboxEvent → List OutboxEvent)
    → List OutboxEvent
    → List OutboxEvent × List OutboxEvent
unfolding select_due claim_selected
claim_due_dispatchable_events limit now meanwhile events =
    claim_selected (select_due limit now events) now (meanwhile events)

abbrev power_of_two : ℕ → ℕ
power_of_two zero = 1
power_of_two (suc n) = 2 * power_of_two n

unfoldable pub retry_delay_ms : (attempts : ℕ) → ℕ
retry_delay_ms attempts = min (60000 * power_of_two (attempts - 1)) (15 * 60000)

unfoldable pub complete_row : (now : ℕ) → OutboxEvent → OutboxEvent
complete_row now e = record e { status = completed; updated_at = now }

-- `attempts` are those of the event that was claimed.
unfoldable pub fail_row : (attempts : ℕ) (error : String) (now : ℕ) → OutboxEvent → OutboxEvent
unfolding retry_delay_ms
fail_row attempts error now e = record e {
  status = if leb max_attempts attempts then failed else pending;
  last_error = some error;
  process_at = now + retry_delay_ms attempts;
  updated_at = now;
}

unfoldable pub complete_outbox_event : (id now : ℕ) → List OutboxEvent → List OutboxEvent
unfolding complete_row
complete_outbox_event id now events = update_where (λ e. e.id == id) (complete_row now) events

unfoldable pub fail_outbox_event :
    OutboxEvent → (error : String) (now : ℕ) → List OutboxEvent → List OutboxEvent
unfolding fail_row
fail_outbox_event event error now events =
    update_where (λ e. e.id == event.id) (fail_row event.attempts error now) events

-- What the handler of an event ends in.
pub data Handled : Type 0 where
  handled : Handled
  threw : String → Handled

unfoldable pub settle_event :
    OutboxEvent → Handled → (now : ℕ) → List OutboxEvent → List OutboxEvent
unfolding complete_outbox_event fail_outbox_event
settle_event event handled now events = complete_outbox_event event.id now events
settle_event event (threw error) now events = fail_outbox_event event error now events

-- A handler is found for the three names that are claimed.
abbrev handler_result : (OutboxEvent → Handled) → OutboxEvent → Handled
handler_result handle event =
    if is_dispatchable event.event_name
    then handle event
    else threw "Unsupported geodata outbox event"

-- The events of a batch, one after the other; `meanwhile` is what others commit while a handler runs.
unfoldable pub dispatch_events :
    (handle : OutboxEvent → Handled) (meanwhile : OutboxEvent → List OutboxEvent → List OutboxEvent)
    (now : ℕ)
    → List OutboxEvent
    → List OutboxEvent
    → List OutboxEvent
unfolding settle_event
dispatch_events handle meanwhile now [] events = events
dispatch_events handle meanwhile now (event ∷ batch) events =
    dispatch_events handle meanwhile now batch
      (settle_event event (handler_result handle event) now (meanwhile event events))

unfoldable pub tick :
    (limit now : ℕ) (handle : OutboxEvent → Handled)
    (before_claim : List OutboxEvent → List OutboxEvent)
    (meanwhile : OutboxEvent → List OutboxEvent → List OutboxEvent)
    → List OutboxEvent
    → List OutboxEvent
unfolding claim_due_dispatchable_events dispatch_events
tick limit now handle before_claim meanwhile events =
    let (batch, claimed) = claim_due_dispatchable_events limit now before_claim events in
    dispatch_events handle meanwhile now batch claimed
