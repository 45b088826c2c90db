-- ===== src/Outbox/Tests.antt =====
-- The outbox of apps/worker-geodata/src/domains/outbox/outbox-dispatcher.ts with two events.
use mathlib.Core.List.{map}
use planisfy.Common.{ℕ, false, none, some, List, [], ◌∷◌, ◌≡◌, refl, All}
use planisfy.Common.Table.{update_where, select_where, order_by}
use planisfy.Outbox.{
  pending, processing, tileset_build_requested, OutboxEvent, claim_row, claim_selected, fail_row,
  retry_delay_ms, threw, tick,
}
use planisfy.Outbox.Life.{
  enqueued, claimed, thrown, put_away, archive_row, IsBounded, Life-IsBounded,
}
use planisfy.Jobs.{JobStatus, ProcessingJob, JobLog, info, no_metadata}
use planisfy.Common.{String, Option, if◌then◌else◌, ◌==◌, ==_iff}
use planisfy.Outbox.Builds.{SourceQueue, BuildStore}
use planisfy.Outbox.Claims.{same_event, claim_selected-exclusive}

abbrev event : ℕ → ℕ → OutboxEvent
event id process_at = record {
  id = id;
  event_name = tileset_build_requested;
  status = pending;
  attempts = 0;
  process_at = process_at;
  last_error = none;
  created_at = 10;
  updated_at = 10;
}

abbrev table : List OutboxEvent
table = event 1 20 ∷ event 2 15 ∷ []

delays :
    map retry_delay_ms (1 ∷ 2 ∷ 3 ∷ 4 ∷ 5 ∷ []) ≡ 60000 ∷ 120000 ∷ 240000 ∷ 480000 ∷ 900000 ∷ []
unfolding retry_delay_ms
delays = refl

-- A tick over one event, the one that is due first; its handler throws.
tick_run :
    tick 1 30 (λ e. threw "down") (λ t. t) (λ e t. t) table
    ≡ event 1 20
      ∷ record (event 2 15) {
        attempts = 1;
        process_at = 60030;
        last_error = some "down";
        updated_at = 30;
      }
      ∷ []
unfolding tick select_where update_where order_by
tick_run = refl

claim_selected-exclusive_example :
    All
      (λ c.
        All
          (λ d. same_event d c ≡ false)
          (claim_selected (1 ∷ 2 ∷ []) 31 (claim_selected (2 ∷ []) 30 table).1).0)
      (claim_selected (2 ∷ []) 30 table).0
claim_selected-exclusive_example =
    claim_selected-exclusive (2 ∷ []) (1 ∷ 2 ∷ []) 30 31 table ((refl, tt), (tt, tt))

abbrev tried : OutboxEvent
tried =
    fail_row 1 "down" 30
      (record (event 2 15) { status = processing; attempts = 1; updated_at = 30 })

-- An event that was tried once and put back.
abbrev back : OutboxEvent
back = fail_row 1 "down" 30 (claim_row 30 (event 2 15))

Life-IsBounded_example : IsBounded (archive_row 40 back) 0
unfolding fail_row claim_row
Life-IsBounded_example = Life-IsBounded (archive_row 40 back) [] 0 (
    put_away 40 back [] 0 refl (
      thrown 30 "down" (claim_row 30 (event 2 15)) [] 1 [] 0
        (claimed 30 (event 2 15) [] 0 refl (enqueued (event 2 15) refl refl))))

-- A queue as the states of its jobs.
abbrev queue : SourceQueue (ℕ → Option String) ℕ
queue = record {
  get_state = λ q id. q id;
  remove = λ q id j. if j == id then none else q j;
  add = λ q id input j. if j == id then some "waiting" else q j;
  remove_gone = λ q id. rw ((==_iff id id).1 refl) refl;
  add_runnable = λ q id input free. ("waiting", rw ((==_iff id id).1 refl) refl, refl);
}

abbrev job : ProcessingJob
job = record {
  id = 3;
  account_id = 1;
  job_type = "tileset.process_dataset";
  status = JobStatus.pending;
  progress = 0;
  input = none;
  output = none;
  error_code = none;
  error_message = none;
  cancel_requested_at = none;
  started_at = none;
  completed_at = none;
  updated_at = 10;
}

abbrev no_states : ℕ → Option String
no_states id = none

abbrev builds : BuildStore queue
builds = record { jobs = job ∷ []; logs = []; queued = no_states }

abbrev noted : String → JobLog
noted message = record { job_id = 3; level = info; message = message; metadata = no_metadata }

abbrev once : BuildStore queue
once = record builds {
  logs = noted "Build request dispatched to geodata queue" ∷ [];
  queued = queue.add no_states 3 9;
}

abbrev twice : BuildStore queue
twice = record once {
  logs =
      noted "Build request dispatched to geodata queue"
      ∷ noted "Build request already exists in geodata queue"
      ∷ [];
}
