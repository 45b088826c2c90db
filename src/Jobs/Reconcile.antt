-- ===== src/Jobs/Reconcile.antt =====
-- packages/database/src/jobs/reconciliation.ts: jobs that have not moved for a while and have no
-- live queue job, or no live worker, are failed together with what they were building.
pub mod Jobs
pub mod Counts
use planisfy.Common.{
  ℕ, ◌+◌, ◌-◌, String, Bool, true, false, ◌&&◌, ◌||◌, not, Option, none, some, List, [], ◌∷◌, ◌++◌,
  if◌then◌else◌, ◌==◌, ltb, leb, is_none, is_some, is_at, or_else, length, take,
}
use text.Mathlib.Text.{◌==◌ as str_eq}
use planisfy.Common.Json.{Json, str, object, Fields, get_field}
use planisfy.Common.Table.{update_where, select_where, any_where, order_by}
use planisfy.Jobs.{
  JobStatus, TilesetStatus, UploadStatus, StaleReason, no_queue_job_or_heartbeat, no_queue_job,
  no_heartbeat, Message, stale, ValidationResult, rejected, ProcessingJob, Tileset, Upload,
  SourceImport, LogLevel, warn, LogMetadata, reconciled, JobLog, Database, is_active,
}

abbrev pub stale_job_reconciled_code : String
stale_job_reconciled_code = "STALE_JOB_RECONCILED"

abbrev pub default_stale_processing_job_ms : ℕ
default_stale_processing_job_ms = 3600000

abbrev active_queue_states : List String
active_queue_states =
    "active" ∷ "waiting" ∷ "delayed" ∷ "prioritized" ∷ "waiting-children" ∷ "paused" ∷ []

has_state : String → List String → Bool
has_state state [] = false
has_state state (s ∷ states) = str_eq state s || has_state state states

unfoldable pub is_queue_state_active : Option String → Bool
unfolding has_state
is_queue_state_active none = false
is_queue_state_active (some state) = has_state state active_queue_states

pub record QueueJobLiveness : Type 0 where
  pub state : Option String
  pub active : Bool

-- What the caller passes to ask the queue: nothing, or a call that answers or throws.
abbrev pub LivenessSource : Type 0
LivenessSource = Option (ℕ → Option QueueJobLiveness)

answer_or_unavailable : Option QueueJobLiveness → QueueJobLiveness
answer_or_unavailable none = record { state = some "unavailable"; active = false }
answer_or_unavailable (some answer) = answer

unfoldable pub queue_liveness : ℕ → LivenessSource → QueueJobLiveness
unfolding answer_or_unavailable
queue_liveness job_id none = record { state = none; active = false }
queue_liveness job_id (some ask) = answer_or_unavailable (ask job_id)

-- A job that is updated after `now` has age 0 here and a negative one in the source: neither is
-- above `stale_ms`.
unfoldable pub should_reconcile_stale_processing_job :
    JobStatus
    → (updated_at now stale_ms : ℕ) → (queue_active has_fresh_worker_heartbeat : Bool) → Bool
should_reconcile_stale_processing_job status updated_at now stale_ms queue_active fresh =
    if not (is_active status)
    then false
    else if leb (now - updated_at) stale_ms
    then false
    else not queue_active || not fresh

unfoldable pub stale_reason : QueueJobLiveness → Bool → ℕ → StaleReason
stale_reason queue fresh stale_ms =
    let missing_queue = not queue.active in
    let stale_heartbeat = not fresh in
    if missing_queue && stale_heartbeat
    then no_queue_job_or_heartbeat stale_ms
    else if missing_queue
    then no_queue_job stale_ms
    else no_heartbeat stale_ms

-- The condition on the account, which is there only if the options name one.
abbrev pub of_account : Option ℕ → ProcessingJob → Bool
of_account none j = true
of_account (some account_id) j = j.account_id == account_id

-- The condition of the query for candidates. Nothing was updated before 1970, so a cutoff below 0
-- selects what 0 does.
abbrev pub candidate_where : ℕ → Option ℕ → ProcessingJob → Bool
candidate_where cutoff account_id j =
    is_active j.status && (ltb j.updated_at cutoff && of_account account_id j)

-- The two ids that a job's input may name. An id in the input is a string; `read_id` is what it
-- identifies.
pub record ResourceInput : Type 0 where
  pub tileset_id : Option ℕ
  pub upload_id : Option ℕ

fail_job : StaleReason → ℕ → ProcessingJob → ProcessingJob
fail_job reason now j = record j {
  status = JobStatus.failed;
  error_code = some stale_job_reconciled_code;
  error_message = some (stale reason);
  completed_at = some now;
  updated_at = now;
}

unfoldable pub still_stale : ℕ → ℕ → ProcessingJob → Bool
still_stale job_id cutoff j = j.id == job_id && (is_active j.status && ltb j.updated_at cutoff)

-- The tileset that the input names, or else those that the job builds.
unfoldable pub stale_tileset : Option ℕ → ℕ → Tileset → Bool
stale_tileset (some tileset_id) job_id t = t.id == tileset_id
stale_tileset none job_id t = is_at t.build_job_id job_id

fail_upload : Option ℕ → StaleReason → ℕ → List Upload → List Upload
fail_upload none reason now uploads = uploads
fail_upload (some upload_id) reason now uploads =
    update_where (λ u. u.id == upload_id)
      (λ u. record u {
        status = UploadStatus.error;
        validation_result = some (rejected stale_job_reconciled_code (stale reason));
        updated_at = now;
      })
      uploads

module _ (read_id : String → ℕ) where
  string_id : Option Json → Option ℕ
  string_id (some (str s)) = if str_eq s "" then none else some (read_id s)
  string_id _ = none

  unfoldable pub parse_processing_job_resource_input : Option Json → ResourceInput
  unfolding string_id
  parse_processing_job_resource_input (some (object fields)) = record {
    tileset_id = string_id (get_field "tilesetId" fields);
    upload_id = string_id (get_field "uploadId" fields);
  }
  parse_processing_job_resource_input _ = record { tileset_id = none; upload_id = none }

  module _ (now stale_ms : ℕ) (fresh : Bool) where
    -- The transaction for one candidate, and whether the job was still stale in it.
    unfoldable pub reconcile_job : ProcessingJob → QueueJobLiveness → Database → Bool × Database
    unfolding fail_job still_stale stale_tileset fail_upload
    reconcile_job job queue db =
        let reason = stale_reason queue fresh stale_ms in
        let input = parse_processing_job_resource_input job.input in
        let still = still_stale job.id (now - stale_ms) in
        if any_where still db.jobs
        then (
          true,
          record db {
            jobs = update_where still (fail_job reason now) db.jobs;
            tilesets =
                update_where (stale_tileset input.tileset_id job.id)
                  (λ t. record t { status = TilesetStatus.error; updated_at = now }) db.tilesets;
            uploads = fail_upload input.upload_id reason now db.uploads;
            source_imports =
                update_where (λ s. is_at s.processing_job_id job.id)
                  (λ s. record s {
                    status = JobStatus.failed;
                    error_code = some stale_job_reconciled_code;
                    error_message = some (stale reason);
                    updated_at = now;
                  })
                  db.source_imports;
            logs =
                db.logs
                ++ record {
                  job_id = job.id;
                  level = warn;
                  message = "Stale processing job reconciled";
                  metadata = reconciled reason stale_ms queue.state fresh;
                }
                  ∷ [];
          },
        )
        else (false, db)

pub record ReconciledProcessingJob : Type 0 where
  pub id : ℕ
  pub account_id : ℕ
  pub job_type : String
  pub previous_status : JobStatus
  pub updated_at : ℕ
  pub queue_state : Option String
  pub reason : StaleReason

-- What the loop has gathered: `latest` in order, and `skippedActive`.
pub record Progress : Type 0 where
  pub latest : List ReconciledProcessingJob
  pub skipped_active : ℕ

pub record ReconcileResult : Type 0 where
  pub scanned : ℕ
  pub reconciled : ℕ
  pub skipped_active : ℕ
  pub latest : List ReconciledProcessingJob

-- `meanwhile id` is what others have committed when the loop comes to the job of that id, since its
-- last transaction or the query.
module _ (read_id : String → ℕ) (now stale_ms : ℕ) (fresh : Bool) (liveness : LivenessSource)
    (meanwhile : ℕ → Database → Database) where
  record_reconciled :
      ProcessingJob → QueueJobLiveness → Progress → Bool × Database → Progress × Database
  record_reconciled job queue acc (false, db) = (acc, db)
  record_reconciled job queue acc (true, db) = (
    record acc {
      latest =
          acc.latest
          ++ record {
            id = job.id;
            account_id = job.account_id;
            job_type = job.job_type;
            previous_status = job.status;
            updated_at = now;
            queue_state = queue.state;
            reason = stale_reason queue fresh stale_ms;
          }
            ∷ [];
    },
    db,
  )

  -- One round of the loop.
  reconcile_candidate : ProcessingJob → Progress × Database → Progress × Database
  unfolding record_reconciled
  reconcile_candidate job (acc, db) =
      let queue = queue_liveness job.id liveness in
      let db' = meanwhile job.id db in
      if not (
        should_reconcile_stale_processing_job job.status job.updated_at now stale_ms queue.active
          fresh)
      then (record acc { skipped_active = acc.skipped_active + 1 }, db')
      else record_reconciled job queue acc (reconcile_job read_id now stale_ms fresh job queue db')

  reconcile_candidates : List ProcessingJob → Progress × Database → Progress × Database
  reconcile_candidates [] acc = acc
  reconcile_candidates (job ∷ jobs) acc = reconcile_candidates jobs (reconcile_candidate job acc)

  -- The query for candidates; the limit is 50 where none is given.
  unfoldable pub stale_candidates : (account_id limit : Option ℕ) → Database → List ProcessingJob
  stale_candidates account_id limit db = take (or_else limit 50) (
      order_by (λ j. j.updated_at)
        (select_where (candidate_where (now - stale_ms) account_id) db.jobs))

  -- `reconcileStaleProcessingJobs`, with the options' defaults taken by the caller of `now` and
  -- `stale_ms`.
  unfoldable pub reconcile_stale_processing_jobs :
      (account_id limit : Option ℕ) → Database → ReconcileResult × Database
  unfolding reconcile_candidate reconcile_candidates stale_candidates
  reconcile_stale_processing_jobs account_id limit db =
      let candidates = stale_candidates account_id limit db in
      let (acc, db') =
        reconcile_candidates candidates (record { latest = []; skipped_active = 0 }, db) in
      (
        record {
          scanned = length candidates;
          reconciled = length acc.latest;
          skipped_active = acc.skipped_active;
          latest = acc.latest;
        },
        db',
      )
