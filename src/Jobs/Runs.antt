-- ===== src/Jobs/Runs.antt =====
-- Build workers and reconciliations on one database, in any order: the writes of
-- apps/worker-geodata/src/domains/jobs/job-lifecycle.ts, the success and the cleanup of
-- apps/worker-geodata/src/domains/tilesets/tileset-artifacts.ts, the upload write of
-- apps/worker-geodata/src/domains/sources/source-worker.ts, and
-- packages/database/src/jobs/reconciliation.ts. Each event is one statement or transaction.
use planisfy.Common.{
  ℕ, String, Bool, Option, List, [], ◌∷◌, Pointwise, Pointwise-refl, Pointwise-trans,
}
use planisfy.Common.Json.{Json}
use planisfy.Jobs.{ProcessingJob, Database, LogLevel, LogMetadata}
use planisfy.Jobs.Status.{Evolves, Evolves-refl, Evolves-trans}
use planisfy.Jobs.Lifecycle.{
  set_processing_status, set_error_status, set_canceled_status, log_processing_job,
  mark_processing_job_canceled,
}
use planisfy.Jobs.Lifecycle.Jobs.{
  WorkerWrite, started, progressed, failed, write, update_progress-Evolves,
  mark_processing_job_started-Evolves, mark_processing_job_failed-Evolves,
  mark_processing_job_canceled-Evolves,
}
use planisfy.Jobs.Finalize.Commit.{finalize_in_transaction-Evolves}
use planisfy.Jobs.Finalize.{
  Finalization, finalize_in_transaction, request_artifact_cleanup, mark_upload_validated,
}
use planisfy.Jobs.Reconcile.{QueueJobLiveness, reconcile_job}
use planisfy.Jobs.Reconcile.Jobs.{reconcile_job-Evolves}

-- `reconciled` carries the candidate as the query returned it, which may be out of date by now.
pub data Event : Type 0 where
  wrote : WorkerWrite → (job_id now : ℕ) → Event
  canceled_job : (job_id requested_at : Option ℕ) (now : ℕ) → Event
  build_started build_canceled : (tileset_id : ℕ) (upload_id job_id : Option ℕ) (now : ℕ) → Event
  build_failed : (tileset_id : ℕ) (upload_id job_id : Option ℕ) (now : ℕ) → String → Event
  logged : (job_id : ℕ) → String → LogMetadata → LogLevel → Event
  finalized : Finalization → (job_id new_id now : ℕ) → Event
  cleaned_up : Finalization → (now : ℕ) (reason : String) → Event
  upload_validated : (upload_id : ℕ) → Json → (now : ℕ) → Event
  reconciled : ProcessingJob → QueueJobLiveness → (now stale_ms : ℕ) → Bool → Event

module _ (read_id : String → ℕ) (id_text : ℕ → String) where
  unfoldable pub handle : Event → Database → Database
  unfolding write
  handle (wrote w job_id now) db = write w job_id now db
  handle (canceled_job job_id requested_at now) db =
      mark_processing_job_canceled job_id requested_at now db
  handle (build_started tileset_id upload_id job_id now) db =
      set_processing_status tileset_id upload_id job_id now db
  handle (build_canceled tileset_id upload_id job_id now) db =
      set_canceled_status tileset_id upload_id job_id now db
  handle (build_failed tileset_id upload_id job_id now error) db =
      set_error_status tileset_id upload_id job_id now db error
  handle (logged job_id note facts level) db = log_processing_job job_id note facts level db
  handle (finalized params job_id new_id now) db =
      (finalize_in_transaction id_text params new_id now job_id db).1
  handle (cleaned_up params now reason) db = request_artifact_cleanup id_text params 0 now reason db
  handle (upload_validated upload_id result now) db = mark_upload_validated upload_id result now db
  handle (reconciled job queue now stale_ms fresh) db =
      (reconcile_job read_id now stale_ms fresh job queue db).1

  unfoldable pub run : List Event → Database → Database
  unfolding handle
  run [] db = db
  run (e ∷ es) db = run es (handle e db)

  write-Evolves :
      (w : WorkerWrite) (job_id now : ℕ) (db : Database)
      → Pointwise Evolves db.jobs (write w job_id now db).jobs
  unfolding write
  write-Evolves started job_id now db = mark_processing_job_started-Evolves job_id now db
  write-Evolves (progressed progress output) job_id now db =
      update_progress-Evolves job_id progress output now db
  write-Evolves (failed error) job_id now db =
      mark_processing_job_failed-Evolves job_id error now db

  handle-Evolves : (e : Event) (db : Database) → Pointwise Evolves db.jobs (handle e db).jobs
  unfolding handle set_processing_status set_error_status set_canceled_status log_processing_job
      request_artifact_cleanup mark_upload_validated
  handle-Evolves (wrote w job_id now) db = write-Evolves w job_id now db
  handle-Evolves (canceled_job job_id requested_at now) db =
      mark_processing_job_canceled-Evolves job_id requested_at now db
  handle-Evolves (build_started tileset_id upload_id job_id now) db =
      Pointwise-refl Evolves db.jobs Evolves-refl
  handle-Evolves (build_canceled tileset_id upload_id job_id now) db =
      Pointwise-refl Evolves db.jobs Evolves-refl
  handle-Evolves (build_failed tileset_id upload_id job_id now error) db =
      Pointwise-refl Evolves db.jobs Evolves-refl
  handle-Evolves (logged job_id note facts level) db = Pointwise-refl Evolves db.jobs Evolves-refl
  handle-Evolves (finalized params job_id new_id now) db =
      finalize_in_transaction-Evolves id_text params new_id now job_id db
  handle-Evolves (cleaned_up params now reason) db = Pointwise-refl Evolves db.jobs Evolves-refl
  handle-Evolves (upload_validated upload_id result now) db =
      Pointwise-refl Evolves db.jobs Evolves-refl
  handle-Evolves (reconciled job queue now stale_ms fresh) db =
      reconcile_job-Evolves read_id now stale_ms fresh job queue db

  -- However build workers, with their starts, progress, failures, cancellations and successes, and
  -- reconciliations interleave, also with candidates that are out of date, every job keeps its id and
  -- input, and its status only moves from PENDING or PROCESSING to PROCESSING, SUCCEEDED, FAILED or
  -- CANCELED: none of these writes reopens a job that is SUCCEEDED, FAILED or CANCELED. The writes of
  -- other parts are not among them: imports, requests to cancel, and an administrator's retry, which
  -- does reopen a job that is FAILED or CANCELED.
  pub run-Evolves : (es : List Event) (db : Database) → Pointwise Evolves db.jobs (run es db).jobs
  unfolding run
  run-Evolves [] db = Pointwise-refl Evolves db.jobs Evolves-refl
  run-Evolves (e ∷ es) db =
      Pointwise-trans Evolves db.jobs (handle e db).jobs (run es (handle e db)).jobs Evolves-trans
        (handle-Evolves e db) (run-Evolves es (handle e db))
