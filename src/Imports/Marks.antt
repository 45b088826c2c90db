-- ===== src/Imports/Marks.antt =====
-- The marks of an import's progress: `markSourceImportProcessing`, `markSourceImportSucceeded`,
-- `markSourceImportFailed`, `markSourceImportCanceled` and `throwIfSourceImportCanceled` of
-- apps/worker-geodata/src/domains/outbox/outbox-dispatcher.ts.
use planisfy.Common.{
  ℕ, String, Bool, not, ◌&&◌, ◌||◌, Option, none, some, [], ◌∷◌, ◌++◌, if◌then◌else◌, ◌==◌, is_none,
  is_some,
}
use planisfy.Common.Table.{update_where, any_where, find_where}
use planisfy.Jobs.{JobStatus, LogLevel, info, warn, err, is_active, is_active_or_canceled}
use planisfy.Imports.{
  Dataset, DatasetStatus, ImportJob, SourceImport, ImportLog, ImportOutput, ImportStore,
  ImportPayload, Raised, import_canceled, Step, done, raised,
}

abbrev pub active_processing_job : ℕ → ImportJob → Bool
active_processing_job job_id j =
    j.id == job_id && (is_active j.status && is_none j.cancel_requested_at)

-- What a job's row says to an import: `none` is to go on.
abbrev pub canceled_of : Option ImportJob → Option Raised
canceled_of none = some (import_canceled none)
canceled_of (some job) =
    if not (is_active job.status) || is_some job.cancel_requested_at
    then some (import_canceled job.cancel_requested_at)
    else none

abbrev pub go_on : {A : Type 0} → Option Raised → ImportStore → Step A → Step A
go_on none db next = next
go_on (some e) db next = raised e db

abbrev pub job_of : ℕ → ImportStore → Option ImportJob
job_of job_id db = find_where (λ j. j.id == job_id) db.jobs

module _ (payload : ImportPayload) (now : ℕ) where
  abbrev pub of_import : SourceImport → Bool
  of_import i = i.id == payload.import_id

  abbrev pub of_dataset : Dataset → Bool
  of_dataset d = d.id == payload.dataset_id

  abbrev pub log : LogLevel → String → ImportLog
  log level message = record { job_id = payload.job_id; level = level; message = message }

  unfoldable pub throw_if_source_import_canceled : ImportStore → Step Unit
  throw_if_source_import_canceled db =
      go_on (canceled_of (job_of payload.job_id db)) db (done tt db)

  unfoldable pub processing_marked : (started_at : ℕ) → ImportStore → ImportStore
  processing_marked started_at db = record db {
    jobs =
        update_where (active_processing_job payload.job_id)
          (λ j. record j {
            status = JobStatus.processing;
            progress = 20;
            started_at = some started_at;
            updated_at = now;
          })
          db.jobs;
    imports =
        update_where of_import (λ i. record i { status = JobStatus.processing; updated_at = now })
          db.imports;
    datasets = update_where of_dataset (λ d. record d { updated_at = now }) db.datasets;
    logs = db.logs ++ log info "Overture DuckDB extract started" ∷ [];
  }

  unfoldable pub mark_source_import_processing : (started_at : ℕ) → ImportStore → Step Unit
  unfolding processing_marked
  mark_source_import_processing started_at db =
      go_on (canceled_of (job_of payload.job_id db)) db (done tt (processing_marked started_at db))

  unfoldable pub succeeded_marked : ImportOutput → ImportStore → ImportStore
  succeeded_marked output db = record db {
    datasets =
        update_where of_dataset
          (λ d. record d {
            status = DatasetStatus.ready;
            current_version_id = some output.dataset_version_id;
            features = output.features;
            updated_at = now;
          })
          db.datasets;
    imports =
        update_where of_import
          (λ i. record i { status = JobStatus.succeeded; output = some output; updated_at = now })
          db.imports;
    jobs =
        update_where (active_processing_job payload.job_id)
          (λ j. record j {
            status = JobStatus.succeeded;
            progress = 100;
            output = some output;
            completed_at = some now;
            updated_at = now;
          })
          db.jobs;
    logs = db.logs ++ log info "Overture import extracted and stored" ∷ [];
  }

  unfoldable pub mark_source_import_succeeded : ImportOutput → ImportStore → Step Unit
  unfolding succeeded_marked
  mark_source_import_succeeded output db =
      let job = job_of payload.job_id db in
      go_on (canceled_of job) db (
        if any_where (active_processing_job payload.job_id) db.jobs
        then done tt (succeeded_marked output db)
        else raised (import_canceled none) db)

  unfoldable pub mark_source_import_failed : (message : String) → ImportStore → ImportStore
  mark_source_import_failed message db = record db {
    datasets =
        update_where (λ d. of_dataset d && is_none d.current_version_id)
          (λ d. record d { status = DatasetStatus.error; updated_at = now }) db.datasets;
    imports =
        update_where of_import
          (λ i. record i {
            status = JobStatus.failed;
            error_code = some "OVERTURE_IMPORT_FAILED";
            error_message = some message;
            updated_at = now;
          })
          db.imports;
    jobs =
        update_where (active_processing_job payload.job_id)
          (λ j. record j {
            status = JobStatus.failed;
            error_code = some "OVERTURE_IMPORT_FAILED";
            error_message = some message;
            completed_at = some now;
            updated_at = now;
          })
          db.jobs;
    logs = db.logs ++ log err "Overture DuckDB extract failed" ∷ [];
  }

  unfoldable pub mark_source_import_canceled : ImportStore → ImportStore
  mark_source_import_canceled db = record db {
    imports =
        update_where of_import
          (λ i. record i {
            status = JobStatus.canceled;
            error_code = none;
            error_message = none;
            updated_at = now;
          })
          db.imports;
    jobs =
        update_where (λ j. j.id == payload.job_id && is_active_or_canceled j.status)
          (λ j. record j {
            status = JobStatus.canceled;
            error_code = none;
            error_message = none;
            completed_at = some now;
            updated_at = now;
          })
          db.jobs;
    logs = db.logs ++ log warn "Overture DuckDB extract canceled" ∷ [];
  }
