-- ===== src/Jobs/Lifecycle.antt =====
-- apps/worker-geodata/src/domains/jobs/job-lifecycle.ts: the worker's writes to a job, to the
-- tileset that it builds and to the upload that it reads.
pub mod Jobs
pub mod Builds
use planisfy.Common.{
  ℕ, String, Bool, true, false, ◌&&◌, not, Option, none, some, List, [], ◌∷◌, ◌++◌, if◌then◌else◌,
  ◌==◌, is_none, is_some, is_at, or_else,
}
use planisfy.Common.Json.{Json}
use planisfy.Common.Table.{update_where, any_where, find_where}
use planisfy.Jobs.{
  JobStatus, TilesetStatus, UploadStatus, Message, caught, ValidationResult, message, ProcessingJob,
  Tileset, Upload, LogLevel, warn, LogMetadata, cancel_requested, JobLog, Database, is_active,
  is_active_or_canceled,
}

abbrev pub active_processing_job : ℕ → ProcessingJob → Bool
active_processing_job job_id j =
    j.id == job_id && (is_active j.status && is_none j.cancel_requested_at)

abbrev pub active_tileset_build : ℕ → Option ℕ → Tileset → Bool
active_tileset_build tileset_id none t = t.id == tileset_id
active_tileset_build tileset_id (some job_id) t = t.id == tileset_id && is_at t.build_job_id job_id

-- `if (updatedTileset && params.uploadId)` and the update of that upload
update_upload : Bool → Option ℕ → (Upload → Upload) → List Upload → List Upload
update_upload updated none f uploads = uploads
update_upload updated (some upload_id) f uploads =
    if updated then update_where (λ u. u.id == upload_id) f uploads else uploads

module _ (tileset_id : ℕ) (upload_id processing_job_id : Option ℕ) (now : ℕ) (db : Database) where
  abbrev build : Tileset → Bool
  build = active_tileset_build tileset_id processing_job_id

  unfoldable pub set_processing_status : Database
  unfolding update_upload
  set_processing_status = record db {
    tilesets =
        update_where build (λ t. record t { status = TilesetStatus.building; updated_at = now })
          db.tilesets;
    uploads =
        update_upload (any_where build db.tilesets) upload_id
          (λ u. record u {
            status = UploadStatus.validating;
            linked_tileset_id = some tileset_id;
            updated_at = now;
          })
          db.uploads;
  }

  unfoldable pub set_error_status : String → Database
  unfolding update_upload
  set_error_status error = record db {
    tilesets =
        update_where build
          (λ t. record t { status = TilesetStatus.error; build_job_id = none; updated_at = now })
          db.tilesets;
    uploads =
        update_upload (any_where build db.tilesets) upload_id
          (λ u. record u {
            status = UploadStatus.error;
            validation_result = some (message (caught error));
            updated_at = now;
          })
          db.uploads;
  }

  -- `canceledTilesetStatusExpression`
  abbrev canceled_tileset_status : Option ℕ → TilesetStatus
  canceled_tileset_status none = TilesetStatus.draft
  canceled_tileset_status (some version) = TilesetStatus.ready

  unfoldable pub set_canceled_status : Database
  unfolding update_upload
  set_canceled_status = record db {
    tilesets =
        update_where build
          (λ t. record t {
            status = canceled_tileset_status t.current_version_id;
            build_job_id = none;
            updated_at = now;
          })
          db.tilesets;
    uploads =
        update_upload (any_where build db.tilesets) upload_id
          (λ u. record u {
            status = UploadStatus.uploaded;
            linked_tileset_id = some tileset_id;
            updated_at = now;
          })
          db.uploads;
  }

-- A value that is undefined sets no column.
unfoldable pub update_progress : ℕ → ℕ → Option Json → ℕ → Database → Database
update_progress job_id progress none now db = record db {
  jobs =
      update_where (active_processing_job job_id)
        (λ j. record j { progress = progress; updated_at = now }) db.jobs;
}
update_progress job_id progress (some output) now db = record db {
  jobs =
      update_where (active_processing_job job_id)
        (λ j. record j { progress = progress; output = some output; updated_at = now }) db.jobs;
}

unfoldable pub log_processing_job : ℕ → String → LogMetadata → LogLevel → Database → Database
log_processing_job job_id text metadata level db = record db {
  logs =
      db.logs
      ++ record { job_id = job_id; level = level; message = text; metadata = metadata } ∷ [];
}

unfoldable pub mark_processing_job_started : ℕ → ℕ → Database → Database
mark_processing_job_started job_id now db = record db {
  jobs =
      update_where (active_processing_job job_id)
        (λ j. record j { status = JobStatus.processing; started_at = some now; updated_at = now })
        db.jobs;
}

unfoldable pub mark_processing_job_failed : ℕ → String → ℕ → Database → Database
mark_processing_job_failed job_id error now db = record db {
  jobs =
      update_where (active_processing_job job_id)
        (λ j. record j {
          status = JobStatus.failed;
          error_code = some "PROCESSING_FAILED";
          error_message = some (caught error);
          completed_at = some now;
          updated_at = now;
        })
        db.jobs;
}

-- The second argument is the time that the error carries.
unfoldable pub mark_processing_job_canceled : Option ℕ → Option ℕ → ℕ → Database → Database
unfolding log_processing_job
mark_processing_job_canceled none requested_at now db = db
mark_processing_job_canceled (some job_id) requested_at now db =
    log_processing_job job_id "Geodata processing canceled" (cancel_requested requested_at) warn
      (record db {
        jobs =
            update_where (λ j. j.id == job_id && is_active_or_canceled j.status)
              (λ j. record j {
                status = JobStatus.canceled;
                error_code = none;
                error_message = none;
                completed_at = some now;
                updated_at = now;
              })
              db.jobs;
      })

-- `throwIfCancellationRequested` returns, or throws a `ProcessingJobCanceledError` with a time.
pub data Checked : Type 0 where
  goes_on : Checked
  throws : Option ℕ → Checked

check_job : Option ProcessingJob → Checked
check_job none = throws none
check_job (some j) =
    if not (is_active j.status)
    then throws j.cancel_requested_at
    else if is_some j.cancel_requested_at
    then throws j.cancel_requested_at
    else goes_on

unfoldable pub throw_if_cancellation_requested : ℕ → Database → Checked
unfolding check_job
throw_if_cancellation_requested job_id db = check_job (find_where (λ j. j.id == job_id) db.jobs)
