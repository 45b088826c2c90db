-- ===== src/Jobs/Tests.antt =====
-- Jobs at a concrete database: runs of the modelled code, and the theorems applied.
use planisfy.Common.{
  ℕ, String, ◌≡◌, refl, ◌⊎◌, inl, inr, false, ◌&&◌, Option, none, some, [], ◌∷◌, Pointwise, ◌==◌,
}
use planisfy.Common.Json.{str, object, end, field, get_field}
use planisfy.Common.Table.{update_where, select_where, any_where, find_where, order_by}
use planisfy.Jobs.{JobStatus, TilesetStatus, UploadStatus, ProcessingJob, Tileset, Upload, Database}
use planisfy.Jobs.Status.{Evolves}
use planisfy.Jobs.Lifecycle.{
  set_processing_status, set_error_status, set_canceled_status, mark_processing_job_failed,
  throw_if_cancellation_requested, goes_on, throws, log_processing_job,
}
use planisfy.Jobs.Lifecycle.Jobs.{failed, started, write, Frozen, write-Frozen}
use planisfy.Jobs.Lifecycle.Builds.{superseded, first_outcome_stays}
use planisfy.Jobs.Finalize.{
  Finalization, job_canceled, schema, committed, finalize_in_transaction, request_artifact_cleanup,
  finalize_processed_artifact,
}
use planisfy.Jobs.Reconcile.{
  QueueJobLiveness, LivenessSource, should_reconcile_stale_processing_job, reconcile_job,
  still_stale, stale_reason, queue_liveness, parse_processing_job_resource_input,
  reconcile_stale_processing_jobs,
}
use planisfy.Jobs.Reconcile.Jobs.{Outcome, reconcile-Outcome, reconcile_job-takes_tileset}
use planisfy.Jobs.Runs.{wrote, canceled_job, finalized, reconciled, run, run-Evolves}

abbrev job : ℕ → JobStatus → ℕ → ProcessingJob
job i status updated_at = record {
  id = i;
  account_id = 1;
  job_type = "tiling";
  status = status;
  progress = 0;
  input = some (object (field "tilesetId" (str "t") end));
  output = none;
  error_code = none;
  error_message = none;
  cancel_requested_at = none;
  started_at = none;
  completed_at = none;
  updated_at = updated_at;
}

abbrev tileset : ℕ → Option ℕ → Option ℕ → Tileset
tileset i version build = record {
  id = i;
  account_id = 1;
  status = TilesetStatus.building;
  bounds = none;
  min_zoom = none;
  max_zoom = none;
  layer_metadata = none;
  deleted_at = none;
  current_version_id = version;
  build_job_id = build;
  updated_at = 0;
}

abbrev upload : Upload
upload = record {
  id = 7;
  account_id = 1;
  status = UploadStatus.validating;
  linked_tileset_id = none;
  validation_result = none;
  updated_at = 0;
}

abbrev base : Database
base = record {
  jobs =
      job 1 JobStatus.processing 10
      ∷ job 2 JobStatus.pending 5000000
      ∷ job 3 JobStatus.succeeded 10
      ∷ record (job 4 JobStatus.processing 20) { cancel_requested_at = some 15 }
      ∷ [];
  tilesets = tileset 5 none (some 1) ∷ tileset 6 (some 9) (some 2) ∷ [];
  uploads = upload ∷ [];
  source_imports = [];
  logs = [];
  storage_objects =
      record {
        id = 8;
        account_id = some 1;
        processing_job_id = some 1;
        deleted_at = none;
        updated_at = 0;
      }
      ∷ [];
  tileset_versions = [];
  cleanup_requests = [];
}

-- Every text of an input is the id 6 here, which another job builds.
abbrev read : String → ℕ
read s = 6

abbrev dead_queue : LivenessSource
dead_queue = some (λ i. none)

abbrev queue : QueueJobLiveness
queue = record { state = none; active = false }

jobs-tests : Unit {0}
unfolding set_processing_status set_error_status set_canceled_status mark_processing_job_failed
    throw_if_cancellation_requested reconcile_stale_processing_jobs update_where select_where
    any_where find_where order_by get_field reconcile_job stale_reason queue_liveness
    parse_processing_job_resource_input should_reconcile_stale_processing_job
jobs-tests = tt

job_tests :
    ((set_error_status 5 (some 7) (some 2) 30 base "no") ≡ base)
    × ((set_canceled_status 6 none (some 2) 30 base).tilesets
        ≡ tileset 5 none (some 1)
          ∷ record (tileset 6 (some 9) none) { status = TilesetStatus.ready; updated_at = 30 }
          ∷ [])
    × ((mark_processing_job_failed 4 "no" 30 base).jobs ≡ base.jobs)
    × (throw_if_cancellation_requested 1 base ≡ goes_on)
    × (throw_if_cancellation_requested 3 base ≡ throws none)
    × (throw_if_cancellation_requested 4 base ≡ throws (some 15))
unfolding jobs-tests
job_tests = (refl, refl, refl, refl, refl, refl)

-- Jobs 1 and 4 are stale at 4000000, and the first takes the tileset that job 2 builds with it.
reconcile_tests :
    let (r, db) =
      reconcile_stale_processing_jobs read 4000000 3600000 false dead_queue
        (λ i d. d)
        none
        none
        base in
    (r.scanned ≡ 2)
    × (r.reconciled ≡ 2)
    × (r.skipped_active ≡ 0)
    × (db.tilesets
        ≡ tileset 5 none (some 1)
          ∷ record (tileset 6 (some 9) (some 2)) {
            status = TilesetStatus.error;
            updated_at = 4000000;
          }
          ∷ [])
unfolding jobs-tests
reconcile_tests = (refl, refl, refl, refl)

reconcile-Outcome_example :
    Pointwise
      (Outcome read 4000000 3600000 false dead_queue)
      base.jobs
      (reconcile_stale_processing_jobs read 4000000 3600000 false dead_queue
        (λ i d. d)
        none
        none
        base).1.jobs
reconcile-Outcome_example = reconcile-Outcome read 4000000 3600000 false dead_queue none none base

reconcile_job-takes_tileset_example :
    Pointwise
      (λ t t'.
        (t.id == 6 ≡ false) × (t' ≡ t)
        ⊎ (t'.status ≡ TilesetStatus.error) × (t'.build_job_id ≡ t.build_job_id))
      base.tilesets
      (reconcile_job read 4000000 3600000 false
        (job 1 JobStatus.processing 10)
        queue
        base).1.tilesets
unfolding jobs-tests still_stale
reconcile_job-takes_tileset_example =
    reconcile_job-takes_tileset read 4000000 3600000 false (job 1 JobStatus.processing 10) queue
      base 6 refl refl

-- The success of job 1, which builds the tileset 5, and of job 2, which builds 6.
abbrev success : ℕ → ℕ → Finalization
success tileset_id job_id = record {
  owner_id = 1;
  tileset_id = tileset_id;
  upload_id = some 7;
  processing_job_id = some job_id;
  storage_object_id = 8;
  storage_key = "k";
  artifact_format = "pmtiles";
  size = 90;
  min_zoom = 0;
  max_zoom = 14;
  bounds = none;
  fallback = none;
}

run-Evolves_example :
    Pointwise Evolves base.jobs
      (run read
        (λ i. "id")
        (wrote started 1 40
          ∷ finalized (success 5 1) 1 30 60
          ∷ reconciled (job 1 JobStatus.processing 10) queue 4000000 3600000 false
          ∷ canceled_job (some 1) none 4000001
          ∷ [])
        base).jobs
run-Evolves_example =
    run-Evolves read (λ i. "id")
      (wrote started 1 40
        ∷ finalized (success 5 1) 1 30 60
        ∷ reconciled (job 1 JobStatus.processing 10) queue 4000000 3600000 false
        ∷ canceled_job (some 1) none 4000001
        ∷ [])
      base

write-Frozen_example : Pointwise Frozen base.jobs (write (failed "no") 1 30 base).jobs
write-Frozen_example = write-Frozen (failed "no") 1 30 base

superseded_example :
    (set_processing_status 6 (some 7) (some 1) 30 base ≡ base)
    × (set_error_status 6 (some 7) (some 1) 30 base "no" ≡ base)
    × (set_canceled_status 6 (some 7) (some 1) 30 base ≡ base)
superseded_example = superseded 6 1 (some 7) 30 base "no" (inl refl, (inr refl, tt))

abbrev text_of : ℕ → String
text_of i = "id"

finalize_tests :
    let (result, after) = finalize_processed_artifact text_of (success 5 1) 30 60 (λ d. d) base in
    (after.tilesets
      ≡ record (tileset 5 none none) {
        status = TilesetStatus.ready;
        min_zoom = some 0;
        max_zoom = some 14;
        layer_metadata = some (schema text_of (success 5 1) 30 60);
        updated_at = 60;
      }
        ∷ tileset 6 (some 9) (some 2)
        ∷ [])
    × (select_where (λ v. v.version == 1 && v.id == 30) after.tileset_versions
        ≡ after.tileset_versions)
    × ((finalize_processed_artifact text_of (success 6 1) 30 60 (λ d. d) base).0
        ≡ job_canceled none)
unfolding finalize_processed_artifact finalize_in_transaction committed log_processing_job
    request_artifact_cleanup update_where select_where any_where find_where
finalize_tests = (refl, refl, refl)

first_outcome_stays_example :
    let failed_ = set_error_status 6 (some 7) (some 2) 30 base "no" in
    let canceled_ = set_canceled_status 6 (some 7) (some 2) 30 base in
    (set_processing_status 6 (some 7) (some 2) 31 failed_ ≡ failed_)
    × (set_error_status 6 (some 7) (some 2) 31 failed_ "late" ≡ failed_)
    × (set_canceled_status 6 (some 7) (some 2) 31 failed_ ≡ failed_)
    × (set_processing_status 6 (some 7) (some 2) 31 canceled_ ≡ canceled_)
    × (set_error_status 6 (some 7) (some 2) 31 canceled_ "late" ≡ canceled_)
    × (set_canceled_status 6 (some 7) (some 2) 31 canceled_ ≡ canceled_)
    × ((finalize_in_transaction text_of (success 6 2) 30 31 2 failed_).1 ≡ failed_)
    × ((finalize_in_transaction text_of (success 6 2) 30 31 2 canceled_).1 ≡ canceled_)
first_outcome_stays_example =
    first_outcome_stays text_of (success 6 2) 30 6 2 (some 7) 30 31 base "no" "late" refl
