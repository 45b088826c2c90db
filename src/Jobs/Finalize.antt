-- ===== src/Jobs/Finalize.antt =====
-- apps/worker-geodata/src/domains/tilesets/tileset-artifacts.ts: `finalizeProcessedArtifact`, the
-- transaction in which a build succeeds, and what the worker writes when it throws. Beside it, the
-- upload write of apps/worker-geodata/src/domains/sources/source-worker.ts.
pub mod Commit
use planisfy.Common.{
  ℕ, ◌+◌, max, String, Bool, true, false, ◌&&◌, ◌||◌, leb, not, Option, none, some, List, [], ◌∷◌,
  ◌++◌, if◌then◌else◌, ◌==◌, is_none, is_some, is_at, or_else, ◌≡◌, refl, inl, inr, Option-cases,
  Bool-cases, Pointwise, Pointwise-refl, ◌⊎◌, ◌∙◌, ◌||◌, sym,
}
use text.Mathlib.Text.{◌==◌ as str_eq}
use planisfy.Common.Json.{Json, null, number, str, array, object, nil, cons, Fields, end, field}
use planisfy.Common.Table.{
  update_where, any_where, find_where, select_where, update_where-Pointwise,
}
use planisfy.Jobs.{
  JobStatus, TilesetStatus, UploadStatus, validation, ProcessingJob, Tileset, Upload, BuildArtifact,
  TileArtifactFormat, pmtiles, mbtiles, directory, TilesetVersion, Database, info, json, is_active,
}
use planisfy.Jobs.Lifecycle.{active_processing_job, active_tileset_build, log_processing_job}

-- `bounds` and `fallback` may be undefined, and `bounds` may be null.
pub record Finalization : Type 0 where
  pub owner_id : ℕ
  pub tileset_id : ℕ
  pub upload_id : Option ℕ
  pub processing_job_id : Option ℕ
  pub storage_object_id : ℕ
  pub storage_key : String
  pub artifact_format : String
  pub size : ℕ
  pub min_zoom : ℕ
  pub max_zoom : ℕ
  pub bounds : Option (Option Json)
  pub fallback : Option String

abbrev pub upload_vector_layer_id : String
upload_vector_layer_id = "data"

-- What it returns or throws.
pub data Finalized : Type 0 where
  created : TilesetVersion → Finalized
  job_canceled : Option ℕ → Finalized
  no_artifact version_refused no_job_id : Finalized

abbrev pub tile_artifact_format : String → TileArtifactFormat
tile_artifact_format format =
    if str_eq format "pmtiles"
    then pmtiles
    else if str_eq format "mbtiles"
    then mbtiles
    else directory

abbrev latest_of : List TilesetVersion → ℕ
latest_of [] = 0
latest_of (v ∷ versions) = max v.version (latest_of versions)

-- A key whose value is undefined is left out of the stored object.
abbrev optional_field : String → Option String → Fields → Fields
optional_field key none rest = rest
optional_field key (some s) rest = field key (str s) rest

module _ (id_text : ℕ → String) (params : Finalization) (new_id now : ℕ) where
  abbrev pub schema : Json
  schema = object (
      field "vector_layers"
        (array (
          cons
            (object (
              field "id" (str upload_vector_layer_id) (
                field "fields" (object end) (
                  field "minzoom" (number params.min_zoom)
                    (field "maxzoom" (number params.max_zoom) end)))))
            nil))
        (optional_field "fallback" params.fallback end))

  abbrev output : TilesetVersion → Json
  output version = object (
      field "tilesetId" (str (id_text params.tileset_id)) (
        field "tilesetVersionId" (str (id_text version.id)) (
          field "version" (number version.version) (
            field "storageKey" (str params.storage_key) (
              field "size" (number params.size) (
                field "minZoom" (number params.min_zoom) (
                  field "maxZoom" (number params.max_zoom)
                    (optional_field "fallback" params.fallback end))))))))

  abbrev new_version : ℕ → Database → TilesetVersion
  new_version job_id db = record {
    id = new_id;
    tileset_id = params.tileset_id;
    version =
        latest_of (select_where (λ v. v.tileset_id == params.tileset_id) db.tileset_versions) + 1;
    artifact_storage_object_id = params.storage_object_id;
    format = tile_artifact_format params.artifact_format;
    build_job_id = some job_id;
    schema = schema;
    bounds = or_else params.bounds none;
    min_zoom = params.min_zoom;
    max_zoom = params.max_zoom;
  }

  abbrev with_bounds : Option (Option Json) → Tileset → Tileset
  with_bounds none t = t
  with_bounds (some bounds) t = record t { bounds = bounds }

  abbrev linked_upload : Option ℕ → List Upload → List Upload
  linked_upload none uploads = uploads
  linked_upload (some upload_id) uploads =
      update_where (λ u. u.id == upload_id && u.account_id == params.owner_id)
        (λ u. record u {
          status = UploadStatus.ready;
          linked_tileset_id = some params.tileset_id;
          updated_at = now;
        })
        uploads

  abbrev succeeded_row : TilesetVersion → ProcessingJob → ProcessingJob
  succeeded_row version j = record j {
    status = JobStatus.succeeded;
    progress = 100;
    output = some (output version);
    completed_at = some now;
    updated_at = now;
  }

  -- The writes of the transaction, where all of its guards hold.
  unfoldable pub committed : (job_id : ℕ) → TilesetVersion → Database → Database
  unfolding log_processing_job
  committed job_id version db =
      log_processing_job job_id "Geodata artifact finalized" (json (output version)) info
        (record db {
          tileset_versions = db.tileset_versions ++ version ∷ [];
          tilesets =
              update_where (active_tileset_build params.tileset_id (some job_id))
                (λ t. with_bounds params.bounds (record t {
                  status = TilesetStatus.ready;
                  min_zoom = some params.min_zoom;
                  max_zoom = some params.max_zoom;
                  layer_metadata = some schema;
                  build_job_id = none;
                  updated_at = now;
                }))
                db.tilesets;
          uploads = linked_upload params.upload_id db.uploads;
          jobs = update_where (active_processing_job job_id) (succeeded_row version) db.jobs;
        })

  -- The two updates that must find a row.
  abbrev update_rows : ℕ → Database → Finalized × Database
  update_rows job_id db =
      if not (any_where (active_tileset_build params.tileset_id (some job_id)) db.tilesets)
      then (job_canceled none, db)
      else if not (any_where (active_processing_job job_id) db.jobs)
      then (job_canceled none, db)
      else (created (new_version job_id db), committed job_id (new_version job_id db) db)

  -- The insertion of the version fails by the unique index on the build's job, or by the check of the
  -- zooms; the number of the version is new.
  abbrev is_refused : ℕ → Database → Bool
  is_refused job_id db =
      any_where (λ v. is_at v.build_job_id job_id) db.tileset_versions
      || not (leb params.min_zoom params.max_zoom && leb params.max_zoom 24)

  abbrev with_artifact : ℕ → Option BuildArtifact → Database → Finalized × Database
  with_artifact job_id none db = (no_artifact, db)
  with_artifact job_id (some artifact) db =
      if is_refused job_id db then (version_refused, db) else update_rows job_id db

  abbrev is_artifact : ℕ → BuildArtifact → Bool
  is_artifact job_id o =
      o.id == params.storage_object_id
      && (is_at o.account_id params.owner_id
          && (is_at o.processing_job_id job_id && is_none o.deleted_at))

  abbrev with_own_tileset : ℕ → Option Tileset → Database → Finalized × Database
  with_own_tileset job_id none db = (job_canceled none, db)
  with_own_tileset job_id (some tileset) db =
      if not (is_at tileset.build_job_id job_id)
      then (job_canceled none, db)
      else with_artifact job_id (find_where (is_artifact job_id) db.storage_objects) db

  abbrev is_own_tileset : Tileset → Bool
  is_own_tileset t =
      t.id == params.tileset_id && (t.account_id == params.owner_id && is_none t.deleted_at)

  abbrev with_own_job : ℕ → Option ProcessingJob → Database → Finalized × Database
  with_own_job job_id none db = (job_canceled none, db)
  with_own_job job_id (some job) db =
      if not (is_active job.status) || is_some job.cancel_requested_at
      then (job_canceled job.cancel_requested_at, db)
      else with_own_tileset job_id (find_where is_own_tileset db.tilesets) db

  -- The transaction; one that throws leaves the database as it was.
  unfoldable pub finalize_in_transaction : (job_id : ℕ) → Database → Finalized × Database
  unfolding committed
  finalize_in_transaction job_id db =
      with_own_job job_id
        (find_where (λ j. j.id == job_id && j.account_id == params.owner_id) db.jobs) db

  unfoldable pub request_artifact_cleanup : String → Database → Database
  request_artifact_cleanup reason db = record db {
    storage_objects =
        update_where (λ o. o.id == params.storage_object_id)
          (λ o. record o { deleted_at = some now; updated_at = now }) db.storage_objects;
    cleanup_requests =
        db.cleanup_requests
        ++ record { storage_object_id = params.storage_object_id; reason = reason } ∷ [];
  }

  -- What the `catch` block does.
  abbrev clean_up : (Database → Database) → Finalized → Database → Database
  clean_up meanwhile (created version) db = db
  clean_up meanwhile (job_canceled at) db =
      request_artifact_cleanup "build_canceled_or_superseded" (meanwhile db)
  clean_up meanwhile _ db = request_artifact_cleanup "finalization_failed" (meanwhile db)

  -- `meanwhile` is what others commit between the transaction and the cleanup.
  unfoldable pub finalize_processed_artifact :
      (meanwhile : Database → Database) → Database → Finalized × Database
  unfolding finalize_in_transaction request_artifact_cleanup
  finalize_processed_artifact meanwhile db = elim params.processing_job_id [
    | none ↦ (no_job_id, request_artifact_cleanup "missing_processing_job" db)
    | some job_id ↦
        let (result, db') = finalize_in_transaction job_id db in
        (result, clean_up meanwhile result db')
  ]

-- `db.update(uploads)` in the source worker, once the upload's file is validated: it asks for nothing
-- but the id.
unfoldable pub mark_upload_validated : (upload_id : ℕ) → Json → (now : ℕ) → Database → Database
mark_upload_validated upload_id result now db = record db {
  uploads =
      update_where (λ u. u.id == upload_id)
        (λ u. record u {
          status = UploadStatus.ready;
          validation_result = some (validation result);
          updated_at = now;
        })
        db.uploads;
}
