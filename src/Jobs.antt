-- ===== src/Jobs.antt =====
-- The processing jobs of the geodata worker and the tables that their life cycle writes:
-- packages/database/src/schema/geodata.ts, with the columns that the modelled code reads or writes.
-- Ids are naturals and times are milliseconds. A statement's readings of the clock are one argument,
-- which the column's `$onUpdate` takes where a statement does not set `updatedAt`.
pub mod Status
pub mod Lifecycle
pub mod Finalize
pub mod Reconcile
pub mod Runs
mod Tests
use planisfy.Common.{ℕ, String, Bool, true, false, Option, List}
use planisfy.Common.Json.{Json}

pub data JobStatus : Type 0 where
  pending processing succeeded failed canceled : JobStatus

pub data TilesetStatus : Type 0 where
  draft building ready error archived : TilesetStatus

pub data UploadStatus : Type 0 where
  pending uploaded validating ready error : UploadStatus

-- `staleReason` of packages/database/src/jobs/reconciliation.ts: its three texts, which name the
-- number of milliseconds.
pub data StaleReason : Type 0 where
  no_queue_job_or_heartbeat no_queue_job no_heartbeat : ℕ → StaleReason

-- The message of a caught error, or the reason for which a stale job was failed.
pub data Message : Type 0 where
  caught : String → Message
  stale : StaleReason → Message

pub record ProcessingJob : Type 0 where
  pub id : ℕ
  pub account_id : ℕ
  pub job_type : String
  pub status : JobStatus
  pub progress : ℕ
  pub input : Option Json
  pub output : Option Json
  pub error_code : Option String
  pub error_message : Option Message
  pub cancel_requested_at : Option ℕ
  pub started_at : Option ℕ
  pub completed_at : Option ℕ
  pub updated_at : ℕ

pub record Tileset : Type 0 where
  pub id : ℕ
  pub account_id : ℕ
  pub status : TilesetStatus
  pub bounds : Option Json
  pub min_zoom : Option ℕ
  pub max_zoom : Option ℕ
  pub layer_metadata : Option Json
  pub deleted_at : Option ℕ
  pub current_version_id : Option ℕ
  pub build_job_id : Option ℕ
  pub updated_at : ℕ

-- The objects that are written to `validationResult`.
pub data ValidationResult : Type 0 where
  message : Message → ValidationResult
  rejected : String → Message → ValidationResult
  validation : Json → ValidationResult

pub record Upload : Type 0 where
  pub id : ℕ
  pub account_id : ℕ
  pub status : UploadStatus
  pub linked_tileset_id : Option ℕ
  pub validation_result : Option ValidationResult
  pub updated_at : ℕ

pub record SourceImport : Type 0 where
  pub id : ℕ
  pub processing_job_id : Option ℕ
  pub status : JobStatus
  pub error_code : Option String
  pub error_message : Option Message
  pub updated_at : ℕ

pub data LogLevel : Type 0 where
  info warn err : LogLevel

pub data LogMetadata : Type 0 where
  no_metadata : LogMetadata
  json : Json → LogMetadata
  cancel_requested : Option ℕ → LogMetadata
  reconciled : StaleReason → ℕ → Option String → Bool → LogMetadata

pub record JobLog : Type 0 where
  pub job_id : ℕ
  pub level : LogLevel
  pub message : String
  pub metadata : LogMetadata

-- The columns of `storageObjects` that the end of a build reads or writes.
pub record BuildArtifact : Type 0 where
  pub id : ℕ
  pub account_id : Option ℕ
  pub processing_job_id : Option ℕ
  pub deleted_at : Option ℕ
  pub updated_at : ℕ

pub data TileArtifactFormat : Type 0 where
  pmtiles mbtiles directory external : TileArtifactFormat

pub record TilesetVersion : Type 0 where
  pub id : ℕ
  pub tileset_id : ℕ
  pub version : ℕ
  pub artifact_storage_object_id : ℕ
  pub format : TileArtifactFormat
  pub build_job_id : Option ℕ
  pub schema : Json
  pub bounds : Option Json
  pub min_zoom : ℕ
  pub max_zoom : ℕ

-- The event `artifact.cleanup.requested` that is inserted.
pub record CleanupRequest : Type 0 where
  pub storage_object_id : ℕ
  pub reason : String

pub record Database : Type 0 where
  pub jobs : List ProcessingJob
  pub tilesets : List Tileset
  pub uploads : List Upload
  pub source_imports : List SourceImport
  pub logs : List JobLog
  pub storage_objects : List BuildArtifact
  pub tileset_versions : List TilesetVersion
  pub cleanup_requests : List CleanupRequest

-- `inArray(status, ["PENDING", "PROCESSING"])`
abbrev pub is_active : JobStatus → Bool
is_active pending = true
is_active processing = true
is_active _ = false

abbrev pub is_active_or_canceled : JobStatus → Bool
is_active_or_canceled canceled = true
is_active_or_canceled s = is_active s
