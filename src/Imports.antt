-- ===== src/Imports.antt =====
-- Imports of source data into datasets: the event `source.import.requested` of
-- apps/worker-geodata/src/domains/outbox/outbox-dispatcher.ts, over the tables of
-- packages/database/src/schema/geodata.ts that it writes, and the keys of the files in the storage.
-- A transaction is atomic; one that throws leaves the tables as they were.
pub mod Marks
pub mod Artifacts
pub mod Dispatch
pub mod Race
pub mod Cleanup
pub mod AutoBuild
pub mod Outcomes
mod Tests
use text.Mathlib.Text.{◌==◌ as str_eq}
use planisfy.Common.{
  ℕ, String, Bool, true, false, not, ◌&&◌, ◌||◌, Option, none, some, List, if◌then◌else◌, ◌==◌,
  is_none,
}
use planisfy.Common.Json.{Json}
use planisfy.Common.Table.{any_where, delete_where}
use planisfy.Jobs.{JobStatus, ProcessingJob, LogLevel}

pub data DatasetStatus : Type 0 where
  draft ready error archived : DatasetStatus

-- The columns of a result: `bounds`, `featureCount` and `schemaSummary`.
pub record Features : Type 0 where
  pub bounds : Option Json
  pub feature_count : Option ℕ
  pub schema_summary : Option Json

pub record Dataset : Type 0 where
  pub id : ℕ
  pub status : DatasetStatus
  pub features : Features
  pub current_version_id : Option ℕ
  pub updated_at : ℕ

pub record DatasetVersion : Type 0 where
  pub id : ℕ
  pub dataset_id : ℕ
  pub version : ℕ
  pub storage_object_id : Option ℕ
  pub features : Features

pub record StorageObject : Type 0 where
  pub id : ℕ
  pub account_id : ℕ
  pub storage_key : String
  pub resource_type : String
  pub resource_id : ℕ
  pub processing_job_id : Option ℕ
  pub deleted_at : Option ℕ
  pub updated_at : ℕ

-- What is written as the output of an import and of its job.
pub record ImportOutput : Type 0 where
  pub import_id : ℕ
  pub dataset_id : ℕ
  pub storage_key : String
  pub storage_object_id : ℕ
  pub dataset_version_id : ℕ
  pub version : ℕ
  pub features : Features

pub record SourceImport : Type 0 where
  pub id : ℕ
  pub status : JobStatus
  pub output : Option ImportOutput
  pub error_code : Option String
  pub error_message : Option String
  pub updated_at : ℕ

-- A job, with the output that an import gives it.
pub record ImportJob : Type 0 where
  pub id : ℕ
  pub status : JobStatus
  pub progress : ℕ
  pub output : Option ImportOutput
  pub error_code : Option String
  pub error_message : Option String
  pub cancel_requested_at : Option ℕ
  pub started_at : Option ℕ
  pub completed_at : Option ℕ
  pub updated_at : ℕ

pub record ImportLog : Type 0 where
  pub job_id : ℕ
  pub level : LogLevel
  pub message : String

-- An event `artifact.cleanup.requested` of the outbox.
pub record CleanupEvent : Type 0 where
  pub storage_object_id : ℕ
  pub reason : String

pub record ImportStore : Type 0 where
  pub jobs : List ImportJob
  pub imports : List SourceImport
  pub datasets : List Dataset
  pub versions : List DatasetVersion
  pub objects : List StorageObject
  pub logs : List ImportLog
  pub cleanups : List CleanupEvent
  -- the keys of the storage
  pub files : List String

abbrev pub has_file : String → List String → Bool
has_file key files = any_where (λ f. str_eq f key) files

-- The errors of an import: `SourceImportCanceledError`, and any other.
pub data Raised : Type 0 where
  import_canceled : Option ℕ → Raised
  import_failed : String → Raised

-- What a step returns, or the error that it throws, and the store in either case.
pub data Step (A : Type 0) : Type 0 where
  done : A → ImportStore → Step A
  raised : Raised → ImportStore → Step A

pub record ImportPayload : Type 0 where
  pub account_id : ℕ
  pub job_id : ℕ
  pub import_id : ℕ
  pub dataset_id : ℕ
