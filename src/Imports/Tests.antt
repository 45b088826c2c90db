-- ===== src/Imports/Tests.antt =====
-- Imports of apps/worker-geodata/src/domains/outbox/outbox-dispatcher.ts into one dataset.
use planisfy.Common.{
  ℕ, String, true, false, none, some, [], ◌∷◌, ◌≡◌, refl, ◌⊎◌, ◌==◌, All, if◌then◌else◌,
}
use planisfy.Common.Table.{any_where, select_where, find_where}
use planisfy.Jobs.{JobStatus}
use planisfy.Imports.{
  DatasetStatus, Features, ImportJob, ImportStore, ImportPayload, SourceImport, StorageObject,
  has_file, import_failed, raised,
}
use planisfy.Imports.Artifacts.{has_object, next_dataset_version, store_dataset_artifact}
use planisfy.Imports.{done}
use planisfy.Imports.Cleanup.{
  of_object, is_selected, is_reused, dispatch_artifact_cleanup_requested,
  dispatch_artifact_cleanup_requested-loses_file,
}
use planisfy.Jobs.{TilesetStatus}
use planisfy.Imports.AutoBuild.{
  TargetTileset, BuildTables, no_target, queue_build, queue_target_tileset_build_from_import,
  Queueing, queue_build-Queueing,
}
use planisfy.Imports.Dispatch.{Surroundings, returned, extracted, dispatch_source_import_requested}
use planisfy.Imports.Race.{
  next_key, uploaded, store_dataset_artifact-loses_file, dispatch_source_import_requested-repeated,
}
use planisfy.Imports.Outcomes.{Ending, dispatch_source_import_requested-Ending}

abbrev features : Features
features = record { bounds = none; feature_count = some 12; schema_summary = none }

abbrev job : JobStatus → ImportJob
job status = record {
  id = 3;
  status = status;
  progress = 0;
  output = none;
  error_code = none;
  error_message = none;
  cancel_requested_at = none;
  started_at = none;
  completed_at = none;
  updated_at = 10;
}

abbrev store : JobStatus → ImportStore
store status = record {
  jobs = job status ∷ [];
  imports =
      record {
        id = 4;
        status = status;
        output = none;
        error_code = none;
        error_message = none;
        updated_at = 10;
      }
      ∷ [];
  datasets =
      record {
        id = 5;
        status = DatasetStatus.draft;
        features = features;
        current_version_id = none;
        updated_at = 10;
      }
      ∷ [];
  versions = [];
  objects = [];
  logs = [];
  cleanups = [];
  files = [];
}

abbrev payload : ImportPayload
payload = record { account_id = 1; job_id = 3; import_id = 4; dataset_id = 5 }

abbrev key_of : ℕ → ℕ → ℕ → String
key_of account_id dataset_id version =
    if version == 1 then "accounts/1/datasets/5/v1/f" else "other"

abbrev alone : Surroundings
alone = record {
  others = λ n db. db;
  extraction = extracted features;
  accepts = true;
  object_id = 40;
  version_id = 50;
  now = 100;
}

-- The object that another import has recorded meanwhile.
abbrev other_object : StorageObject
other_object = record {
  id = 41;
  account_id = 1;
  storage_key = "accounts/1/datasets/5/v1/f";
  resource_type = "dataset";
  resource_id = 5;
  processing_job_id = some 9;
  deleted_at = none;
  updated_at = 90;
}

abbrev overtaken : ImportStore → ImportStore
overtaken db = record db { objects = other_object ∷ db.objects }

met_other :
    any_where
      (has_object (next_key key_of payload (store JobStatus.pending)))
      (uploaded key_of payload (λ db. db) overtaken (store JobStatus.pending)).objects
    ≡ true
unfolding next_dataset_version select_where any_where
met_other = refl

store_dataset_artifact-loses_file_example :
    (db' : ImportStore) × (store_dataset_artifact key_of payload features 40 50 100 true
        (λ db. db)
        overtaken
        (store JobStatus.pending)
      ≡ raised (import_failed "duplicate key") db')
    × (any_where (has_object (next_key key_of payload (store JobStatus.pending))) db'.objects
        ≡ true)
    × (has_file (next_key key_of payload (store JobStatus.pending)) db'.files ≡ false)
store_dataset_artifact-loses_file_example =
    store_dataset_artifact-loses_file key_of payload features 40 50 100 (λ db. db) overtaken
      (store JobStatus.pending) met_other

found :
    find_where (λ (j : ImportJob). j.id == 3) (job JobStatus.succeeded ∷ [])
    ≡ some (job JobStatus.succeeded)
unfolding find_where
found = refl

dispatch_source_import_requested-repeated_example :
    (db' : ImportStore) × (dispatch_source_import_requested key_of payload alone
        (store JobStatus.succeeded)
      ≡ returned db')
    × All (λ (i : SourceImport). (i.id == 4 ≡ false) ⊎ (i.status ≡ JobStatus.canceled)) db'.imports
dispatch_source_import_requested-repeated_example =
    dispatch_source_import_requested-repeated key_of payload alone (store JobStatus.succeeded)
      (job JobStatus.succeeded) (job JobStatus.succeeded) found found refl

dispatch_source_import_requested-Ending_example :
    Ending payload 50 alone.now
      (store JobStatus.pending)
      (dispatch_source_import_requested key_of payload alone (store JobStatus.pending))
dispatch_source_import_requested-Ending_example =
    dispatch_source_import_requested-Ending payload key_of alone (store JobStatus.pending)

-- An object of an import that was canceled, and one of the next import with the same version and key.
abbrev canceled_object : StorageObject
canceled_object = record other_object { id = 42; processing_job_id = some 8; deleted_at = some 95 }

abbrev reused : ImportStore
reused = record (store JobStatus.pending) {
  objects = canceled_object ∷ other_object ∷ [];
  files = "accounts/1/datasets/5/v1/f" ∷ [];
}

named_object : select_where (is_selected (of_object 42)) reused.objects ≡ canceled_object ∷ []
unfolding select_where
named_object = refl

key_reused : any_where (is_reused (λ key. true) 100 canceled_object) reused.objects ≡ true
unfolding any_where
key_reused = refl

dispatch_artifact_cleanup_requested-loses_file_example :
    (db' : ImportStore) × (dispatch_artifact_cleanup_requested
        (λ key. true)
        100
        (of_object 42)
        reused
      ≡ done tt db')
    × (any_where (is_reused (λ key. true) 100 canceled_object) db'.objects ≡ true)
    × (has_file "accounts/1/datasets/5/v1/f" db'.files ≡ false)
dispatch_artifact_cleanup_requested-loses_file_example =
    dispatch_artifact_cleanup_requested-loses_file (λ key. true) 100 canceled_object [] reused
      named_object refl key_reused

abbrev rivers : TargetTileset
rivers = record {
  id = 6;
  account_id = 1;
  status = TilesetStatus.draft;
  min_zoom = none;
  max_zoom = some 12;
  build_job_id = none;
  deleted_at = none;
  updated_at = 10;
}

abbrev tables : BuildTables
tables = record { jobs = []; tilesets = rivers ∷ []; events = []; logs = [] }

deleted_target :
    queue_target_tileset_build_from_import 1 50 9 100 none
      (λ db. db)
      (some (record { target_tileset_id = some 6; processing_job_id = some 3 }))
      (record tables { tilesets = record rivers { deleted_at = some 20 } ∷ [] })
    ≡ no_target
        (record tables { tilesets = record rivers { deleted_at = some 20 } ∷ []; logs = 3 ∷ [] })
unfolding queue_target_tileset_build_from_import find_where
deleted_target = refl

queue_build-Queueing_example :
    Queueing 1 50 9 100 (some 2) rivers tables (queue_build 1 50 9 100 (some 2) rivers tables)
queue_build-Queueing_example = queue_build-Queueing 1 50 9 100 (some 2) rivers tables
