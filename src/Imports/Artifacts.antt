-- ===== src/Imports/Artifacts.antt =====
-- The artifact of an import: `nextDatasetVersion`, `storeDatasetArtifact` and
-- `requestDatasetArtifactCleanup` of apps/worker-geodata/src/domains/outbox/outbox-dispatcher.ts.
-- `dataset_key` is `StoragePaths.datasetVersion`; whether the storage takes an upload is an argument.
use text.Mathlib.Text.{◌==◌ as str_eq}
use planisfy.Common.{
  ℕ, ◌+◌, max, String, Bool, ◌&&◌, ◌||◌, none, some, List, [], ◌∷◌, ◌++◌, if◌then◌else◌, ◌==◌,
  is_none, is_at,
}
use planisfy.Common.Table.{update_where, any_where, select_where, delete_where}
use planisfy.Imports.{
  DatasetVersion, StorageObject, Features, ImportStore, ImportPayload, import_failed, Step, done,
  raised,
}

pub record StoredArtifact : Type 0 where
  pub storage_key : String
  pub storage_object_id : ℕ
  pub dataset_version_id : ℕ
  pub version : ℕ

-- `max(version)`, which is null for no row
unfoldable pub latest_version : List DatasetVersion → ℕ
latest_version [] = 0
latest_version (v ∷ rest) = max v.version (latest_version rest)

unfoldable pub next_dataset_version : (dataset_id : ℕ) → List DatasetVersion → ℕ
unfolding latest_version
next_dataset_version dataset_id versions =
    latest_version (select_where (λ v. v.dataset_id == dataset_id) versions) + 1

abbrev pub delete_file : String → List String → List String
delete_file key files = delete_where (λ f. str_eq f key) files

-- The unique indexes on the key and on the job of an object that is not deleted, and on the
-- version of a dataset.
abbrev pub has_object : String → StorageObject → Bool
has_object key o = is_none o.deleted_at && str_eq o.storage_key key

abbrev pub object_clash : (job_id : ℕ) → String → StorageObject → Bool
object_clash job_id key o =
    has_object key o || (is_none o.deleted_at && is_at o.processing_job_id job_id)

abbrev pub version_clash : (dataset_id version : ℕ) → DatasetVersion → Bool
version_clash dataset_id version v = v.dataset_id == dataset_id && v.version == version

module _ (dataset_key : (account_id dataset_id version : ℕ) → String) (payload : ImportPayload)
    (features : Features) (object_id version_id now : ℕ) where
  abbrev pub object : String → StorageObject
  object key = record {
    id = object_id;
    account_id = payload.account_id;
    storage_key = key;
    resource_type = "dataset";
    resource_id = payload.dataset_id;
    processing_job_id = some payload.job_id;
    deleted_at = none;
    updated_at = now;
  }

  abbrev dataset_version : ℕ → DatasetVersion
  dataset_version version = record {
    id = version_id;
    dataset_id = payload.dataset_id;
    version = version;
    storage_object_id = some object_id;
    features = features;
  }

  -- The transaction behind an upload, and the deletion of the file where it throws.
  unfoldable pub record_artifact : ℕ → String → ImportStore → Step StoredArtifact
  record_artifact version key db =
      if any_where (object_clash payload.job_id key) db.objects
        || any_where (version_clash payload.dataset_id version) db.versions
      then raised (import_failed "duplicate key") (record db { files = delete_file key db.files })
      else done
          (record {
            storage_key = key;
            storage_object_id = object_id;
            dataset_version_id = version_id;
            version = version;
          })
          (record db {
            objects = db.objects ++ object key ∷ [];
            versions = db.versions ++ dataset_version version ∷ [];
          })

  -- `before_upload` and `before_insert` are what others commit behind the reading of the version
  -- and behind the upload.
  unfoldable pub store_dataset_artifact :
      (accepts : Bool) (before_upload before_insert : ImportStore → ImportStore)
      → ImportStore
      → Step StoredArtifact
  unfolding record_artifact next_dataset_version
  store_dataset_artifact accepts before_upload before_insert db =
      let version = next_dataset_version payload.dataset_id db.versions in
      let key = dataset_key payload.account_id payload.dataset_id version in
      let taken = before_upload db in
      if accepts
      then record_artifact version key
          (before_insert (record taken { files = key ∷ delete_file key taken.files }))
      else raised (import_failed "upload failed") taken

unfoldable pub request_dataset_artifact_cleanup :
    StoredArtifact → (reason : String) → (now : ℕ) → ImportStore → ImportStore
request_dataset_artifact_cleanup stored reason now db = record db {
  versions = delete_where (λ v. v.id == stored.dataset_version_id) db.versions;
  objects =
      update_where (λ o. o.id == stored.storage_object_id)
        (λ o. record o { deleted_at = some now; updated_at = now }) db.objects;
  cleanups =
      db.cleanups ++ record { storage_object_id = stored.storage_object_id; reason = reason } ∷ [];
}
