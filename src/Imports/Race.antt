-- ===== src/Imports/Race.antt =====
-- Two imports into one dataset, and a dispatch that is repeated:
-- apps/worker-geodata/src/domains/outbox/outbox-dispatcher.ts.
use text.Mathlib.Text.{◌==◌ as str_eq}
use planisfy.Common.{
  ℕ, String, true, false, some, List, [], ◌∷◌, ◌≡◌, refl, ◌⊎◌, inl, inr, arith, Bool-cases, ◌==◌,
  All,
}
use planisfy.Common.Table.{any_where, delete_where, update_where-makes}
use planisfy.Jobs.{JobStatus, is_active}
use planisfy.Imports.{
  Features, ImportStore, ImportPayload, ImportJob, SourceImport, StorageObject, has_file,
  import_failed, raised,
}
use planisfy.Imports.Marks.{
  job_of, of_import, throw_if_source_import_canceled, mark_source_import_canceled,
}
use planisfy.Imports.Artifacts.{
  next_dataset_version, delete_file, has_object, object_clash, store_dataset_artifact,
}
use planisfy.Imports.Dispatch.{
  Surroundings, returned, and_then, until_stored, stored_or_raised, catch_raised, mark_raised,
  dispatch_source_import_requested,
}

pub delete_file-has_file :
    (key : String) (files : List String) → has_file key (delete_file key files) ≡ false
unfolding any_where delete_where
delete_file-has_file key [] = refl
delete_file-has_file key (f ∷ files) = elim (Bool-cases (str_eq f key)) [
  | inl e ↦ rw e (delete_file-has_file key files)
  | inr e ↦ rw (e, e) (delete_file-has_file key files)
]

has_object-clash :
    (job_id : ℕ) (key : String) (objects : List StorageObject)
    → any_where (has_object key) objects ≡ true
    → any_where (object_clash job_id key) objects ≡ true
unfolding any_where
has_object-clash job_id key [] h = cc
has_object-clash job_id key (o ∷ objects) h = elim (Bool-cases (has_object key o)) [
  | inl e ↦ rw e refl
  | inr e ↦ ground (arith, has_object-clash job_id key objects (rw e at h))
]

module _ (dataset_key : (account_id dataset_id version : ℕ) → String)
    (payload : ImportPayload) where
  abbrev pub next_key : ImportStore → String
  next_key db =
      dataset_key payload.account_id payload.dataset_id
        (next_dataset_version payload.dataset_id db.versions)

  -- What an upload leaves to the insertion.
  abbrev pub uploaded :
      (before_upload before_insert : ImportStore → ImportStore) → ImportStore → ImportStore
  uploaded before_upload before_insert db = before_insert (record (before_upload db) {
    files = next_key db ∷ delete_file (next_key db) (before_upload db).files;
  })

  -- If another import into the dataset commits its artifact under the same key before this one's
  -- insertion, this one fails and deletes the file under that key: the other's object stays in the
  -- table, not deleted, and its file is gone.
  pub store_dataset_artifact-loses_file :
      (features : Features) (object_id version_id now : ℕ)
      (before_upload before_insert : ImportStore → ImportStore) (db : ImportStore)
      → any_where (has_object (next_key db)) (uploaded before_upload before_insert db).objects
        ≡ true
      → (db' : ImportStore) × (store_dataset_artifact dataset_key payload features object_id
            version_id now true before_upload before_insert db
          ≡ raised (import_failed "duplicate key") db')
        × (any_where (has_object (next_key db)) db'.objects ≡ true)
        × (has_file (next_key db) db'.files ≡ false)
  unfolding store_dataset_artifact
  store_dataset_artifact-loses_file features object_id version_id now before_upload before_insert db
        h =
      let met = uploaded before_upload before_insert db in
      (
        record met { files = delete_file (next_key db) met.files },
        rw (has_object-clash payload.job_id (next_key db) met.objects h) refl,
        h,
        delete_file-has_file (next_key db) met.files,
      )

  module _ (run : Surroundings) where
    -- A dispatch that finds its job no longer pending or processing, as a repeated one does, marks
    -- the import as CANCELED whatever its status was, also behind a success.
    pub dispatch_source_import_requested-repeated :
        (db : ImportStore) (job job' : ImportJob)
        → job_of payload.job_id db ≡ some job
        → job_of payload.job_id (run.others 0 db) ≡ some job'
        → is_active job'.status ≡ false
        → (db' : ImportStore) × (dispatch_source_import_requested dataset_key payload run db
            ≡ returned db')
          × All
              (λ i. (i.id == payload.import_id ≡ false) ⊎ (i.status ≡ JobStatus.canceled))
              db'.imports
    unfolding dispatch_source_import_requested until_stored stored_or_raised
        throw_if_source_import_canceled and_then mark_source_import_canceled mark_raised
        catch_raised
    dispatch_source_import_requested-repeated db job job' found found' over =
        let met = run.others 8 (run.others 0 db) in
        (
          mark_source_import_canceled payload run.now met,
          rw (found, found', over) refl,
          update_where-makes
              (λ (i : SourceImport).
                (i.id == payload.import_id ≡ false) ⊎ (i.status ≡ JobStatus.canceled))
              (of_import payload run.now) _ met.imports (λ i e. inr refl) (λ i e. inl e),
        )
