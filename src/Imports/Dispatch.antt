-- ===== src/Imports/Dispatch.antt =====
-- `dispatchSourceImportRequested` of apps/worker-geodata/src/domains/outbox/outbox-dispatcher.ts, up
-- to the automatic tileset build behind a success.
use planisfy.Common.{ℕ, String, Bool, Option, none, some, or_else}
use planisfy.Imports.{
  Features, ImportJob, ImportOutput, ImportStore, ImportPayload, Raised, import_canceled,
  import_failed, Step, done, raised,
}
use planisfy.Imports.Marks.{
  job_of, throw_if_source_import_canceled, mark_source_import_processing,
  mark_source_import_succeeded, mark_source_import_failed, mark_source_import_canceled,
}
use planisfy.Imports.Artifacts.{
  StoredArtifact, store_dataset_artifact, request_dataset_artifact_cleanup,
}

-- What `parseOvertureImportInput` and `runOvertureImport` give.
pub data Extracted : Type 0 where
  extracted : Features → Extracted
  threw : Raised → Extracted

-- What a run meets: what others commit before each of its steps, by the step's number, and what the
-- extraction and the storage answer; and the ids and the time that it uses.
pub record Surroundings : Type 0 where
  pub others : ℕ → ImportStore → ImportStore
  pub extraction : Extracted
  pub accepts : Bool
  pub object_id : ℕ
  pub version_id : ℕ
  pub now : ℕ

-- The event fails if the job is not found; otherwise the dispatch returns.
pub data Dispatched : Type 0 where
  job_not_found : ImportStore → Dispatched
  returned : ImportStore → Dispatched

unfoldable pub and_then : {A B : Type 0} → Step A → (A → ImportStore → Step B) → Step B
and_then (done x db) next = next x db
and_then (raised e db) next = raised e db

module _ (dataset_key : (account_id dataset_id version : ℕ) → String) (payload : ImportPayload)
    (run : Surroundings) where
  unfoldable pub store_extracted : Extracted → ImportStore → Step (StoredArtifact × Features)
  unfolding and_then store_dataset_artifact throw_if_source_import_canceled
  store_extracted (threw e) db = raised e db
  store_extracted (extracted features) db =
      and_then (throw_if_source_import_canceled payload run.now db) (λ _ checked.
        and_then
          (store_dataset_artifact dataset_key payload features run.object_id run.version_id run.now
            run.accepts (run.others 4) (run.others 5) (run.others 3 checked))
          (λ stored db'. done (stored, features) db'))

  -- The `try` block up to the storing of the artifact.
  unfoldable pub until_stored : ImportJob → ImportStore → Step (StoredArtifact × Features)
  unfolding store_extracted mark_source_import_processing
  until_stored job db = and_then (throw_if_source_import_canceled payload run.now db) (λ _ checked.
      and_then
        (mark_source_import_processing payload run.now (or_else job.started_at run.now)
          (run.others 1 checked))
        (λ _ marked. store_extracted run.extraction (run.others 2 marked)))

  abbrev pub output_of : StoredArtifact → Features → ImportOutput
  output_of stored features = record {
    import_id = payload.import_id;
    dataset_id = payload.dataset_id;
    storage_key = stored.storage_key;
    storage_object_id = stored.storage_object_id;
    dataset_version_id = stored.dataset_version_id;
    version = stored.version;
    features = features;
  }

  -- The `try` block behind the storing.
  unfoldable pub finalize : StoredArtifact → Features → ImportStore → Step Unit
  unfolding and_then throw_if_source_import_canceled mark_source_import_succeeded
  finalize stored features db =
      and_then (throw_if_source_import_canceled payload run.now (run.others 6 db)) (λ _ checked.
        mark_source_import_succeeded payload run.now (output_of stored features)
          (run.others 7 checked))

  abbrev reason_of : Raised → String
  reason_of (import_canceled at) = "source_import_canceled"
  reason_of (import_failed message) = "source_import_finalization_failed"

  unfoldable pub mark_raised : Raised → ImportStore → ImportStore
  unfolding mark_source_import_canceled mark_source_import_failed
  mark_raised (import_canceled at) db = mark_source_import_canceled payload run.now db
  mark_raised (import_failed message) db = mark_source_import_failed payload run.now message db

  -- The `catch` block, with the artifact if it was stored.
  unfoldable pub catch_raised : Option StoredArtifact → Raised → ImportStore → ImportStore
  unfolding mark_raised request_dataset_artifact_cleanup
  catch_raised none e db = mark_raised e (run.others 8 db)
  catch_raised (some stored) e db = mark_raised e (
      run.others 9
        (request_dataset_artifact_cleanup stored (reason_of e) run.now (run.others 8 db)))

  unfoldable pub finished : StoredArtifact → Step Unit → ImportStore
  unfolding catch_raised
  finished stored (done _ db) = db
  finished stored (raised e db) = catch_raised (some stored) e db

  unfoldable pub stored_or_raised : Step (StoredArtifact × Features) → ImportStore
  unfolding finished finalize catch_raised
  stored_or_raised (raised e db) = catch_raised none e db
  stored_or_raised (done (stored, features) db) = finished stored (finalize stored features db)

  with_job : Option ImportJob → ImportStore → Dispatched
  unfolding stored_or_raised until_stored
  with_job none db = job_not_found db
  with_job (some job) db = returned (stored_or_raised (until_stored job (run.others 0 db)))

  unfoldable pub dispatch_source_import_requested : ImportStore → Dispatched
  unfolding with_job
  dispatch_source_import_requested db = with_job (job_of payload.job_id db) db
