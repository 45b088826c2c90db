-- ===== src/Imports/Outcomes.antt =====
-- How an import ends: apps/worker-geodata/src/domains/outbox/outbox-dispatcher.ts.
use planisfy.Common.{
  ℕ, String, true, false, List, [], ◌∷◌, Option, none, some, ◌≡◌, refl, ◌⊎◌, ◌||◌, ap, inl, inr,
  All, Some, Bool-cases, Option-cases, ◌==◌, arith,
}
use planisfy.Common.Table.{update_where, any_where, update_where-makes}
use planisfy.Jobs.{JobStatus}
use planisfy.Imports.{
  Dataset, DatasetStatus, ImportJob, SourceImport, ImportOutput, ImportStore, ImportPayload, Raised,
  import_canceled, import_failed, Step, done, raised, Features,
}
use planisfy.Imports.Marks.{
  job_of, canceled_of, active_processing_job, of_import, of_dataset,
  throw_if_source_import_canceled, mark_source_import_processing, succeeded_marked,
  mark_source_import_succeeded, mark_source_import_failed, mark_source_import_canceled,
}
use planisfy.Imports.Artifacts.{
  StoredArtifact, object_clash, version_clash, record_artifact, store_dataset_artifact,
}
use planisfy.Imports.Dispatch.{
  Surroundings, Dispatched, job_not_found, returned, and_then, Extracted, extracted, threw,
  store_extracted, until_stored, output_of, finalize, mark_raised, catch_raised, finished,
  stored_or_raised, dispatch_source_import_requested,
}

module _ (payload : ImportPayload) where
  -- The import's row has a status.
  abbrev pub IsMarked : JobStatus → SourceImport → Type 0
  IsMarked s i = (i.id == payload.import_id ≡ false) ⊎ (i.status ≡ s)

  -- The dataset's row is ready at a version.
  abbrev pub IsReady : (version_id : ℕ) → Dataset → Type 0
  IsReady version_id d =
      (d.id == payload.dataset_id ≡ false)
      ⊎ ((d.status ≡ DatasetStatus.ready) × (d.current_version_id ≡ some version_id))

  -- The job of the import has succeeded with this version row, and nobody had asked it to stop.
  pub record IsSucceededBy (version_id now : ℕ) (j : ImportJob) : Type 0 where
    pub same_id : j.id ≡ payload.job_id
    pub status : j.status ≡ JobStatus.succeeded
    pub not_asked : j.cancel_requested_at ≡ none
    pub completed : j.completed_at ≡ some now
    pub output : (o : ImportOutput) × (j.output ≡ some o) × (o.dataset_version_id ≡ version_id)

  -- How a dispatch with a new version row ends.
  pub data Ending (version_id now : ℕ) (db : ImportStore) : Dispatched → Type 0 where
    missing : job_of payload.job_id db ≡ none → Ending version_id now db (job_not_found db)
    failed :
        (db' : ImportStore)
        → All (IsMarked JobStatus.failed) db'.imports
        → Ending version_id now db (returned db')
    canceled :
        (db' : ImportStore)
        → All (IsMarked JobStatus.canceled) db'.imports
        → Ending version_id now db (returned db')
    succeeded :
        (db' : ImportStore)
        → Some (IsSucceededBy version_id now) db'.jobs
        → All (IsMarked JobStatus.succeeded) db'.imports
        → All (IsReady version_id) db'.datasets
        → Ending version_id now db (returned db')

  module _ (dataset_key : (account_id dataset_id version : ℕ) → String) (run : Surroundings)
      (db : ImportStore) where
    -- An artifact that is stored has the version row of this run.
    abbrev StoresOwn : Step (StoredArtifact × Features) → Type 0
    StoresOwn (done (stored, features) met) = stored.dataset_version_id ≡ run.version_id
    StoresOwn (raised e met) = Unit

    abbrev IsOwn : Step StoredArtifact → Type 0
    IsOwn (done stored met) = stored.dataset_version_id ≡ run.version_id
    IsOwn (raised e met) = Unit

    record_artifact-IsOwn :
        (features : Features) (version : ℕ) (key : String) (met : ImportStore)
        → IsOwn (
            record_artifact dataset_key payload features run.object_id run.version_id run.now
              version key met)
    unfolding record_artifact
    record_artifact-IsOwn features version key met =
        elim (Bool-cases (
          any_where (object_clash payload.job_id key) met.objects
          || any_where (version_clash payload.dataset_id version) met.versions)) [
            | inl e ↦ rw e tt
            | inr e ↦ rw e refl
          ]

    store_dataset_artifact-IsOwn :
        (features : Features) (met : ImportStore)
        → IsOwn (
            store_dataset_artifact dataset_key payload features run.object_id run.version_id run.now
              run.accepts
              (run.others 4)
              (run.others 5)
              met)
    unfolding store_dataset_artifact
    store_dataset_artifact-IsOwn features met = elim (Bool-cases run.accepts) [
      | inr f ↦ rw f tt
      | inl t ↦ rw t (record_artifact-IsOwn features _ _ _)
    ]

    with_features :
        (features : Features) (step : Step StoredArtifact)
        → IsOwn step
        → StoresOwn (and_then step (λ stored met. done (stored, features) met))
    unfolding and_then
    with_features features (done stored met) h = h
    with_features features (raised e met) h = tt

    store_extracted-StoresOwn :
        (extraction : Extracted) (met : ImportStore)
        → StoresOwn (store_extracted dataset_key payload run extraction met)
    unfolding store_extracted and_then throw_if_source_import_canceled
    store_extracted-StoresOwn (threw e) met = tt
    store_extracted-StoresOwn (extracted features) met =
        elim (Option-cases (canceled_of (job_of payload.job_id met))) [
          | inr (e, h) ↦ rw h tt
          | inl h ↦
              rw h (
                with_features features _ (store_dataset_artifact-IsOwn features (run.others 3 met)))
        ]

    until_stored-StoresOwn :
        (job : ImportJob) (met : ImportStore)
        → StoresOwn (until_stored dataset_key payload run job met)
    unfolding until_stored and_then throw_if_source_import_canceled mark_source_import_processing
    until_stored-StoresOwn job met = elim (Option-cases (canceled_of (job_of payload.job_id met))) [
      | inr (e, h) ↦ rw h tt
      | inl h ↦ elim (Option-cases (canceled_of (job_of payload.job_id (run.others 1 met)))) [
        | inr (e, k) ↦ rw (h, k) tt
        | inl k ↦ rw (h, k) (store_extracted-StoresOwn run.extraction _)
      ]
    ]

    mark_raised-Ending :
        (e : Raised) (met : ImportStore)
        → Ending run.version_id run.now db (returned (mark_raised dataset_key payload run e met))
    unfolding mark_raised mark_source_import_canceled mark_source_import_failed
    mark_raised-Ending (import_canceled at) met = canceled _ (
        update_where-makes (IsMarked JobStatus.canceled) (of_import payload run.now) _ met.imports
          (λ i e. inr refl) (λ i e. inl e))
    mark_raised-Ending (import_failed message) met = failed _ (
        update_where-makes (IsMarked JobStatus.failed) (of_import payload run.now) _ met.imports
          (λ i e. inr refl) (λ i e. inl e))

    catch_raised-Ending :
        (stored : Option StoredArtifact) (e : Raised) (met : ImportStore)
        → Ending run.version_id run.now db
            (returned (catch_raised dataset_key payload run stored e met))
    unfolding catch_raised
    catch_raised-Ending none e met = mark_raised-Ending e _
    catch_raised-Ending (some stored) e met = mark_raised-Ending e _

    job_succeeded :
        (output : ImportOutput) (jobs : List ImportJob)
        → output.dataset_version_id ≡ run.version_id
        → any_where (active_processing_job payload.job_id) jobs ≡ true
        → Some (IsSucceededBy run.version_id run.now) (
            update_where
              (active_processing_job payload.job_id)
              (λ j. record j {
                status = JobStatus.succeeded;
                progress = 100;
                output = some output;
                completed_at = some run.now;
                updated_at = run.now;
              })
              jobs)
    unfolding update_where any_where
    job_succeeded output [] own t = cc
    job_succeeded output (j ∷ jobs) own t =
        elim (Bool-cases (active_processing_job payload.job_id j)) [
          | inl e ↦ rw e (
              inl (record {
                same_id = ground arith;
                status = refl;
                not_asked = ground arith;
                completed = refl;
                output = (output, refl, own);
              }))
          | inr e ↦ rw e (inr (job_succeeded output jobs own (rw e at t)))
        ]

    succeeded_marked-Ending :
        (output : ImportOutput) (before : ImportStore)
        → any_where (active_processing_job payload.job_id) before.jobs ≡ true
        → output.dataset_version_id ≡ run.version_id
        → Ending run.version_id run.now db
            (returned (succeeded_marked payload run.now output before))
    unfolding succeeded_marked
    succeeded_marked-Ending output before t own =
        succeeded _ (job_succeeded output before.jobs own t)
          (update_where-makes (IsMarked JobStatus.succeeded) (of_import payload run.now) _
            before.imports (λ i e. inr refl) (λ i e. inl e))
          (update_where-makes (IsReady run.version_id) (of_dataset payload run.now) _
            before.datasets (λ d e. inr (refl, ap some own)) (λ d e. inl e))

    -- The last transaction of the `try` block.
    mark_source_import_succeeded-Ending :
        (stored : StoredArtifact) (output : ImportOutput) (before : ImportStore)
        → output.dataset_version_id ≡ run.version_id
        → Ending run.version_id run.now db (
            returned (
              finished dataset_key payload run stored
                (mark_source_import_succeeded payload run.now output before)))
    unfolding finished mark_source_import_succeeded
    mark_source_import_succeeded-Ending stored output before own =
        elim (Option-cases (canceled_of (job_of payload.job_id before))) [
          | inr (e, h) ↦ rw h (catch_raised-Ending (some stored) e before)
          | inl h ↦
              elim (Bool-cases (any_where (active_processing_job payload.job_id) before.jobs)) [
                | inl t ↦ rw (h, t) (succeeded_marked-Ending output before t own)
                | inr f ↦
                    rw (h, f) (catch_raised-Ending (some stored) (import_canceled none) before)
              ]
        ]

    finalize-Ending :
        (stored : StoredArtifact) (features : Features) (met : ImportStore)
        → stored.dataset_version_id ≡ run.version_id
        → Ending run.version_id run.now db (
            returned (
              finished dataset_key payload run stored
                (finalize dataset_key payload run stored features met)))
    unfolding finalize and_then throw_if_source_import_canceled finished
    finalize-Ending stored features met own =
        elim (Option-cases (canceled_of (job_of payload.job_id (run.others 6 met)))) [
          | inr (e, h) ↦ rw h (catch_raised-Ending (some stored) e (run.others 6 met))
          | inl h ↦ rw h (
              mark_source_import_succeeded-Ending stored
                (output_of dataset_key payload run stored features)
                (run.others 7 (run.others 6 met)) own)
        ]

    stored_or_raised-Ending :
        (step : Step (StoredArtifact × Features))
        → StoresOwn step
        → Ending run.version_id run.now db
            (returned (stored_or_raised dataset_key payload run step))
    unfolding stored_or_raised
    stored_or_raised-Ending (raised e met) own = catch_raised-Ending none e met
    stored_or_raised-Ending (done (stored, features) met) own =
        finalize-Ending stored features met own

    -- Whatever others commit between its steps, and whatever the extraction and the storage answer, a
    -- dispatch whose job is found returns with the import marked as FAILED, CANCELED or SUCCEEDED. It
    -- is SUCCEEDED only with its job: the result has a row of the job that succeeded at the time of
    -- this dispatch with the version that it has inserted and that nobody has asked to stop, and then
    -- the dataset is READY at that version. A job that is missing is said by the answer.
    pub dispatch_source_import_requested-Ending :
        Ending run.version_id run.now db
          (dispatch_source_import_requested dataset_key payload run db)
    unfolding dispatch_source_import_requested
    dispatch_source_import_requested-Ending = elim (Option-cases (job_of payload.job_id db)) [
      | inl h ↦ rw h (missing h)
      | inr (job, h) ↦ rw h (
          stored_or_raised-Ending (until_stored dataset_key payload run job (run.others 0 db))
            (until_stored-StoresOwn job (run.others 0 db)))
    ]
