-- ===== src/Jobs/Lifecycle/Builds.antt =====
-- apps/worker-geodata/src/domains/jobs/job-lifecycle.ts: the writes to the tileset of a build and to
-- its upload.
use planisfy.Common.{
  ℕ, String, ◌≡◌, ◌≢◌, refl, ◌⊎◌, inl, inr, true, false, Option, none, some, List, [], ◌∷◌, arith,
  All, Pointwise, ◌==◌, is_at, Bool-cases,
}
use planisfy.Common.Table.{update_where, any_where, update_where-id, update_where-Pointwise}
use planisfy.Jobs.Finalize.Commit.{finalize_in_transaction-unbuilt}
use planisfy.Jobs.Finalize.{Finalization, finalize_in_transaction}
use planisfy.Jobs.{draft, ready, Tileset, Upload, Database}
use planisfy.Jobs.Lifecycle.{
  active_tileset_build, update_upload, set_processing_status, set_error_status, set_canceled_status,
  canceled_tileset_status,
}

-- The job does not build the tileset: none of the rows of its id names the job.
abbrev pub NotBuilding : ℕ → ℕ → Tileset → Type 0
NotBuilding tileset_id job_id t =
    (t.id == tileset_id ≡ false) ⊎ (is_at t.build_job_id job_id ≡ false)

no_build :
    (tileset_id job_id : ℕ) (tilesets : List Tileset)
    → All (NotBuilding tileset_id job_id) tilesets
    → any_where (active_tileset_build tileset_id (some job_id)) tilesets ≡ false
unfolding any_where
no_build tileset_id job_id [] h = refl
no_build tileset_id job_id (t ∷ tilesets) (p, h) =
    ground (arith, no_build tileset_id job_id tilesets h)

update_upload-id :
    (upload_id : Option ℕ) (f : Upload → Upload) (uploads : List Upload)
    → update_upload false upload_id f uploads ≡ uploads
unfolding update_upload
update_upload-id none f uploads = refl
update_upload-id (some u) f uploads = refl

Database-ext :
    (db : Database) (tilesets : List Tileset) (uploads : List Upload)
    → tilesets ≡ db.tilesets
    → uploads ≡ db.uploads
    → record db { tilesets = tilesets; uploads = uploads } ≡ db
Database-ext db tilesets uploads p q = λ i. record db { tilesets = p i; uploads = q i }

module _ (tileset_id job_id : ℕ) (upload_id : Option ℕ) (now : ℕ) (db : Database) where
  -- A worker whose job does not build the tileset any more, since the build was finished, canceled or
  -- handed to another job, changes nothing by any of its three writes, the upload included.
  pub superseded :
      (error : String)
      → All (NotBuilding tileset_id job_id) db.tilesets
      → (set_processing_status tileset_id upload_id (some job_id) now db ≡ db)
        × (set_error_status tileset_id upload_id (some job_id) now db error ≡ db)
        × (set_canceled_status tileset_id upload_id (some job_id) now db ≡ db)
  unfolding set_processing_status set_error_status set_canceled_status
  superseded error h =
      let none_built = no_build tileset_id job_id db.tilesets h in
      let same = λ (f : Tileset → Tileset). update_where-id _ f db.tilesets none_built in
      (
        Database-ext db _ _ (same _) (rw none_built (update_upload-id upload_id _ db.uploads)),
        Database-ext db _ _ (same _) (rw none_built (update_upload-id upload_id _ db.uploads)),
        Database-ext db _ _ (same _) (rw none_built (update_upload-id upload_id _ db.uploads)),
      )

  released :
      (f : Tileset → Tileset)
      → ((t : Tileset) → (f t).build_job_id ≡ none)
      → (tilesets : List Tileset)
      → All
          (NotBuilding tileset_id job_id)
          (update_where (active_tileset_build tileset_id (some job_id)) f tilesets)
  unfolding update_where
  released f clears [] = tt
  released f clears (t ∷ tilesets) =
      elim (Bool-cases (active_tileset_build tileset_id (some job_id) t)) [
        | inl e ↦ rw e (inr (rw (clears t)), released f clears tilesets)
        | inr e ↦ rw e (ground arith, released f clears tilesets)
      ]

error-released :
    (tileset_id job_id : ℕ) (upload_id : Option ℕ) (now : ℕ) (db : Database) (error : String)
    → All
        (NotBuilding tileset_id job_id)
        (set_error_status tileset_id upload_id (some job_id) now db error).tilesets
unfolding set_error_status
error-released tileset_id job_id upload_id now db error =
    released tileset_id job_id upload_id now db _ (λ t. refl) db.tilesets

canceled-released :
    (tileset_id job_id : ℕ) (upload_id : Option ℕ) (now : ℕ) (db : Database)
    → All
        (NotBuilding tileset_id job_id)
        (set_canceled_status tileset_id upload_id (some job_id) now db).tilesets
unfolding set_canceled_status
canceled-released tileset_id job_id upload_id now db =
    released tileset_id job_id upload_id now db _ (λ t. refl) db.tilesets

-- The first outcome of a build stays: right after a job has reported its error or its cancellation,
-- none of its three status writes (processing, error, canceled) changes anything, at any later time,
-- and the transaction of its own success changes nothing either. The upload write of the source
-- worker, which asks for no build, is not among them.
pub first_outcome_stays :
    (id_text : ℕ → String) (params : Finalization) (new_id : ℕ) (tileset_id job_id : ℕ)
    (upload_id : Option ℕ) (now now' : ℕ) (db : Database) (error error' : String)
    → params.tileset_id ≡ tileset_id
    → let failed_ = set_error_status tileset_id upload_id (some job_id) now db error in
      let canceled_ = set_canceled_status tileset_id upload_id (some job_id) now db in
      (set_processing_status tileset_id upload_id (some job_id) now' failed_ ≡ failed_)
      × (set_error_status tileset_id upload_id (some job_id) now' failed_ error' ≡ failed_)
      × (set_canceled_status tileset_id upload_id (some job_id) now' failed_ ≡ failed_)
      × (set_processing_status tileset_id upload_id (some job_id) now' canceled_ ≡ canceled_)
      × (set_error_status tileset_id upload_id (some job_id) now' canceled_ error' ≡ canceled_)
      × (set_canceled_status tileset_id upload_id (some job_id) now' canceled_ ≡ canceled_)
      × ((finalize_in_transaction id_text params new_id now' job_id failed_).1 ≡ failed_)
      × ((finalize_in_transaction id_text params new_id now' job_id canceled_).1 ≡ canceled_)
first_outcome_stays id_text params new_id tileset_id job_id upload_id now now' db error error'
      same =
    let (a, b, c) =
      superseded tileset_id job_id upload_id now'
        (set_error_status tileset_id upload_id (some job_id) now db error) error'
        (error-released tileset_id job_id upload_id now db error) in
    let (d, e, f) =
      superseded tileset_id job_id upload_id now'
        (set_canceled_status tileset_id upload_id (some job_id) now db) error'
        (canceled-released tileset_id job_id upload_id now db) in
    (
      a,
      b,
      c,
      d,
      e,
      f,
      finalize_in_transaction-unbuilt id_text params new_id now' job_id _ (
          rw same (
            no_build tileset_id job_id _
              (error-released tileset_id job_id upload_id now db error))),
      finalize_in_transaction-unbuilt id_text params new_id now' job_id _ (
          rw same
            (no_build tileset_id job_id _ (canceled-released tileset_id job_id upload_id now db))),
    )

-- A canceled build is READY again if the tileset has a version and DRAFT if it has none, and no job
-- builds it; every other tileset is left alone.
pub set_canceled_status-tilesets :
    (tileset_id : ℕ) (upload_id processing_job_id : Option ℕ) (now : ℕ) (db : Database)
    → Pointwise
        (λ t t'.
          (t' ≡ t)
          ⊎ (active_tileset_build tileset_id processing_job_id t ≡ true)
            × (t'.build_job_id ≡ none)
            × (t'.current_version_id ≡ t.current_version_id)
            × ((t.current_version_id ≡ none) × (t'.status ≡ draft)
                ⊎ (t.current_version_id ≢ none) × (t'.status ≡ ready)))
        db.tilesets
        (set_canceled_status tileset_id upload_id processing_job_id now db).tilesets
unfolding set_canceled_status
set_canceled_status-tilesets tileset_id upload_id processing_job_id now db =
    update_where-Pointwise _ _ _ db.tilesets
      (λ t h. inr (h, refl, refl, by_version t.current_version_id)) (λ t. inl refl)
  where
    by_version :
        (v : Option ℕ)
        → (v ≡ none)
            × (canceled_tileset_status tileset_id upload_id processing_job_id now db v ≡ draft)
          ⊎ (v ≢ none)
            × (canceled_tileset_status tileset_id upload_id processing_job_id now db v ≡ ready)
    by_version none = inl (refl, refl)
    by_version (some v) = inr (λ e. cc, refl)
