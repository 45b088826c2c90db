-- ===== src/Jobs/Finalize/Commit.antt =====
-- What the transaction of `finalizeProcessedArtifact` commits:
-- apps/worker-geodata/src/domains/tilesets/tileset-artifacts.ts.
use planisfy.Common.{
  ℕ, String, Bool, true, false, some, ◌&&◌, ◌||◌, not, is_some, is_at, ◌==◌, ◌≡◌, refl, sym, ◌∙◌,
  ◌⊎◌, inl, inr, Option-cases, Bool-cases, Pointwise, Pointwise-refl,
}
use planisfy.Common.Table.{any_where, find_where, update_where-Pointwise}
use planisfy.Jobs.{ProcessingJob, TilesetVersion, Database, is_active}
use planisfy.Jobs.Status.{succeed, Evolves, Evolves-refl}
use planisfy.Jobs.Lifecycle.{active_processing_job, active_tileset_build}
use planisfy.Jobs.Lifecycle.Jobs.{active-is_active}
use planisfy.Jobs.Finalize.{
  Finalization, committed, update_rows, is_artifact, is_own_tileset, is_refused,
  finalize_in_transaction,
}

module _ (id_text : ℕ → String) (params : Finalization) (new_id now : ℕ) where
  committed-Evolves :
      (job_id : ℕ) (version : TilesetVersion) (db : Database)
      → Pointwise Evolves db.jobs (committed id_text params new_id now job_id version db).jobs
  unfolding committed
  committed-Evolves job_id version db =
      update_where-Pointwise Evolves _ _ db.jobs
        (λ j h. record {
          same_id = refl;
          same_input = refl;
          follows = succeed j.status (active-is_active job_id j h);
        })
        Evolves-refl

  update_rows-cases :
      (job_id : ℕ) (db : Database)
      → ((update_rows id_text params new_id now job_id db).1 ≡ db)
        ⊎ ((any_where (active_tileset_build params.tileset_id (some job_id)) db.tilesets ≡ true)
            × ((version : TilesetVersion) × ((update_rows id_text params new_id now job_id db).1
                  ≡ committed id_text params new_id now job_id version db)))
  update_rows-cases job_id db =
      elim (Bool-cases
        (any_where (active_tileset_build params.tileset_id (some job_id)) db.tilesets)) [
          | inr f ↦ rw f (inl refl)
          | inl t ↦ elim (Bool-cases (any_where (active_processing_job job_id) db.jobs)) [
            | inr g ↦ rw (t, g) (inl refl)
            | inl g ↦ rw (t, g) (inr (refl, (_, refl)))
          ]
        ]

  -- A transaction that throws changes nothing, and one that returns commits its writes.
  pub finalize_in_transaction-cases :
      (job_id : ℕ) (db : Database)
      → ((finalize_in_transaction id_text params new_id now job_id db).1 ≡ db)
        ⊎ ((any_where (active_tileset_build params.tileset_id (some job_id)) db.tilesets ≡ true)
            × ((version : TilesetVersion) × ((finalize_in_transaction id_text params new_id now
                    job_id db).1
                  ≡ committed id_text params new_id now job_id version db)))
  unfolding finalize_in_transaction
  finalize_in_transaction-cases job_id db = elim (Option-cases (find_where own_job db.jobs)) [
    | inl e ↦ rw e (inl refl)
    | inr (job, e) ↦
        elim (Bool-cases (not (is_active job.status) || is_some job.cancel_requested_at)) [
          | inl t ↦ rw (e, t) (inl refl)
          | inr f ↦
              elim (Option-cases
                (find_where (is_own_tileset id_text params new_id now) db.tilesets)) [
                  | inl g ↦ rw (e, f, g) (inl refl)
                  | inr (tileset, g) ↦ elim (Bool-cases (is_at tileset.build_job_id job_id)) [
                    | inr h ↦ rw (e, f, g, h) (inl refl)
                    | inl h ↦
                        elim (Option-cases (
                          find_where (is_artifact id_text params new_id now job_id)
                            db.storage_objects)) [
                              | inl k ↦ rw (e, f, g, h, k) (inl refl)
                              | inr (artifact, k) ↦
                                  elim (Bool-cases
                                    (is_refused id_text params new_id now job_id db)) [
                                      | inl r ↦ rw (e, f, g, h, k, r) (inl refl)
                                      | inr r ↦ rw (e, f, g, h, k, r) (update_rows-cases job_id db)
                                    ]
                            ]
                  ]
                ]
        ]
  ]
    where
      own_job : ProcessingJob → Bool
      own_job j = j.id == job_id && j.account_id == params.owner_id

  pub finalize_in_transaction-Evolves :
      (job_id : ℕ) (db : Database)
      → Pointwise Evolves db.jobs
          (finalize_in_transaction id_text params new_id now job_id db).1.jobs
  finalize_in_transaction-Evolves job_id db = elim (finalize_in_transaction-cases job_id db) [
    | inl e ↦ rw e (Pointwise-refl Evolves db.jobs Evolves-refl)
    | inr (t, (version, e)) ↦ rw e (committed-Evolves job_id version db)
  ]

  -- A job that builds no tileset of the id cannot finalize it.
  pub finalize_in_transaction-unbuilt :
      (job_id : ℕ) (db : Database)
      → any_where (active_tileset_build params.tileset_id (some job_id)) db.tilesets ≡ false
      → (finalize_in_transaction id_text params new_id now job_id db).1 ≡ db
  finalize_in_transaction-unbuilt job_id db f = elim (finalize_in_transaction-cases job_id db) [
    | inl e ↦ e
    | inr (t, (version, e)) ↦ let clash : true ≡ false = sym t ∙ f in cc clash
  ]
