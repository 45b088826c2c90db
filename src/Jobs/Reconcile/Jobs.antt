-- ===== src/Jobs/Reconcile/Jobs.antt =====
-- packages/database/src/jobs/reconciliation.ts: which jobs a reconciliation fails, and what it writes
-- beside them.
use planisfy.Common.{
  ℕ, ◌-◌, ◌<◌, String, ◌≡◌, refl, ◌∙◌, ◌⊎◌, inl, inr, Bool, true, false, not, ◌||◌, Option, none,
  some, List, [], ◌∷◌, arith, Pointwise, Pointwise-refl, Pointwise-trans, Pointwise-map, subst, ap,
  Bool-cases, ◌==◌,
}
use planisfy.Common.Table.{update_where, any_where, update_where-Pointwise}
use planisfy.Jobs.{JobStatus, failed, TilesetStatus, ProcessingJob, Tileset, Database, is_active}
use planisfy.Jobs.Status.{Evolves, Evolves-refl, fail}
use planisfy.Jobs.Reconcile.{
  stale_job_reconciled_code, QueueJobLiveness, LivenessSource, queue_liveness, candidate_where,
  should_reconcile_stale_processing_job, parse_processing_job_resource_input, still_stale,
  reconcile_job, Progress, record_reconciled, reconcile_candidate, reconcile_candidates,
  stale_candidates, reconcile_stale_processing_jobs,
}

-- The query's condition and the test in the loop agree on the age of a job: a candidate that the
-- loop skips has a live queue job and a live worker.
pub candidate_where-eq-should_reconcile :
    (j : ProcessingJob) (now stale_ms : ℕ) (fresh : Bool)
    → candidate_where (now - stale_ms) none j
      ≡ should_reconcile_stale_processing_job j.status j.updated_at now stale_ms false fresh
unfolding should_reconcile_stale_processing_job
candidate_where-eq-should_reconcile j now stale_ms fresh = ground arith

module _ (read_id : String → ℕ) (now stale_ms : ℕ) (fresh : Bool) where
  -- The row of a job before and after: as it was, or failed for being stale.
  abbrev pub Reconciled : ℕ → ProcessingJob → ProcessingJob → Type 0
  Reconciled job_id j j' =
      (j' ≡ j)
      ⊎ (j.id ≡ job_id)
        × (is_active j.status ≡ true)
        × (j.updated_at < now - stale_ms)
        × (j'.status ≡ failed)
        × (j'.error_code ≡ some stale_job_reconciled_code)
        × (j'.completed_at ≡ some now)

  pub reconcile_job-Reconciled :
      (job : ProcessingJob) (queue : QueueJobLiveness) (db : Database)
      → Pointwise
          (Reconciled job.id)
          db.jobs
          (reconcile_job read_id now stale_ms fresh job queue db).1.jobs
  unfolding reconcile_job
  reconcile_job-Reconciled job queue db =
      elim (Bool-cases (any_where (still_stale job.id (now - stale_ms)) db.jobs)) [
        | inl e ↦ rw e (
            update_where-Pointwise (Reconciled job.id) _ _ db.jobs
              (λ j h. inr (ground arith, ground arith, ground arith, refl, refl, refl))
              (λ j. inl refl))
        | inr e ↦ rw e (Pointwise-refl (Reconciled job.id) db.jobs (λ j. inl refl))
      ]

  pub reconcile_job-Evolves :
      (job : ProcessingJob) (queue : QueueJobLiveness) (db : Database)
      → Pointwise Evolves db.jobs (reconcile_job read_id now stale_ms fresh job queue db).1.jobs
  unfolding reconcile_job
  reconcile_job-Evolves job queue db =
      elim (Bool-cases (any_where (still_stale job.id (now - stale_ms)) db.jobs)) [
        | inl e ↦ rw e (
            update_where-Pointwise Evolves _ _ db.jobs
              (λ j h. record {
                same_id = refl;
                same_input = refl;
                follows = fail j.status (ground arith);
              })
              Evolves-refl)
        | inr e ↦ rw e (Pointwise-refl Evolves db.jobs Evolves-refl)
      ]

should_reconcile-dead :
    (status : JobStatus) (updated_at now stale_ms : ℕ) (live fresh : Bool)
    → should_reconcile_stale_processing_job status updated_at now stale_ms live fresh ≡ true
    → (not live || not fresh) ≡ true
unfolding should_reconcile_stale_processing_job
should_reconcile-dead status updated_at now stale_ms live fresh h = ground arith

module _ (read_id : String → ℕ) (now stale_ms : ℕ) (fresh : Bool) (liveness : LivenessSource) where
  -- What a reconciliation does to a job: nothing, or it fails a job that was PENDING or PROCESSING,
  -- had not moved for longer than the limit, and had no live queue job or no live worker.
  abbrev pub Outcome : ProcessingJob → ProcessingJob → Type 0
  Outcome j j' =
      (j' ≡ j)
      ⊎ (is_active j.status ≡ true)
        × (j.updated_at < now - stale_ms)
        × ((not (queue_liveness j.id liveness).active || not fresh) ≡ true)
        × (j'.status ≡ failed)
        × (j'.error_code ≡ some stale_job_reconciled_code)
        × (j'.completed_at ≡ some now)

  Outcome-trans : (a b c : ProcessingJob) → Outcome a b → Outcome b c → Outcome a c
  Outcome-trans a b c (inl p) (inl q) = inl (q ∙ p)
  Outcome-trans a b c (inl p) (inr q) = inr (subst Failed p q)
    where
      Failed : ProcessingJob → Type 0
      Failed j =
          (is_active j.status ≡ true)
          × (j.updated_at < now - stale_ms)
          × ((not (queue_liveness j.id liveness).active || not fresh) ≡ true)
          × (c.status ≡ failed)
          × (c.error_code ≡ some stale_job_reconciled_code)
          × (c.completed_at ≡ some now)
  Outcome-trans a b c (inr (x, y, z, s, k, t)) (inl q) = inr (
    x,
    y,
    z,
    ap (λ (j : ProcessingJob). j.status) q ∙ s,
    ap (λ (j : ProcessingJob). j.error_code) q ∙ k,
    ap (λ (j : ProcessingJob). j.completed_at) q ∙ t,
  )
  Outcome-trans a b c (inr p) (inr q) = inr (p.0, p.1, p.2, q.3, q.4, q.5)

  abbrev alone : ℕ → Database → Database
  alone i db = db

  record_reconciled-db :
      (job : ProcessingJob) (queue : QueueJobLiveness) (acc : Progress) (r : Bool × Database)
      → (record_reconciled read_id now stale_ms fresh liveness alone job queue acc r).1 ≡ r.1
  unfolding record_reconciled
  record_reconciled-db job queue acc (false, db) = refl
  record_reconciled-db job queue acc (true, db) = refl

  Reconciled-Outcome :
      (job_id : ℕ) (j j' : ProcessingJob)
      → (not (queue_liveness job_id liveness).active || not fresh) ≡ true
      → Reconciled read_id now stale_ms fresh job_id j j'
      → Outcome j j'
  Reconciled-Outcome job_id j j' h (inl p) = inl p
  Reconciled-Outcome job_id j j' h (inr (i, a, b, c, d, e)) = inr (a, b, rw i h, c, d, e)

  reconcile_candidate-Outcome :
      (job : ProcessingJob) (acc : Progress) (db : Database)
      → Pointwise Outcome db.jobs
          (reconcile_candidate read_id now stale_ms fresh liveness alone job (acc, db)).1.jobs
  unfolding reconcile_candidate
  reconcile_candidate-Outcome job acc db =
      let queue = queue_liveness job.id liveness in
      let test =
        should_reconcile_stale_processing_job job.status job.updated_at now stale_ms queue.active
          fresh in
      elim (Bool-cases test) [
        | inl e ↦
            rw (e, record_reconciled-db)
              (Pointwise-map (Reconciled read_id now stale_ms fresh job.id) Outcome db.jobs _
                (λ j j' r.
                  Reconciled-Outcome job.id j j'
                    (should_reconcile-dead job.status job.updated_at now stale_ms queue.active fresh
                      e)
                    r)
                (reconcile_job-Reconciled read_id now stale_ms fresh job queue db))
        | inr e ↦ rw e (Pointwise-refl Outcome db.jobs (λ j. inl refl))
      ]

  reconcile_candidates-Outcome :
      (jobs : List ProcessingJob) (acc : Progress × Database)
      → Pointwise Outcome acc.1.jobs
          (reconcile_candidates read_id now stale_ms fresh liveness alone jobs acc).1.jobs
  unfolding reconcile_candidates
  reconcile_candidates-Outcome [] acc = Pointwise-refl Outcome acc.1.jobs (λ j. inl refl)
  reconcile_candidates-Outcome (job ∷ jobs) acc =
      let next = reconcile_candidate read_id now stale_ms fresh liveness alone job acc in
      Pointwise-trans Outcome acc.1.jobs next.1.jobs _ Outcome-trans
        (reconcile_candidate-Outcome job acc.0 acc.1) (reconcile_candidates-Outcome jobs next)

  -- A reconciliation with nobody else writing leaves every job as it was, or fails it with the
  -- reconciliation's code; it fails only jobs that were PENDING or PROCESSING, were last updated
  -- before the cutoff, and had no live queue job or no fresh worker heartbeat.
  pub reconcile-Outcome :
      (account_id limit : Option ℕ) (db : Database)
      → Pointwise Outcome db.jobs
          (reconcile_stale_processing_jobs read_id now stale_ms fresh liveness
            (λ i d. d)
            account_id
            limit
            db).1.jobs
  unfolding reconcile_stale_processing_jobs
  reconcile-Outcome account_id limit db =
      reconcile_candidates-Outcome
        (stale_candidates read_id now stale_ms fresh liveness (λ i d. d) account_id limit db)
        (record { latest = []; skipped_active = 0 }, db)

module _ (read_id : String → ℕ) (now stale_ms : ℕ) (fresh : Bool) where
  -- The tileset that a stale job's input names is set to ERROR even where another job builds it: the
  -- rows of its id become ERROR whatever job they name, and keep naming it.
  pub reconcile_job-takes_tileset :
      (job : ProcessingJob) (queue : QueueJobLiveness) (db : Database) (tileset_id : ℕ)
      → any_where (still_stale job.id (now - stale_ms)) db.jobs ≡ true
      → (parse_processing_job_resource_input read_id job.input).tileset_id ≡ some tileset_id
      → Pointwise
          (λ t t'.
            (t.id == tileset_id ≡ false) × (t' ≡ t)
            ⊎ (t'.status ≡ TilesetStatus.error) × (t'.build_job_id ≡ t.build_job_id))
          db.tilesets
          (reconcile_job read_id now stale_ms fresh job queue db).1.tilesets
  unfolding reconcile_job update_where
  reconcile_job-takes_tileset job queue db tileset_id still named =
      rw (still, named) (rows db.tilesets)
    where
      rows :
          (ts : List Tileset)
          → Pointwise
              (λ t t'.
                (t.id == tileset_id ≡ false) × (t' ≡ t)
                ⊎ (t'.status ≡ TilesetStatus.error) × (t'.build_job_id ≡ t.build_job_id))
              ts
              (update_where
                (λ t. t.id == tileset_id)
                (λ t. record t { status = TilesetStatus.error; updated_at = now })
                ts)
      rows [] = tt
      rows (t ∷ ts) = elim (Bool-cases (t.id == tileset_id)) [
        | inl e ↦ rw e (inr (refl, refl), rows ts)
        | inr e ↦ rw e (inl (refl, refl), rows ts)
      ]
