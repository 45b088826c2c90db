-- ===== src/Jobs/Reconcile/Counts.antt =====
-- packages/database/src/jobs/reconciliation.ts: what a reconciliation reports.
use planisfy.Common.{
  ℕ, ◌+◌, ◌≤◌, String, ◌≡◌, refl, inl, inr, Bool, true, false, Option, List, [], ◌∷◌, arith, length,
  length-append, length-take-le, Bool-cases, or_else,
}
use planisfy.Jobs.{ProcessingJob, Database}
use planisfy.Jobs.Reconcile.{
  QueueJobLiveness, LivenessSource, queue_liveness, should_reconcile_stale_processing_job, Progress,
  record_reconciled, reconcile_candidate, reconcile_candidates, reconcile_job, stale_candidates,
  reconcile_stale_processing_jobs,
}

module _ (read_id : String → ℕ) (now stale_ms : ℕ) (fresh : Bool) (liveness : LivenessSource)
    (meanwhile : ℕ → Database → Database) where
  -- The jobs that the loop has accounted for.
  abbrev counted : Progress → ℕ
  counted acc = length acc.latest + acc.skipped_active

  record_reconciled-counted :
      (job : ProcessingJob) (queue : QueueJobLiveness) (acc : Progress) (r : Bool × Database)
      → counted (record_reconciled read_id now stale_ms fresh liveness meanwhile job queue acc r).0
        ≤ counted acc + 1
  unfolding record_reconciled
  record_reconciled-counted job queue acc (false, db) = omega arith
  record_reconciled-counted job queue acc (true, db) =
      omega (arith, length-append acc.latest (_ ∷ []))

  reconcile_candidate-counted :
      (job : ProcessingJob) (acc : Progress × Database)
      → counted (reconcile_candidate read_id now stale_ms fresh liveness meanwhile job acc).0
        ≤ counted acc.0 + 1
  unfolding reconcile_candidate
  reconcile_candidate-counted job acc =
      let queue = queue_liveness job.id liveness in
      let test =
        should_reconcile_stale_processing_job job.status job.updated_at now stale_ms queue.active
          fresh in
      elim (Bool-cases test) [
        | inl e ↦ rw e (
            record_reconciled-counted job queue acc.0
              (reconcile_job read_id now stale_ms fresh job queue (meanwhile job.id acc.1)))
        | inr e ↦ rw e (omega arith)
      ]

  reconcile_candidates-counted :
      (jobs : List ProcessingJob) (acc : Progress × Database)
      → counted (reconcile_candidates read_id now stale_ms fresh liveness meanwhile jobs acc).0
        ≤ counted acc.0 + length jobs
  unfolding reconcile_candidates
  reconcile_candidates-counted [] acc = omega arith
  reconcile_candidates-counted (job ∷ jobs) acc =
      let next = reconcile_candidate read_id now stale_ms fresh liveness meanwhile job acc in
      omega (arith, reconcile_candidates-counted jobs next, reconcile_candidate-counted job acc)

  -- Whatever others write meanwhile, a reconciliation scans no more jobs than its limit, and the jobs
  -- that it reports as reconciled or as skipped are together no more than those that it scanned.
  pub reconcile-counts :
      (account_id limit : Option ℕ) (db : Database)
      → let r =
          (reconcile_stale_processing_jobs read_id now stale_ms fresh liveness meanwhile account_id
            limit db).0 in
        (r.scanned ≤ or_else limit 50)
        × (r.reconciled + r.skipped_active ≤ r.scanned)
        × (r.reconciled ≡ length r.latest)
  unfolding reconcile_stale_processing_jobs
  reconcile-counts account_id limit db =
      let candidates =
        stale_candidates read_id now stale_ms fresh liveness meanwhile account_id limit db in
      (
        length-take-le (or_else limit 50) _,
        omega (
          arith,
          reconcile_candidates-counted candidates (record { latest = []; skipped_active = 0 }, db),
        ),
        refl,
      )
