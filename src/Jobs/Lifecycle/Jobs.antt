-- ===== src/Jobs/Lifecycle/Jobs.antt =====
-- apps/worker-geodata/src/domains/jobs/job-lifecycle.ts: the writes to the table of jobs.
use planisfy.Common.{
  ℕ, String, ◌≡◌, refl, ◌↔◌, ◌⊎◌, inl, inr, true, Option, none, some, arith, Pointwise,
  Pointwise-refl, ◌==◌,
}
use planisfy.Common.Json.{Json}
use planisfy.Common.Table.{update_where-Pointwise, find_where}
use planisfy.Jobs.{JobStatus, canceled, ProcessingJob, Database, is_active, is_active_or_canceled}
use planisfy.Jobs.Status.{stay, start, fail, cancel, Follows, Evolves, Evolves-refl}
use planisfy.Jobs.Lifecycle.{
  active_processing_job, update_progress, mark_processing_job_started, mark_processing_job_failed,
  mark_processing_job_canceled, throw_if_cancellation_requested, goes_on, check_job,
}

pub active-is_active :
    (job_id : ℕ) (j : ProcessingJob)
    → active_processing_job job_id j ≡ true
    → is_active j.status ≡ true
active-is_active job_id j h = ground arith

pub update_progress-Evolves :
    (job_id progress : ℕ) (output : Option Json) (now : ℕ) (db : Database)
    → Pointwise Evolves db.jobs (update_progress job_id progress output now db).jobs
unfolding update_progress
update_progress-Evolves job_id progress none now db =
    update_where-Pointwise Evolves _ _ db.jobs
      (λ j h. record { same_id = refl; same_input = refl; follows = stay j.status }) Evolves-refl
update_progress-Evolves job_id progress (some output) now db =
    update_where-Pointwise Evolves _ _ db.jobs
      (λ j h. record { same_id = refl; same_input = refl; follows = stay j.status }) Evolves-refl

pub mark_processing_job_started-Evolves :
    (job_id now : ℕ) (db : Database)
    → Pointwise Evolves db.jobs (mark_processing_job_started job_id now db).jobs
unfolding mark_processing_job_started
mark_processing_job_started-Evolves job_id now db =
    update_where-Pointwise Evolves _ _ db.jobs
      (λ j h. record {
        same_id = refl;
        same_input = refl;
        follows = start j.status (active-is_active job_id j h);
      })
      Evolves-refl

pub mark_processing_job_failed-Evolves :
    (job_id : ℕ) (error : String) (now : ℕ) (db : Database)
    → Pointwise Evolves db.jobs (mark_processing_job_failed job_id error now db).jobs
unfolding mark_processing_job_failed
mark_processing_job_failed-Evolves job_id error now db =
    update_where-Pointwise Evolves _ _ db.jobs
      (λ j h. record {
        same_id = refl;
        same_input = refl;
        follows = fail j.status (active-is_active job_id j h);
      })
      Evolves-refl

Follows-canceled : (s : JobStatus) → is_active_or_canceled s ≡ true → Follows s canceled
Follows-canceled JobStatus.pending h = cancel JobStatus.pending refl
Follows-canceled JobStatus.processing h = cancel JobStatus.processing refl
Follows-canceled JobStatus.succeeded h = cc
Follows-canceled JobStatus.failed h = cc
Follows-canceled JobStatus.canceled h = stay canceled

pub mark_processing_job_canceled-Evolves :
    (job_id requested_at : Option ℕ) (now : ℕ) (db : Database)
    → Pointwise Evolves db.jobs (mark_processing_job_canceled job_id requested_at now db).jobs
unfolding mark_processing_job_canceled
mark_processing_job_canceled-Evolves none requested_at now db =
    Pointwise-refl Evolves db.jobs Evolves-refl
mark_processing_job_canceled-Evolves (some job_id) requested_at now db =
    update_where-Pointwise Evolves _ _ db.jobs
      (λ j h. record {
        same_id = refl;
        same_input = refl;
        follows = Follows-canceled j.status (ground arith);
      })
      Evolves-refl

-- What a worker writes to a job while it runs it.
pub data WorkerWrite : Type 0 where
  started : WorkerWrite
  progressed : ℕ → Option Json → WorkerWrite
  failed : String → WorkerWrite

unfoldable pub write : WorkerWrite → ℕ → ℕ → Database → Database
write started job_id now db = mark_processing_job_started job_id now db
write (progressed progress output) job_id now db = update_progress job_id progress output now db
write (failed error) job_id now db = mark_processing_job_failed job_id error now db

-- The row is not touched once it is settled or its cancellation is requested.
abbrev pub Frozen : ProcessingJob → ProcessingJob → Type 0
Frozen j j' = ((is_active j.status ≡ true) × (j.cancel_requested_at ≡ none)) ⊎ (j' ≡ j)

active-Frozen :
    (job_id : ℕ) (j j' : ProcessingJob) → active_processing_job job_id j ≡ true → Frozen j j'
active-Frozen job_id j j' h = inl (ground arith, ground arith)

-- Cancellation wins: starting, progress and failure leave every job that is settled, or whose
-- cancellation is requested, exactly as it was, whichever job and time they are about.
pub write-Frozen :
    (w : WorkerWrite) (job_id now : ℕ) (db : Database)
    → Pointwise Frozen db.jobs (write w job_id now db).jobs
unfolding write mark_processing_job_started update_progress mark_processing_job_failed
write-Frozen started job_id now db =
    update_where-Pointwise Frozen _ _ db.jobs (λ j h. active-Frozen job_id j _ h) (λ j. inr refl)
write-Frozen (progressed progress none) job_id now db =
    update_where-Pointwise Frozen _ _ db.jobs (λ j h. active-Frozen job_id j _ h) (λ j. inr refl)
write-Frozen (progressed progress (some output)) job_id now db =
    update_where-Pointwise Frozen _ _ db.jobs (λ j h. active-Frozen job_id j _ h) (λ j. inr refl)
write-Frozen (failed error) job_id now db =
    update_where-Pointwise Frozen _ _ db.jobs (λ j h. active-Frozen job_id j _ h) (λ j. inr refl)

check_job_iff :
    (found : Option ProcessingJob)
    → (check_job found ≡ goes_on) ↔ (
        (j : ProcessingJob) × (found ≡ some j)
        × (is_active j.status ≡ true)
        × (j.cancel_requested_at ≡ none))
unfolding check_job
check_job_iff none = (λ h. cc, λ (j, e, a, c). cc)
check_job_iff (some j) = (λ h. (j, refl, ground arith, ground arith), λ (k, e, a, c). ground arith)

-- The worker's check goes on exactly when the job is there, is PENDING or PROCESSING, and has no
-- cancellation requested; in every other case, a missing job too, it throws.
pub throw_if_cancellation_requested_iff :
    (job_id : ℕ) (db : Database)
    → (throw_if_cancellation_requested job_id db ≡ goes_on) ↔ (
        (j : ProcessingJob) × (find_where (λ (k : ProcessingJob). k.id == job_id) db.jobs ≡ some j)
        × (is_active j.status ≡ true)
        × (j.cancel_requested_at ≡ none))
unfolding throw_if_cancellation_requested
throw_if_cancellation_requested_iff job_id db = check_job_iff _
