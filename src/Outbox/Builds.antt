-- ===== src/Outbox/Builds.antt =====
-- The event `tileset.build.requested`: `dispatchTilesetBuildRequested` and
-- `removeRetryableSourceProcessingJob` of
-- apps/worker-geodata/src/domains/outbox/outbox-dispatcher.ts. The queue is a record of operations with
-- the laws of BullMQ that the code relies on; the parsing of a job's input is an argument.
use text.Mathlib.Text.{◌==◌ as str_eq}
use planisfy.Common.{
  ℕ, String, Bool, true, false, ◌||◌, Option, none, some, List, [], ◌∷◌, ◌++◌, ◌≡◌, refl, sym, ap,
  ◌∙◌, ◌⊎◌, inl, inr, Bool-cases, Option-cases, if◌then◌else◌, ◌==◌, is_some,
}
use planisfy.Common.Table.{find_where}
use planisfy.Jobs.{JobStatus, canceled, ProcessingJob, JobLog, LogLevel, info, warn, no_metadata}

abbrev pub is_runnable_bullmq_state : String → Bool
is_runnable_bullmq_state state =
    str_eq state "active"
    || (str_eq state "delayed"
        || (str_eq state "prioritized"
            || (str_eq state "waiting" || str_eq state "waiting-children")))

-- A queue: the state of a job by its id, the removal, and the addition under an id.
pub record SourceQueue (Q Input : Type 0) : Type 0 where
  pub get_state : Q → ℕ → Option String
  pub remove : Q → ℕ → Q
  pub add : Q → ℕ → Input → Q
  -- A job that is removed is not there.
  pub remove_gone : (q : Q) (id : ℕ) → get_state (remove q id) id ≡ none
  -- A job that is added under a free id is there, in a state in which it will run.
  pub add_runnable :
      (q : Q) (id : ℕ) (input : Input)
      → get_state q id ≡ none
      → (state : String) × (get_state (add q id input) id ≡ some state)
        × (is_runnable_bullmq_state state ≡ true)

-- What `removeRetryableSourceProcessingJob` returns.
pub data Retryable : Type 0 where
  no_job : Retryable
  kept removed : (state : String) → Retryable

abbrev pub is_stopped : ProcessingJob → Bool
is_stopped job = is_canceled job.status || is_some job.cancel_requested_at
  where
    is_canceled : JobStatus → Bool
    is_canceled canceled = true
    is_canceled _ = false

conflict :
    (state other : String)
    → some state ≡ some other
    → is_runnable_bullmq_state state ≡ false
    → is_runnable_bullmq_state other ≡ true
    → ⊥
conflict state other same r t =
    let there : state ≡ other = cc same in
    let both : false ≡ true = sym r ∙ ap is_runnable_bullmq_state there ∙ t in cc both

module _ {Q Input : Type 0} (queue : SourceQueue Q Input) where
  -- What the dispatch writes: the queue and the logs.
  pub record BuildStore : Type 0 where
    pub jobs : List ProcessingJob
    pub logs : List JobLog
    pub queued : Q

  pub data BuildDispatch : Type 0 where
    job_not_found invalid_input : BuildDispatch
    dispatched : BuildStore → BuildDispatch

  retryable_of : ℕ → Q → Option String → Retryable × Q
  retryable_of job_id q none = (no_job, q)
  retryable_of job_id q (some state) =
      if is_runnable_bullmq_state state
      then (kept state, q)
      else (removed state, queue.remove q job_id)

  unfoldable pub remove_retryable_source_processing_job : ℕ → Q → Retryable × Q
  unfolding retryable_of
  remove_retryable_source_processing_job job_id q = retryable_of job_id q (queue.get_state q job_id)

  module _ (parse : ProcessingJob → Option Input) (job_id : ℕ) where
    abbrev log : LogLevel → String → JobLog
    log level message = record {
      job_id = job_id;
      level = level;
      message = message;
      metadata = no_metadata;
    }

    -- Behind the removal.
    queue_job : Retryable × Q → Input → BuildStore → BuildStore
    queue_job (kept state, q) input db = record db {
      queued = q;
      logs = db.logs ++ log info "Build request already exists in geodata queue" ∷ [];
    }
    queue_job (_, q) input db = record db {
      queued = queue.add q job_id input;
      logs = db.logs ++ log info "Build request dispatched to geodata queue" ∷ [];
    }

    with_input : Option Input → BuildStore → BuildDispatch
    unfolding queue_job remove_retryable_source_processing_job
    with_input none db = invalid_input
    with_input (some input) db =
        dispatched (queue_job (remove_retryable_source_processing_job job_id db.queued) input db)

    with_build_job : Option ProcessingJob → BuildStore → BuildDispatch
    unfolding with_input
    with_build_job none db = job_not_found
    with_build_job (some job) db =
        let going_on = with_input (parse job) db in
        if is_stopped job
        then dispatched (record db {
          logs =
              db.logs ++ log warn "Build request skipped because processing job is canceled" ∷ [];
        })
        else going_on

    unfoldable pub dispatch_tileset_build_requested : BuildStore → BuildDispatch
    unfolding with_build_job
    dispatch_tileset_build_requested db =
        with_build_job (find_where (λ j. j.id == job_id) db.jobs) db

    -- The queue has the job in a state in which it will run.
    abbrev pub Runs : Q → Type 0
    Runs q =
        (state : String) × (queue.get_state q job_id ≡ some state)
        × (is_runnable_bullmq_state state ≡ true)

    -- How a build request is dispatched.
    pub data Building (db : BuildStore) : BuildDispatch → Type 0 where
      missing : find_where (λ j. j.id == job_id) db.jobs ≡ none → Building db job_not_found
      refused :
          (job : ProcessingJob)
          → find_where (λ j. j.id == job_id) db.jobs ≡ some job
          → parse job ≡ none
          → Building db invalid_input
      skipped :
          (job : ProcessingJob)
          → find_where (λ j. j.id == job_id) db.jobs ≡ some job
          → is_stopped job ≡ true
          → (db' : BuildStore) → db'.queued ≡ db.queued
          → db'.jobs ≡ db.jobs
          → Building db (dispatched db')
      queued :
          (job : ProcessingJob)
          → find_where (λ j. j.id == job_id) db.jobs ≡ some job
          → is_stopped job ≡ false
          → (db' : BuildStore) → Runs db'.queued
          → db'.jobs ≡ db.jobs
          → (db'.queued ≡ db.queued) ⊎ (¬ Runs db.queued)
          → Building db (dispatched db')

    queue_job-Building :
        (db : BuildStore) (job : ProcessingJob) (input : Input)
        → find_where (λ j. j.id == job_id) db.jobs ≡ some job
        → is_stopped job ≡ false
        → Building db (
            dispatched
              (queue_job (remove_retryable_source_processing_job job_id db.queued) input db))
    unfolding queue_job remove_retryable_source_processing_job
    queue_job-Building db job input found going =
        elim (Option-cases (queue.get_state db.queued job_id)) [
          | inl e ↦ rw e (
              queued job found going _ (queue.add_runnable db.queued job_id input e) refl
                (inr (λ (state, s, r). cc (rw e at s))))
          | inr (state, e) ↦ elim (Bool-cases (is_runnable_bullmq_state state)) [
            | inl r ↦ rw (e, r) (queued job found going _ (state, e, r) refl (inl refl))
            | inr r ↦
                rw (e, r)
                  (queued job found going _
                    (queue.add_runnable (queue.remove db.queued job_id) job_id input
                      (queue.remove_gone db.queued job_id))
                    refl (inr (λ (other, s, t). conflict state other (sym e ∙ s) r t)))
          ]
        ]

    -- A build request that is dispatched leaves the job in the queue, in a state in which it will run:
    -- one that was there in such a state is left alone, and one that has ended is replaced. It is
    -- skipped if the job is canceled or asked to stop, and it fails if the job is not found or its
    -- input does not parse.
    pub dispatch_tileset_build_requested-Building :
        (db : BuildStore) → Building db (dispatch_tileset_build_requested db)
    unfolding dispatch_tileset_build_requested
    dispatch_tileset_build_requested-Building db =
        elim (Option-cases (find_where (λ j. j.id == job_id) db.jobs)) [
          | inl e ↦ rw e (missing e)
          | inr (job, e) ↦ elim (Bool-cases (is_stopped job)) [
            | inl t ↦ rw (e, t) (skipped job e t _ refl refl)
            | inr f ↦ elim (Option-cases (parse job)) [
              | inl p ↦ rw (e, f, p) (refused job e p)
              | inr (input, p) ↦ rw (e, f, p) (queue_job-Building db job input e f)
            ]
          ]
        ]
