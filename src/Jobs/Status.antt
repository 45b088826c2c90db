-- ===== src/Jobs/Status.antt =====
-- How the row of a job may change in apps/worker-geodata/src/domains/jobs/job-lifecycle.ts, in
-- apps/worker-geodata/src/domains/tilesets/tileset-artifacts.ts and in
-- packages/database/src/jobs/reconciliation.ts.
use planisfy.Common.{◌≡◌, refl, ◌∙◌, true}
use planisfy.Jobs.{JobStatus, processing, succeeded, failed, canceled, ProcessingJob, is_active}

-- The status stays, or it leaves PENDING or PROCESSING for PROCESSING, SUCCEEDED, FAILED or CANCELED: nothing
-- leaves SUCCEEDED, FAILED or CANCELED, and nothing leads back to PENDING.
pub data Follows : JobStatus → JobStatus → Type 0 where
  stay : (s : JobStatus) → Follows s s
  start : (s : JobStatus) → is_active s ≡ true → Follows s processing
  fail : (s : JobStatus) → is_active s ≡ true → Follows s failed
  cancel : (s : JobStatus) → is_active s ≡ true → Follows s canceled
  succeed : (s : JobStatus) → is_active s ≡ true → Follows s succeeded

pub Follows-trans : {s t u : JobStatus} → Follows s t → Follows t u → Follows s u
Follows-trans (stay s) k = k
Follows-trans (start s h) (stay _) = start s h
Follows-trans (start s h) (start _ _) = start s h
Follows-trans (start s h) (fail _ _) = fail s h
Follows-trans (start s h) (cancel _ _) = cancel s h
Follows-trans (start s h) (succeed _ _) = succeed s h
Follows-trans (fail s h) (stay _) = fail s h
Follows-trans (fail s h) (start _ e) = cc
Follows-trans (fail s h) (fail _ e) = fail s h
Follows-trans (fail s h) (cancel _ e) = cc
Follows-trans (fail s h) (succeed _ e) = cc
Follows-trans (cancel s h) (stay _) = cancel s h
Follows-trans (cancel s h) (start _ e) = cc
Follows-trans (cancel s h) (fail _ e) = cc
Follows-trans (cancel s h) (cancel _ e) = cancel s h
Follows-trans (cancel s h) (succeed _ e) = cc
Follows-trans (succeed s h) (stay _) = succeed s h
Follows-trans (succeed s h) (start _ e) = cc
Follows-trans (succeed s h) (fail _ e) = cc
Follows-trans (succeed s h) (cancel _ e) = cc
Follows-trans (succeed s h) (succeed _ e) = succeed s h

-- A later state of the same job.
pub record Evolves (j j' : ProcessingJob) : Type 0 where
  pub same_id : j'.id ≡ j.id
  pub same_input : j'.input ≡ j.input
  pub follows : Follows j.status j'.status

pub Evolves-refl : (j : ProcessingJob) → Evolves j j
Evolves-refl j = record { same_id = refl; same_input = refl; follows = stay j.status }

pub Evolves-trans : (a b c : ProcessingJob) → Evolves a b → Evolves b c → Evolves a c
Evolves-trans a b c h k = record {
  same_id = k.same_id ∙ h.same_id;
  same_input = k.same_input ∙ h.same_input;
  follows = Follows-trans h.follows k.follows;
}
