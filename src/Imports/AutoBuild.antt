-- ===== src/Imports/AutoBuild.antt =====
-- The automatic build behind an import: `queueTargetTilesetBuildFromImport` of
-- apps/worker-geodata/src/domains/outbox/outbox-dispatcher.ts. Its transaction holds the account's lock
-- on processing jobs. A job's input is the two tileset ids that the transaction reads in it.
use planisfy.Common.{
  ℕ, ◌+◌, ◌≤◌, ◌<◌, Bool, true, false, ◌&&◌, ◌||◌, Option, none, some, List, [], ◌∷◌, ◌++◌, ◌≡◌,
  refl, ◌⊎◌, inl, inr, arith, Bool-cases, if◌then◌else◌, ◌==◌, ==_iff, leb, is_none, is_at, or_else,
  length, All, Some, ap, ◌↔◌,
}
use planisfy.Common.Table.{update_where, any_where, find_where, select_where, update_where-makes}
use planisfy.Jobs.{JobStatus, pending, TilesetStatus, is_active}

pub record AccountJob : Type 0 where
  pub id : ℕ
  pub account_id : ℕ
  pub status : JobStatus
  pub tileset_id : Option ℕ
  pub target_tileset_id : Option ℕ

pub record TargetTileset : Type 0 where
  pub id : ℕ
  pub account_id : ℕ
  pub status : TilesetStatus
  pub min_zoom : Option ℕ
  pub max_zoom : Option ℕ
  pub build_job_id : Option ℕ
  pub deleted_at : Option ℕ
  pub updated_at : ℕ

-- The event `tileset.build.requested` that is inserted.
pub record BuildEvent : Type 0 where
  pub account_id : ℕ
  pub tileset_id : ℕ
  pub job_id : ℕ
  pub dataset_version_id : ℕ
  pub min_zoom : ℕ
  pub max_zoom : ℕ

-- The row of the import, with its target and its job.
pub record ImportTarget : Type 0 where
  pub target_tileset_id : Option ℕ
  pub processing_job_id : Option ℕ

pub record BuildTables : Type 0 where
  pub jobs : List AccountJob
  pub tilesets : List TargetTileset
  pub events : List BuildEvent
  -- the jobs of the log rows
  pub logs : List ℕ

-- Whether it returns or throws, and the tables.
pub data AutoBuild : Type 0 where
  no_target : BuildTables → AutoBuild
  limit_reached already_active : AutoBuild
  queued : (job_id : ℕ) → BuildTables → AutoBuild

abbrev pub is_counted : ℕ → AccountJob → Bool
is_counted account_id j = j.account_id == account_id && is_active j.status

unfoldable pub active_count : ℕ → List AccountJob → ℕ
active_count account_id jobs = length (select_where (is_counted account_id) jobs)

-- `activeProcessingJobLimit`, where the setting is an integer that is not negative, or none.
abbrev pub active_processing_job_limit : Option ℕ → ℕ
active_processing_job_limit none = 5
active_processing_job_limit (some configured) = if configured == 0 then 5 else configured

-- `or(buildJobId, input.tilesetId, input.targetTilesetId)`
abbrev pub is_building : TargetTileset → AccountJob → Bool
is_building tileset j =
    is_at tileset.build_job_id j.id
    || (is_at j.tileset_id tileset.id || is_at j.target_tileset_id tileset.id)

abbrev pub is_target_job : ℕ → TargetTileset → AccountJob → Bool
is_target_job account_id tileset j = is_counted account_id j && is_building tileset j

-- An active job of the account builds the tileset: it is the tileset's build, or its input names it.
pub record IsBuilding (account_id : ℕ) (tileset : TargetTileset) (j : AccountJob) : Type 0 where
  pub owned : j.account_id ≡ account_id
  pub active : (j.status ≡ JobStatus.pending) ⊎ (j.status ≡ JobStatus.processing)
  pub target :
      (tileset.build_job_id ≡ some j.id)
      ⊎ (j.tileset_id ≡ some tileset.id)
      ⊎ (j.target_tileset_id ≡ some tileset.id)

is_at_iff : (o : Option ℕ) (n : ℕ) → (is_at o n ≡ true) ↔ (o ≡ some n)
is_at_iff none n = (λ h. cc, λ e. cc)
is_at_iff (some m) n =
    (λ h. ap some ((==_iff m n).0 h), λ e. let same : m ≡ n = cc e in (==_iff m n).1 same)

is_active-cases :
    (s : JobStatus) → is_active s ≡ true → (s ≡ JobStatus.pending) ⊎ (s ≡ JobStatus.processing)
is_active-cases JobStatus.pending h = inl refl
is_active-cases JobStatus.processing h = inr refl
is_active-cases JobStatus.succeeded h = cc
is_active-cases JobStatus.failed h = cc
is_active-cases JobStatus.canceled h = cc

is_target_job-IsBuilding :
    (account_id : ℕ) (tileset : TargetTileset) (j : AccountJob)
    → is_target_job account_id tileset j ≡ true
    → IsBuilding account_id tileset j
is_target_job-IsBuilding account_id tileset j h = record {
  owned = ground arith;
  active = is_active-cases j.status (ground arith);
  target = elim (Bool-cases (is_at tileset.build_job_id j.id)) [
    | inl a ↦ inl ((is_at_iff tileset.build_job_id j.id).0 a)
    | inr a ↦ elim (Bool-cases (is_at j.tileset_id tileset.id)) [
      | inl b ↦ inr (inl ((is_at_iff j.tileset_id tileset.id).0 b))
      | inr b ↦ inr (inr ((is_at_iff j.target_tileset_id tileset.id).0 (ground arith)))
    ]
  ];
}

IsBuilding-is_target_job :
    (account_id : ℕ) (tileset : TargetTileset) (j : AccountJob)
    → IsBuilding account_id tileset j
    → is_target_job account_id tileset j ≡ true
IsBuilding-is_target_job account_id tileset j h =
    rw ((==_iff j.account_id account_id).1 h.owned, active_status h.active, targeted h.target) refl
  where
    active_status :
        (j.status ≡ JobStatus.pending) ⊎ (j.status ≡ JobStatus.processing)
        → is_active j.status ≡ true
    active_status (inl e) = rw e refl
    active_status (inr e) = rw e refl

    targeted :
        (tileset.build_job_id ≡ some j.id)
          ⊎ (j.tileset_id ≡ some tileset.id)
          ⊎ (j.target_tileset_id ≡ some tileset.id)
        → is_building tileset j ≡ true
    targeted (inl e) = let k = (is_at_iff tileset.build_job_id j.id).1 e in ground arith
    targeted (inr (inl e)) = let k = (is_at_iff j.tileset_id tileset.id).1 e in ground arith
    targeted (inr (inr e)) = let k = (is_at_iff j.target_tileset_id tileset.id).1 e in ground arith

Some-IsBuilding :
    (account_id : ℕ) (tileset : TargetTileset) (jobs : List AccountJob)
    → any_where (is_target_job account_id tileset) jobs ≡ true
    → Some (IsBuilding account_id tileset) jobs
unfolding any_where
Some-IsBuilding account_id tileset [] h = cc
Some-IsBuilding account_id tileset (j ∷ jobs) h =
    elim (Bool-cases (is_target_job account_id tileset j)) [
      | inl e ↦ inl (is_target_job-IsBuilding account_id tileset j e)
      | inr e ↦ inr (Some-IsBuilding account_id tileset jobs (rw e at h))
    ]

All-IsBuilding :
    (account_id : ℕ) (tileset : TargetTileset) (jobs : List AccountJob)
    → any_where (is_target_job account_id tileset) jobs ≡ false
    → All (λ j. ¬ IsBuilding account_id tileset j) jobs
unfolding any_where
All-IsBuilding account_id tileset [] h = tt
All-IsBuilding account_id tileset (j ∷ jobs) h =
    elim (Bool-cases (is_target_job account_id tileset j)) [
      | inl e ↦ cc (rw e at h)
      | inr e ↦ (
        λ b. let t = IsBuilding-is_target_job account_id tileset j b in cc,
        All-IsBuilding account_id tileset jobs (rw e at h),
      )
    ]

module _ (account_id dataset_version_id new_job_id now : ℕ) (configured : Option ℕ) where
  abbrev new_job : ℕ → AccountJob
  new_job tileset_id = record {
    id = new_job_id;
    account_id = account_id;
    status = pending;
    tileset_id = some tileset_id;
    target_tileset_id = none;
  }

  insert_build : TargetTileset → BuildTables → BuildTables
  insert_build tileset db = record {
    jobs = db.jobs ++ new_job tileset.id ∷ [];
    tilesets =
        update_where (λ t. t.id == tileset.id)
          (λ t. record t {
            status = TilesetStatus.building;
            build_job_id = some new_job_id;
            updated_at = now;
          })
          db.tilesets;
    events =
        db.events
        ++ record {
          account_id = account_id;
          tileset_id = tileset.id;
          job_id = new_job_id;
          dataset_version_id = dataset_version_id;
          min_zoom = or_else tileset.min_zoom 0;
          max_zoom = or_else tileset.max_zoom 14;
        }
          ∷ [];
    logs = db.logs ++ new_job_id ∷ [];
  }

  -- The transaction.
  unfoldable pub queue_build : TargetTileset → BuildTables → AutoBuild
  unfolding insert_build active_count
  queue_build tileset db =
      if leb (active_processing_job_limit configured) (active_count account_id db.jobs)
      then limit_reached
      else if any_where (is_target_job account_id tileset) db.jobs
      then already_active
      else queued new_job_id (insert_build tileset db)

  skip_log : Option ℕ → BuildTables → BuildTables
  skip_log none db = db
  skip_log (some job_id) db = record db { logs = db.logs ++ job_id ∷ [] }

  -- `meanwhile` is what others commit between the reading of the tileset and the transaction.
  with_tileset :
      (meanwhile : BuildTables → BuildTables)
      → ImportTarget
      → Option TargetTileset
      → BuildTables
      → AutoBuild
  unfolding queue_build skip_log
  with_tileset meanwhile target none db = no_target (skip_log target.processing_job_id db)
  with_tileset meanwhile target (some tileset) db = queue_build tileset (meanwhile db)

  with_target :
      (meanwhile : BuildTables → BuildTables) → Option ImportTarget → BuildTables → AutoBuild
  unfolding with_tileset
  with_target meanwhile none db = no_target db
  with_target meanwhile (some target) db = elim target.target_tileset_id [
    | none ↦ no_target db
    | some tileset_id ↦
        with_tileset meanwhile target
          (find_where
            (λ t. t.id == tileset_id && (t.account_id == account_id && is_none t.deleted_at))
            db.tilesets)
          db
  ]

  unfoldable pub queue_target_tileset_build_from_import :
      (meanwhile : BuildTables → BuildTables) → Option ImportTarget → BuildTables → AutoBuild
  unfolding with_target
  queue_target_tileset_build_from_import meanwhile target db = with_target meanwhile target db

  length-select_append :
      (p : AccountJob → Bool) (jobs : List AccountJob) (j : AccountJob)
      → p j ≡ true
      → length (select_where p (jobs ++ j ∷ [])) ≡ length (select_where p jobs) + 1
  unfolding select_where
  length-select_append p [] j h = rw h (omega arith)
  length-select_append p (x ∷ jobs) j h = elim (Bool-cases (p x)) [
    | inl e ↦ rw e (omega (arith, length-select_append p jobs j h))
    | inr e ↦ rw e (length-select_append p jobs j h)
  ]

  -- What a queued build leaves.
  pub record Queued (tileset : TargetTileset) (db db' : BuildTables) : Type 0 where
    pub inserted :
        db'.jobs
        ≡ db.jobs
          ++ record {
            id = new_job_id;
            account_id = account_id;
            status = pending;
            tileset_id = some tileset.id;
            target_tileset_id = none;
          }
            ∷ []
    pub announced :
        (e : BuildEvent) × (db'.events ≡ db.events ++ e ∷ [])
        × (e.account_id ≡ account_id)
        × (e.tileset_id ≡ tileset.id)
        × (e.job_id ≡ new_job_id)
        × (e.dataset_version_id ≡ dataset_version_id)
        × (e.min_zoom ≡ or_else tileset.min_zoom 0)
        × (e.max_zoom ≡ or_else tileset.max_zoom 14)
    pub counted : active_count account_id db'.jobs ≡ active_count account_id db.jobs + 1
    pub within : active_count account_id db'.jobs ≤ active_processing_job_limit configured
    pub alone : All (λ j. ¬ IsBuilding account_id tileset j) db.jobs
    pub building :
        All
          (λ t.
            (t.id == tileset.id ≡ false)
            ⊎ ((t.status ≡ TilesetStatus.building) × (t.build_job_id ≡ some new_job_id)))
          db'.tilesets

  pub data Queueing (tileset : TargetTileset) (db : BuildTables) : AutoBuild → Type 0 where
    full :
        active_processing_job_limit configured ≤ active_count account_id db.jobs
        → Queueing tileset db limit_reached
    busy : Some (IsBuilding account_id tileset) db.jobs → Queueing tileset db already_active
    done : (db' : BuildTables) → Queued tileset db db' → Queueing tileset db (queued new_job_id db')

  -- The transaction throws at the account's limit of active jobs, and if an active job of the account
  -- builds the tileset; otherwise it adds one pending job for the tileset and one event that asks for
  -- its build: the account has one active job more and stays within its limit, no active job of it
  -- built the tileset before, and the tileset is BUILDING by the new job.
  pub queue_build-Queueing :
      (tileset : TargetTileset) (db : BuildTables) → Queueing tileset db (queue_build tileset db)
  unfolding queue_build active_count
  queue_build-Queueing tileset db =
      let counted = active_count account_id db.jobs in
      elim (Bool-cases (leb (active_processing_job_limit configured) counted)) [
        | inl e ↦ rw e (full (ground arith))
        | inr e ↦ elim (Bool-cases (any_where (is_target_job account_id tileset) db.jobs)) [
          | inl t ↦ rw (e, t) (busy (Some-IsBuilding account_id tileset db.jobs t))
          | inr f ↦
              let room : counted < active_processing_job_limit configured = ground arith in
              let one_more : length
                    (select_where (is_counted account_id) (db.jobs ++ new_job tileset.id ∷ []))
                  ≡ length (select_where (is_counted account_id) db.jobs) + 1 =
                length-select_append (is_counted account_id) db.jobs (new_job tileset.id)
                  (rw ((==_iff account_id account_id).1 refl) refl) in
              rw (e, f)
                (done _ (record {
                  inserted = refl;
                  announced = (_, refl, refl, refl, refl, refl, refl, refl);
                  counted = one_more;
                  within = omega (arith, room, one_more);
                  alone = All-IsBuilding account_id tileset db.jobs f;
                  building =
                      update_where-makes
                        (λ (t : TargetTileset).
                          (t.id == tileset.id ≡ false)
                          ⊎ ((t.status ≡ TilesetStatus.building)
                              × (t.build_job_id ≡ some new_job_id)))
                        (λ t. t.id == tileset.id) _ db.tilesets (λ t k. inr (refl, refl))
                        (λ t k. inl k);
                }))
        ]
      ]
