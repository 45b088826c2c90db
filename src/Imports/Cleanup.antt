-- ===== src/Imports/Cleanup.antt =====
-- The event `artifact.cleanup.requested`: `dispatchArtifactCleanupRequested` of
-- apps/worker-geodata/src/domains/outbox/outbox-dispatcher.ts. Whether the storage deletes a file is an
-- argument.
use text.Mathlib.Text.{◌==◌ as str_eq}
use planisfy.Common.{
  ℕ, String, Bool, true, false, not, ◌&&◌, some, List, [], ◌∷◌, ◌≡◌, refl, sym, ◌∙◌, ◌⊎◌, inl, inr,
  Bool-cases, if◌then◌else◌, ◌==◌, is_none, is_some, or_else, All, take, subst,
}
use planisfy.Common.Table.{
  any_where, delete_where, update_where, update_where-All, select_where, update_where-makes,
}
use planisfy.Imports.{ImportStore, StorageObject, has_file, import_failed, Step, done, raised}
use planisfy.Imports.Artifacts.{delete_file}
use planisfy.Imports.Race.{delete_file-has_file}

-- The payload names an object, or the objects of a resource.
pub data CleanupPayload : Type 0 where
  of_object : (storage_object_id : ℕ) → CleanupPayload
  of_resource : (resource_type : String) (resource_id : ℕ) → CleanupPayload

abbrev pub is_selected : CleanupPayload → StorageObject → Bool
is_selected (of_object id) o = o.id == id
is_selected (of_resource resource_type resource_id) o =
    str_eq o.resource_type resource_type && o.resource_id == resource_id

-- `limit(1)` of the first query
abbrev pub limited : CleanupPayload → List StorageObject → List StorageObject
limited (of_object id) objects = take 1 objects
limited (of_resource resource_type resource_id) objects = objects

module _ (deletes : String → Bool) (now : ℕ) where
  -- One round: the file, then the row.
  unfoldable pub clean : StorageObject → ImportStore → ImportStore
  clean object db = record db {
    files = delete_file object.storage_key db.files;
    objects =
        update_where (λ o. o.id == object.id)
          (λ o. record o { deleted_at = some (or_else object.deleted_at now); updated_at = now })
          db.objects;
  }

  unfoldable pub clean_objects : List StorageObject → ImportStore → Step Unit
  unfolding clean
  clean_objects [] db = done tt db
  clean_objects (object ∷ rest) db =
      let going_on = clean_objects rest (clean object db) in
      if deletes object.storage_key then going_on else raised (import_failed "delete failed") db

  unfoldable pub dispatch_artifact_cleanup_requested : CleanupPayload → ImportStore → Step Unit
  unfolding clean_objects
  dispatch_artifact_cleanup_requested payload db =
      clean_objects (limited payload (select_where (is_selected payload) db.objects)) db

  -- What a finished cleanup leaves of an object: no file under its key, and no row with its id that
  -- is not deleted.
  pub record Gone (db : ImportStore) (object : StorageObject) : Type 0 where
    pub no_file : has_file object.storage_key db.files ≡ false
    pub no_row : All (λ o. (o.id == object.id ≡ false) ⊎ (is_some o.deleted_at ≡ true)) db.objects

  delete_file-keeps_none :
      (key gone : String) (files : List String)
      → has_file gone files ≡ false
      → has_file gone (delete_file key files) ≡ false
  unfolding any_where delete_where
  delete_file-keeps_none key gone [] h = refl
  delete_file-keeps_none key gone (f ∷ files) h = elim (Bool-cases (str_eq f gone)) [
    | inl e ↦ cc (rw e at h)
    | inr e ↦ elim (Bool-cases (str_eq f key)) [
      | inl t ↦ rw t (delete_file-keeps_none key gone files (rw e at h))
      | inr t ↦ rw (t, e) (delete_file-keeps_none key gone files (rw e at h))
    ]
  ]

  clean-Gone : (object : StorageObject) (db : ImportStore) → Gone (clean object db) object
  unfolding clean
  clean-Gone object db = record {
    no_file = delete_file-has_file object.storage_key db.files;
    no_row =
        update_where-makes
          (λ (o : StorageObject). (o.id == object.id ≡ false) ⊎ (is_some o.deleted_at ≡ true)) _ _
          db.objects (λ o e. inr refl) (λ o e. inl e);
  }

  clean-keeps_Gone :
      (object other : StorageObject) (db : ImportStore)
      → Gone db other
      → Gone (clean object db) other
  unfolding clean
  clean-keeps_Gone object other db gone = record {
    no_file = delete_file-keeps_none object.storage_key other.storage_key db.files gone.no_file;
    no_row =
        update_where-All
          (λ (o : StorageObject). (o.id == other.id ≡ false) ⊎ (is_some o.deleted_at ≡ true))
          (λ (o : StorageObject). (o.id == other.id ≡ false) ⊎ (is_some o.deleted_at ≡ true)) _ _
          db.objects (λ o k e. inr refl) (λ o k e. k) gone.no_row;
  }

  -- How a cleanup ends: it throws at a file that the storage keeps, or all its objects are gone.
  pub data Cleaning (objects : List StorageObject) : Step Unit → Type 0 where
    stuck :
        (object : StorageObject) (db : ImportStore)
        → deletes object.storage_key ≡ false
        → Cleaning objects (raised (import_failed "delete failed") db)
    cleaned : (db : ImportStore) → All (Gone db) objects → Cleaning objects (done tt db)

  clean_objects-cases :
      (objects : List StorageObject) (db : ImportStore)
      → ((object : StorageObject) × (db' : ImportStore) × (clean_objects objects db
            ≡ raised (import_failed "delete failed") db')
          × (deletes object.storage_key ≡ false))
        ⊎ ((db' : ImportStore) × (clean_objects objects db ≡ done tt db')
            × All (Gone db') objects
            × ((other : StorageObject) → Gone db other → Gone db' other))
  unfolding clean_objects
  clean_objects-cases [] db = inr (db, refl, tt, λ other gone. gone)
  clean_objects-cases (object ∷ rest) db = elim (Bool-cases (deletes object.storage_key)) [
    | inr f ↦ inl (object, db, rw f refl, f)
    | inl t ↦ elim (clean_objects-cases rest (clean object db)) [
      | inl (o, db', e, f) ↦ inl (o, db', rw t e, f)
      | inr (db', e, all, kept) ↦ inr (
        db',
        rw t e,
        (kept object (clean-Gone object db), all),
        λ other gone. kept other (clean-keeps_Gone object other db gone),
      )
    ]
  ]

  -- A cleanup either throws at an object whose file the storage does not delete, or it finishes: then
  -- no object that its payload named has a file under its key or a row that is not deleted.
  pub dispatch_artifact_cleanup_requested-Cleaning :
      (payload : CleanupPayload) (db : ImportStore)
      → Cleaning
          (limited payload (select_where (is_selected payload) db.objects))
          (dispatch_artifact_cleanup_requested payload db)
  unfolding dispatch_artifact_cleanup_requested
  dispatch_artifact_cleanup_requested-Cleaning payload db =
      let objects = limited payload (select_where (is_selected payload) db.objects) in
      elim (clean_objects-cases objects db) [
        | inl (o, db', e, f) ↦ subst (Cleaning objects) (sym e) (stuck o db' f)
        | inr (db', e, all, kept) ↦ subst (Cleaning objects) (sym e) (cleaned db' all)
      ]

  -- Another object with the key, not deleted.
  abbrev pub is_reused : StorageObject → StorageObject → Bool
  is_reused object o =
      not (o.id == object.id) && (is_none o.deleted_at && str_eq o.storage_key object.storage_key)

  update_where-reused :
      (object : StorageObject) (objects : List StorageObject)
      → any_where (is_reused object) (
          update_where
            (λ o. o.id == object.id)
            (λ o. record o { deleted_at = some (or_else object.deleted_at now); updated_at = now })
            objects)
        ≡ any_where (is_reused object) objects
  unfolding any_where update_where
  update_where-reused object [] = refl
  update_where-reused object (o ∷ objects) = elim (Bool-cases (o.id == object.id)) [
    | inl e ↦ rw (e, e) (update_where-reused object objects)
    | inr e ↦ rw (e, e, update_where-reused object objects) refl
  ]

  -- The cleanup of an object deletes the file under its key also where another object that is not
  -- deleted has the same key: that object's row stays and its file is gone.
  pub dispatch_artifact_cleanup_requested-loses_file :
      (object : StorageObject) (rest : List StorageObject) (db : ImportStore)
      → select_where (is_selected (of_object object.id)) db.objects ≡ object ∷ rest
      → deletes object.storage_key ≡ true
      → any_where (is_reused object) db.objects ≡ true
      → (db' : ImportStore) × (dispatch_artifact_cleanup_requested (of_object object.id) db
          ≡ done tt db')
        × (any_where (is_reused object) db'.objects ≡ true)
        × (has_file object.storage_key db'.files ≡ false)
  unfolding dispatch_artifact_cleanup_requested clean
  dispatch_artifact_cleanup_requested-loses_file object rest db found ok reused = (
    clean object db,
    rw (found, ok) refl,
    update_where-reused object db.objects ∙ reused,
    delete_file-has_file object.storage_key db.files,
  )
