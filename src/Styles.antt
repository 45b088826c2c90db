-- ===== src/Styles.antt =====
-- Styles, their revisions and their publications: packages/database/src/styles/service.ts, over the
-- tables `styles` and `style_versions` of packages/database/src/schema/resources.ts and
-- `style_publications` of packages/database/src/schema/geodata.ts.
-- Ids are naturals and times are milliseconds; a fresh id is an argument. A transaction that throws
-- leaves the tables as they were.
pub mod History
pub mod Revisions
pub mod Restore
pub mod Publishing
pub mod Handles
pub mod Creation
pub mod Capacity
mod Tests
use planisfy.Common.{
  ℕ, ◌+◌, String, Bool, true, false, not, ◌&&◌, Option, none, some, List, [], ◌∷◌, ◌++◌,
  if◌then◌else◌, ◌==◌, is_none, or_else,
}
use planisfy.Common.Json.{Json}
use planisfy.Common.Table.{update_where, find_where, any_where}

pub record Style : Type 0 where
  pub id : ℕ
  pub owner_id : ℕ
  pub handle : String
  pub name : String
  pub description : Option String
  pub style_json : Json
  pub original_style_json : Option Json
  pub is_public : Bool
  pub version : ℕ
  pub updated_at : ℕ
  pub deleted_at : Option ℕ

pub record StyleVersion : Type 0 where
  pub id : ℕ
  pub style_id : ℕ
  pub version : ℕ
  pub style_json : Json
  pub name : String
  pub created_by : Option ℕ

-- The alias "latest", and "v" with a version.
pub data Alias : Type 0 where
  latest : Alias
  numbered : ℕ → Alias

abbrev pub same_alias : Alias → Alias → Bool
same_alias latest latest = true
same_alias (numbered m) (numbered n) = m == n
same_alias _ _ = false

-- `metadata` is an object with the version only.
pub record StylePublication : Type 0 where
  pub style_id : ℕ
  pub style_version_id : ℕ
  pub account_id : ℕ
  pub alias : Alias
  pub metadata_version : ℕ

pub record StyleStore : Type 0 where
  pub styles : List Style
  pub style_versions : List StyleVersion
  pub style_publications : List StylePublication

pub data StyleRevisionError : Type 0 where
  style_not_found version_not_found : StyleRevisionError
  version_conflict : ℕ → StyleRevisionError

-- A field is `none` where the source's is undefined; a description may be set to null.
pub record StyleRevisionUpdate : Type 0 where
  pub name : Option String
  pub description : Option (Option String)
  pub style_json : Option Json

pub record Revised : Type 0 where
  pub id : ℕ
  pub version : ℕ
  pub updated_at : ℕ

pub data Revision : Type 0 where
  failed : StyleRevisionError → Revision
  revised : Revised → StyleStore → Revision

-- A style of the owner that is not deleted.
abbrev pub is_live : ℕ → ℕ → Style → Bool
is_live owner_id style_id s = s.id == style_id && (s.owner_id == owner_id && is_none s.deleted_at)

abbrev pub is_version : ℕ → ℕ → StyleVersion → Bool
is_version style_id version v = v.style_id == style_id && v.version == version

-- The insertion of a snapshot, which does nothing where the style has one of the version.
unfoldable pub add_snapshot : StyleVersion → List StyleVersion → List StyleVersion
add_snapshot v versions =
    if any_where (is_version v.style_id v.version) versions then versions else versions ++ v ∷ []

abbrev pub revise : StyleRevisionUpdate → ℕ → Style → Style
revise updates now s = record s {
  name = or_else updates.name s.name;
  description = or_else updates.description s.description;
  style_json = or_else updates.style_json s.style_json;
  version = s.version + 1;
  updated_at = now;
}

module _ (owner_id style_id : ℕ) where
  -- The condition of the update: the style as it was locked.
  abbrev pub is_current : Style → Style → Bool
  is_current current s = is_live owner_id current.id s && s.version == current.version

  module _ (expected_version actor_user_id new_id now : ℕ) (db : StyleStore) where
    abbrev snapshot_of : Style → StyleVersion
    snapshot_of current = record {
      id = new_id;
      style_id = current.id;
      version = current.version;
      style_json = current.style_json;
      name = current.name;
      created_by = some actor_user_id;
    }

    -- Behind `resolveUpdates`: the snapshot and the update.
    write_revision : Style → StyleRevisionUpdate → Revision
    write_revision current updates =
        if any_where (is_current current) db.styles
        then revised (record { id = current.id; version = current.version + 1; updated_at = now })
            (record db {
              style_versions = add_snapshot (snapshot_of current) db.style_versions;
              styles = update_where (is_current current) (revise updates now) db.styles;
            })
        else failed (version_conflict current.version)

    -- `resolve` is `none` where `resolveUpdates` throws VERSION_NOT_FOUND.
    with_updates : Style → Option StyleRevisionUpdate → Revision
    unfolding write_revision
    with_updates current none = failed version_not_found
    with_updates current (some updates) = write_revision current updates

    revise_locked : Option Style → Option StyleRevisionUpdate → Revision
    unfolding with_updates
    revise_locked none resolve = failed style_not_found
    revise_locked (some current) resolve =
        if not (current.version == expected_version)
        then failed (version_conflict current.version)
        else with_updates current resolve

    unfoldable pub mutate_style_revision : Option StyleRevisionUpdate → Revision
    unfolding revise_locked add_snapshot
    mutate_style_revision resolve =
        revise_locked (find_where (is_live owner_id style_id) db.styles) resolve

    unfoldable pub update_style_revision : StyleRevisionUpdate → Revision
    unfolding mutate_style_revision
    update_style_revision updates = mutate_style_revision (some updates)

    restored : Option StyleVersion → Option StyleRevisionUpdate
    restored none = none
    restored (some snapshot) = some (record {
      name = some snapshot.name;
      description = none;
      style_json = some snapshot.style_json;
    })

    unfoldable pub restore_style_revision : ℕ → Revision
    unfolding mutate_style_revision restored
    restore_style_revision target_version =
        mutate_style_revision
          (restored (find_where (is_version style_id target_version) db.style_versions))

-- `softDeleteStyleRecord`: whether a style was deleted, and the tables.
unfoldable pub soft_delete_style_record :
    (owner_id style_id now : ℕ) → StyleStore → Bool × StyleStore
soft_delete_style_record owner_id style_id now db = (
  any_where (is_live owner_id style_id) db.styles,
  record db {
    styles =
        update_where (is_live owner_id style_id)
          (λ s. record s { deleted_at = some now; updated_at = now }) db.styles;
  },
)

abbrev pub is_publication : ℕ → Alias → StylePublication → Bool
is_publication style_id alias p = p.style_id == style_id && same_alias p.alias alias

-- `onConflictDoUpdate` and `onConflictDoNothing` on the style and the alias.
unfoldable pub put_publication : StylePublication → List StylePublication → List StylePublication
put_publication p publications =
    if any_where (is_publication p.style_id p.alias) publications
    then update_where (is_publication p.style_id p.alias)
        (λ q. record q {
          style_version_id = p.style_version_id;
          account_id = p.account_id;
          metadata_version = p.metadata_version;
        })
        publications
    else publications ++ p ∷ []

unfoldable pub add_publication : StylePublication → List StylePublication → List StylePublication
add_publication p publications =
    if any_where (is_publication p.style_id p.alias) publications
    then publications
    else publications ++ p ∷ []

-- What `toggleStylePublishRecord` ends in: null, a throw, or whether the style is public now.
pub data Toggled : Type 0 where
  absent thrown : Toggled
  toggled : Bool → StyleStore → Toggled

-- The style is read without a lock; `meanwhile` is what others commit behind that reading.
module _ (owner_id style_id new_id now : ℕ) (meanwhile : StyleStore → StyleStore) where
  set_public : Bool → StyleStore → Toggled
  set_public is_public db =
      if any_where (λ s. s.id == style_id) db.styles
      then toggled is_public (record db {
        styles =
            update_where (λ s. s.id == style_id)
              (λ s. record s { is_public = is_public; updated_at = now }) db.styles;
      })
      else absent

  abbrev publication : StyleVersion → Alias → StylePublication
  publication snapshot alias = record {
    style_id = style_id;
    style_version_id = snapshot.id;
    account_id = owner_id;
    alias = alias;
    metadata_version = snapshot.version;
  }

  publish_snapshot : Option StyleVersion → StyleStore → Toggled
  unfolding set_public put_publication add_publication
  publish_snapshot none db = thrown
  publish_snapshot (some snapshot) db = set_public true (record db {
    style_publications =
        add_publication (publication snapshot (numbered snapshot.version))
          (put_publication (publication snapshot latest) db.style_publications);
  })

  publish : Style → StyleStore → Toggled
  unfolding publish_snapshot add_snapshot
  publish style db =
      let versions =
        add_snapshot
          (record {
            id = new_id;
            style_id = style_id;
            version = style.version;
            style_json = style.style_json;
            name = style.name;
            created_by = none;
          })
          db.style_versions in
      publish_snapshot (find_where (is_version style_id style.version) versions)
        (record db { style_versions = versions })

  toggle_found : Option Style → StyleStore → Toggled
  unfolding publish
  toggle_found none db = absent
  toggle_found (some style) db =
      if style.is_public then set_public false (meanwhile db) else publish style (meanwhile db)

  unfoldable pub toggle_style_publish_record : StyleStore → Toggled
  unfolding toggle_found
  toggle_style_publish_record db =
      toggle_found (find_where (is_live owner_id style_id) db.styles) db
