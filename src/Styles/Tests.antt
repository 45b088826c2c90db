-- ===== src/Styles/Tests.antt =====
-- Styles at a concrete store: one style with two earlier versions, of which the first was renamed.
use planisfy.Common.{ℕ, String, true, false, some, none, [], ◌∷◌, ◌≡◌, refl, inr}
use planisfy.Common.Json.{number, truncate}
use planisfy.Common.Text.{trim_start, trim_end}
use planisfy.Common.Table.{update_where, find_where, any_where}
use planisfy.Quota.{finite}
use planisfy.Styles.{
  Style, StyleVersion, StyleStore, StyleRevisionUpdate, failed, revised, Revised, version_conflict,
  update_style_revision, restore_style_revision, toggled, toggle_style_publish_record,
  soft_delete_style_record,
}
use planisfy.Styles.History.{Content, History, Represents, amend}
use planisfy.Styles.Revisions.{Updating, update_style_revision-refines}
use planisfy.Styles.Restore.{update_style_revision-once, restore_style_revision-update}
use planisfy.Styles.Publishing.{PublishedAs, toggle_style_publish_record-PublishedAs}
use planisfy.Styles.Handles.{slugify_style_name, normalize_custom_style_handle, is_handle_from}
use planisfy.Styles.Creation.{create_style_record, normalized_base}
use planisfy.Styles.Capacity.{Ending, create_style_record-Ending}

abbrev rivers : Style
rivers = record {
  id = 5;
  owner_id = 7;
  handle = "rivers";
  name = "Rivers";
  description = none;
  style_json = number 3;
  original_style_json = none;
  is_public = false;
  version = 3;
  updated_at = 900;
  deleted_at = none;
}

abbrev kept : ℕ → ℕ → String → StyleVersion
kept id version name = record {
  id = id;
  style_id = 5;
  version = version;
  style_json = number version;
  name = name;
  created_by = some 1;
}

abbrev store : StyleStore
store = record {
  styles = rivers ∷ [];
  style_versions = kept 21 1 "Water" ∷ kept 22 2 "Rivers" ∷ [];
  style_publications = [];
}

abbrev now_content : Content
now_content = record { name = "Rivers"; style_json = number 3 }

abbrev earlier : History
earlier =
    record { name = "Rivers"; style_json = number 2 }
    ∷ record { name = "Water"; style_json = number 1 }
    ∷ []

store-Represents : Represents 7 5 store now_content earlier
unfolding find_where any_where
store-Represents = record {
  style = rivers;
  found = refl;
  numbered = refl;
  newest = refl;
  kept = (refl, (refl, tt));
  truthful = (inr refl, (inr refl, tt));
}

abbrev rename : StyleRevisionUpdate
rename = record { name = some "Streams"; description = none; style_json = none }

abbrev renamed : StyleStore
renamed = record {
  styles = record rivers { name = "Streams"; version = 4; updated_at = 1000 } ∷ [];
  style_versions =
      kept 21 1 "Water"
      ∷ kept 22 2 "Rivers"
      ∷ record (kept 23 3 "Rivers") { created_by = some 8 }
      ∷ [];
  style_publications = [];
}

abbrev reply_4 : Revised
reply_4 = record { id = 5; version = 4; updated_at = 1000 }

rename_run : update_style_revision 7 5 3 8 23 1000 store rename ≡ revised reply_4 renamed
unfolding update_style_revision find_where any_where update_where
rename_run = refl

-- A failed revision leaves the tables as they were; the answer to a stale editor names version 3.
stale_run : update_style_revision 7 5 2 8 23 1000 store rename ≡ failed (version_conflict 3)
unfolding update_style_revision find_where any_where update_where
stale_run = refl

deleted_run : (soft_delete_style_record 7 5 1000 store).0 ≡ true
unfolding soft_delete_style_record any_where
deleted_run = refl

update_style_revision-refines_example :
    Updating 7 5 3 rename now_content earlier (update_style_revision 7 5 3 8 23 1000 store rename)
update_style_revision-refines_example =
    update_style_revision-refines 7 5 3 8 23 1000 store now_content earlier rename store-Represents

update_style_revision-once_example :
    update_style_revision 7 5 3 9 24 1010 renamed rename ≡ failed (version_conflict 4)
update_style_revision-once_example =
    update_style_revision-once 7 5 3 8 23 1000 store now_content earlier rename reply_4 renamed
      store-Represents rename_run 9 24 1010 rename

restore_style_revision-update_example :
    (y : Revised) × (db₂ : StyleStore) × (restore_style_revision 7 5 4 9 24 1010 renamed 3
      ≡ revised y db₂)
    × Represents 7 5 db₂ now_content (amend rename now_content ∷ now_content ∷ earlier)
restore_style_revision-update_example =
    restore_style_revision-update 7 5 3 8 23 1000 store now_content earlier rename reply_4 renamed
      store-Represents rename_run 9 24 1010

renamed-Represents : Represents 7 5 renamed (amend rename now_content) (now_content ∷ earlier)
unfolding find_where any_where
renamed-Represents = record {
  style = record rivers { name = "Streams"; version = 4; updated_at = 1000 };
  found = refl;
  numbered = refl;
  newest = refl;
  kept = (refl, (refl, (refl, tt)));
  truthful = (inr refl, (inr refl, (inr refl, tt)));
}

-- Somebody renames the style while it is published.
toggle_style_publish_record-PublishedAs_example :
    (db' : StyleStore) × (toggle_style_publish_record 7 5 30 1010 (λ _. renamed) store
      ≡ toggled true db')
    × Represents 7 5 db' (amend rename now_content) (now_content ∷ earlier)
    × PublishedAs 5 3 now_content db'
unfolding store-Represents
toggle_style_publish_record-PublishedAs_example =
    toggle_style_publish_record-PublishedAs 7 5 30 1010 (λ _. renamed) store now_content earlier
      store-Represents refl (amend rename now_content) (now_content ∷ earlier) renamed-Represents
      refl

-- The copy of a handle of 61 characters: the cut at 60 leaves a dash at its end, which is no handle.
cut_at_dash :
    (normalized_base
        (λ s. s)
        6
        1000
        "aaaaaaaaaaaaaaaaaaaaaaaaaaaaaaaaaaaaaaaaaaaaaaaaaaaaaaaaaaa-b-copy"
      ≡ "aaaaaaaaaaaaaaaaaaaaaaaaaaaaaaaaaaaaaaaaaaaaaaaaaaaaaaaaaaa-")
    × (is_handle_from true "aaaaaaaaaaaaaaaaaaaaaaaaaaaaaaaaaaaaaaaaaaaaaaaaaaaaaaaaaaa-" ≡ false)
unfolding slugify_style_name normalize_custom_style_handle is_handle_from truncate trim_start
    trim_end
cut_at_dash = (refl, refl)

create_style_record-Ending_example :
    Ending
      ((h : String) × (some "Lakes" ≡ some h) × (normalize_custom_style_handle (λ s. s) h ≡ none))
      ⊥
      7
      (finite 2)
      store
      (create_style_record (λ s. s) 6 1000 7 "Lakes" (some "Lakes") none none (finite 2) store)
create_style_record-Ending_example =
    create_style_record-Ending (λ s. s) 6 1000 (finite 2) store (tt, tt) 7 "Lakes" (some "Lakes")
      none none
