-- ===== src/Styles/Creation.antt =====
-- Creating styles: `createStyleRecord` and `duplicateStyleRecord` of
-- packages/database/src/styles/service.ts. Both hold the owner's advisory lock, so that a creation is
-- atomic for the owner. An id that is given is fresh.
use text.Mathlib.Text.{◌==◌ as str_eq}
use planisfy.Common.{
  ℕ, zero, suc, ◌+◌, ◌-◌, String, Bool, false, ◌&&◌, Option, none, some, [], ◌∷◌, ◌++◌,
  if◌then◌else◌, ◌==◌, leb, is_none, or_else, length,
}
use planisfy.Common.Text.{append, string_length}
use planisfy.Common.Json.{Json, number, str, array, object, nil, end, field, truncate}
use planisfy.Common.Table.{select_where, find_where, any_where}
use planisfy.Quota.{Limit, finite, infinite}
use planisfy.Styles.{Style, StyleStore, is_live}
use planisfy.Styles.Handles.{
  normalize_custom_style_handle, slugify_style_name, style_handle_candidate,
}

pub data StyleCreationError : Type 0 where
  invalid_handle style_not_found handle_unavailable : StyleCreationError
  plan_limit : ℕ → StyleCreationError

pub data Creation : Type 0 where
  refused : StyleCreationError → Creation
  created : Style → StyleStore → Creation

abbrev pub style_handle_attempts : ℕ
style_handle_attempts = 100

-- The rows that the count of `assertStyleCapacity` and the unique index on handles are about.
abbrev pub is_owned : ℕ → Style → Bool
is_owned owner_id s = s.owner_id == owner_id && is_none s.deleted_at

abbrev pub has_handle : ℕ → String → Style → Bool
has_handle owner_id handle s = is_owned owner_id s && str_eq s.handle handle

unfoldable pub style_count : ℕ → StyleStore → ℕ
style_count owner_id db = length (select_where (is_owned owner_id) db.styles)

-- Whether `assertStyleCapacity` throws.
unfoldable pub at_capacity : ℕ → Limit → StyleStore → Bool
unfolding style_count
at_capacity owner_id infinite db = false
at_capacity owner_id (finite max_styles) db = leb max_styles (style_count owner_id db)

abbrev pub limit_number : Limit → ℕ
limit_number (finite n) = n
limit_number infinite = 0

abbrev pub blank_style : String → Json
blank_style name = object (
    field "version" (number 8)
      (field "name" (str name) (field "sources" (object end) (field "layers" (array nil) end))))

pub record NewStyle : Type 0 where
  pub owner_id : ℕ
  pub base_handle : String
  pub name : String
  pub description : Option String
  pub style_json : Json

unfoldable pub duplicate_style_name : String → String
unfolding truncate
duplicate_style_name name = append (truncate (128 - string_length " (copy)") name) " (copy)"

module _ (to_lower_case : String → String) (new_id now : ℕ) where
  abbrev pub new_style : NewStyle → String → Style
  new_style input handle = record {
    id = new_id;
    owner_id = input.owner_id;
    handle = handle;
    name = input.name;
    description = input.description;
    style_json = input.style_json;
    original_style_json = some input.style_json;
    is_public = false;
    version = 1;
    updated_at = now;
    deleted_at = none;
  }

  -- The rounds of the loop that are left, from an attempt on. The insertion does nothing where the
  -- owner has a style with the handle that is not deleted.
  unfoldable pub attempts_from : ℕ → ℕ → String → NewStyle → StyleStore → Creation
  attempts_from zero attempt base input db = refused handle_unavailable
  attempts_from (suc left) attempt base input db =
      let next = attempts_from left (attempt + 1) base input db in
      let handle = style_handle_candidate base attempt in
      let style = new_style input handle in
      if any_where (has_handle input.owner_id handle) db.styles
      then next
      else created style (record db { styles = db.styles ++ style ∷ [] })

  abbrev non_empty : String → String
  non_empty s = if str_eq s "" then "untitled" else s

  abbrev pub normalized_base : String → String
  normalized_base base =
      or_else (normalize_custom_style_handle to_lower_case base)
        (non_empty (slugify_style_name to_lower_case base))

  unfoldable pub insert_style_with_allocated_handle : NewStyle → StyleStore → Creation
  unfolding attempts_from
  insert_style_with_allocated_handle input db =
      attempts_from (suc style_handle_attempts) 0 (normalized_base input.base_handle) input db

  unfoldable pub insert_within : Limit → NewStyle → StyleStore → Creation
  unfolding insert_style_with_allocated_handle
  insert_within max_styles input db =
      if at_capacity input.owner_id max_styles db
      then refused (plan_limit (limit_number max_styles))
      else insert_style_with_allocated_handle input db

  -- Behind the check of a custom handle.
  create_checked :
      Limit → (owner_id : ℕ) (name : String) → Option String → Json → String → StyleStore → Creation
  unfolding insert_within
  create_checked max_styles owner_id name description style_json base_handle db =
      insert_within max_styles
        (record {
          owner_id = owner_id;
          base_handle = base_handle;
          name = name;
          description = description;
          style_json = style_json;
        })
        db

  create_custom :
      Limit
      → (owner_id : ℕ) (name : String) → Option String
      → Json
      → Option String
      → StyleStore
      → Creation
  unfolding create_checked
  create_custom max_styles owner_id name description style_json none db = refused invalid_handle
  create_custom max_styles owner_id name description style_json (some handle) db =
      create_checked max_styles owner_id name description style_json handle db

  unfoldable pub create_style_record :
      (owner_id : ℕ) (name : String)
      → (handle description : Option String) (style_json : Option Json) → Limit
      → StyleStore
      → Creation
  unfolding create_custom
  create_style_record owner_id name none description style_json max_styles db =
      create_checked max_styles owner_id name description (or_else style_json (blank_style name))
        (slugify_style_name to_lower_case name) db
  create_style_record owner_id name (some handle) description style_json max_styles db =
      create_custom max_styles owner_id name description (or_else style_json (blank_style name))
        (normalize_custom_style_handle to_lower_case handle) db

  duplicate_found : Limit → ℕ → Option Style → StyleStore → Creation
  unfolding insert_within
  duplicate_found max_styles owner_id none db = refused style_not_found
  duplicate_found max_styles owner_id (some original) db =
      insert_within max_styles
        (record {
          owner_id = owner_id;
          base_handle = append original.handle "-copy";
          name = duplicate_style_name original.name;
          description = original.description;
          style_json = original.style_json;
        })
        db

  unfoldable pub duplicate_style_record : (owner_id style_id : ℕ) → Limit → StyleStore → Creation
  unfolding duplicate_found
  duplicate_style_record owner_id style_id max_styles db =
      duplicate_found max_styles owner_id (find_where (is_live owner_id style_id) db.styles) db
