-- ===== src/Styles/Capacity.antt =====
-- What a creation may leave in the table of styles: `createStyleRecord` and `duplicateStyleRecord`
-- of packages/database/src/styles/service.ts.
use text.Mathlib.TextEquality.{eq_iff}
use planisfy.Common.{
  ℕ, zero, suc, ◌+◌, ◌≤◌, String, Bool, true, false, ◌&&◌, Option, none, some, List, [], ◌∷◌, ◌++◌,
  ◌≡◌, refl, sym, subst, ◌⊎◌, inl, inr, is_none, leb→le, arith, ==_iff, Bool-cases, Option-cases,
  length, All,
}
use planisfy.Common.Text.{string_length}
use planisfy.Common.Json.{Json}
use planisfy.Common.Table.{select_where, find_where, any_where}
use planisfy.Common.Unique.{Unique, Unique-concat, any_where-All}
use planisfy.Quota.{Limit, finite, infinite}
use planisfy.Styles.{Style, StyleStore, is_live}
use planisfy.Styles.Handles.{
  style_handle_candidate, style_handle_candidate-length, normalize_custom_style_handle,
}
use planisfy.Styles.Creation.{
  invalid_handle, style_not_found, handle_unavailable, plan_limit, Creation, refused, created,
  NewStyle, is_owned, has_handle, style_count, at_capacity, new_style, limit_number,
  normalized_base, attempts_from, insert_within, insert_style_with_allocated_handle,
  create_style_record, duplicate_style_record,
}

-- Two styles of one owner with one handle, neither deleted.
abbrev pub same_handle : Style → Style → Bool
same_handle a b = is_none a.deleted_at && has_handle a.owner_id a.handle b

abbrev pub UniqueHandles : StyleStore → Type 0
UniqueHandles db = Unique same_handle db.styles

-- What a creation adds: one style of the owner at version 1, with a handle that fits the column and
-- that no other style of the owner has, within the limit.
pub record Added (owner_id : ℕ) (max_styles : Limit) (style : Style) (db db' : StyleStore)
    : Type 0 where
  pub appended : db'.styles ≡ db.styles ++ style ∷ []
  pub versions_kept : db'.style_versions ≡ db.style_versions
  pub publications_kept : db'.style_publications ≡ db.style_publications
  pub owned : style.owner_id ≡ owner_id
  pub first : style.version ≡ 1
  pub fits : string_length style.handle ≤ 64
  pub counted : style_count owner_id db' ≡ style_count owner_id db + 1
  pub within :
      (max_styles ≡ infinite)
      ⊎ ((n : ℕ) × (max_styles ≡ finite n) × (style_count owner_id db + 1 ≤ n))
  pub unique : UniqueHandles db'

-- The owner has every candidate of these rounds.
abbrev pub AllTaken : ℕ → String → StyleStore → (left attempt : ℕ) → Type 0
AllTaken owner_id base db zero attempt = Unit
AllTaken owner_id base db (suc left) attempt =
    (any_where (has_handle owner_id (style_handle_candidate base attempt)) db.styles ≡ true)
    × AllTaken owner_id base db left (attempt + 1)

-- `Invalid` and `Missing` say when there is no handle and no style.
pub data Ending (Invalid Missing : Type 0) (owner_id : ℕ) (max_styles : Limit) (db : StyleStore)
    : Creation → Type 0 where
  invalid : Invalid → Ending Invalid Missing owner_id max_styles db (refused invalid_handle)
  missing : Missing → Ending Invalid Missing owner_id max_styles db (refused style_not_found)
  full :
      (n : ℕ)
      → max_styles ≡ finite n
      → n ≤ style_count owner_id db
      → Ending Invalid Missing owner_id max_styles db (refused (plan_limit n))
  exhausted :
      (base : String)
      → AllTaken owner_id base db 101 0
      → Ending Invalid Missing owner_id max_styles db (refused handle_unavailable)
  added :
      (style : Style) (db' : StyleStore)
      → Added owner_id max_styles style db db'
      → Ending Invalid Missing owner_id max_styles db (created style db')

length-select_where-append :
    (p : Style → Bool) (xs : List Style) (x : Style)
    → p x ≡ true
    → length (select_where p (xs ++ x ∷ [])) ≡ length (select_where p xs) + 1
unfolding select_where
length-select_where-append p [] x h = rw h (omega arith)
length-select_where-append p (y ∷ xs) x h = elim (Bool-cases (p y)) [
  | inl e ↦ rw e (omega (arith, length-select_where-append p xs x h))
  | inr e ↦ rw e (length-select_where-append p xs x h)
]

-- A handle that no row of the owner has.
away :
    (xs : List Style) (style : Style)
    → style.deleted_at ≡ none
    → All (λ y. has_handle style.owner_id style.handle y ≡ false) xs
    → All (λ y. same_handle y style ≡ false) xs
away [] style d h = tt
away (y ∷ xs) style d (e, h) =
    (ground (arith, eq_iff y.handle style.handle, eq_iff style.handle y.handle), away xs style d h)

full-Ending :
    (Invalid Missing : Type 0) (owner_id : ℕ) (max_styles : Limit) (db : StyleStore)
    → at_capacity owner_id max_styles db ≡ true
    → Ending Invalid Missing owner_id max_styles db (refused (plan_limit (limit_number max_styles)))
unfolding at_capacity
full-Ending Invalid Missing owner_id infinite db e = cc
full-Ending Invalid Missing owner_id (finite n) db e =
    full n refl (leb→le n (style_count owner_id db) e)

room_within :
    (owner_id : ℕ) (max_styles : Limit) (db : StyleStore)
    → at_capacity owner_id max_styles db ≡ false
    → (max_styles ≡ infinite)
      ⊎ ((n : ℕ) × (max_styles ≡ finite n) × (style_count owner_id db + 1 ≤ n))
unfolding at_capacity
room_within owner_id infinite db e = inl refl
room_within owner_id (finite n) db e = inr (n, refl, ground arith)

module _ (to_lower_case : String → String) (new_id now : ℕ) (max_styles : Limit) (db : StyleStore)
    (unique : UniqueHandles db) where
  created_at :
      (base : String) (attempt : ℕ) (input : NewStyle)
      → attempt ≤ 100
      → at_capacity input.owner_id max_styles db ≡ false
      → any_where (has_handle input.owner_id (style_handle_candidate base attempt)) db.styles
        ≡ false
      → Added input.owner_id max_styles
          (new_style to_lower_case new_id now input (style_handle_candidate base attempt))
          db
          (record db {
            styles =
                db.styles
                ++ new_style to_lower_case new_id now input (style_handle_candidate base attempt)
                  ∷ [];
          })
  unfolding style_count
  created_at base attempt input le room free =
      let style = new_style to_lower_case new_id now input (style_handle_candidate base attempt) in
      record {
        appended = refl;
        versions_kept = refl;
        publications_kept = refl;
        owned = refl;
        first = refl;
        fits = style_handle_candidate-length base attempt le;
        counted =
            length-select_where-append (is_owned input.owner_id) db.styles style
              (rw ((==_iff input.owner_id input.owner_id).1 refl) refl);
        within = room_within input.owner_id max_styles db room;
        unique = Unique-concat same_handle db.styles style unique (
            away db.styles style refl (
              any_where-All (has_handle input.owner_id (style_handle_candidate base attempt))
                db.styles free));
      }

  -- A loop that ends with no style has met every candidate.
  attempts_from-cases :
      (left attempt : ℕ) (base : String) (input : NewStyle)
      → left + attempt ≤ 101
      → at_capacity input.owner_id max_styles db ≡ false
      → ((attempts_from to_lower_case new_id now left attempt base input db
            ≡ refused handle_unavailable)
          × AllTaken input.owner_id base db left attempt)
        ⊎ ((style : Style) × (db' : StyleStore) × (attempts_from to_lower_case new_id now left
                attempt base input db
              ≡ created style db')
            × Added input.owner_id max_styles style db db')
  unfolding attempts_from
  attempts_from-cases zero attempt base input le room = inl (refl, tt)
  attempts_from-cases (suc left) attempt base input le room =
      elim (Bool-cases
        (any_where (has_handle input.owner_id (style_handle_candidate base attempt)) db.styles)) [
          | inl e ↦ elim (attempts_from-cases left (attempt + 1) base input (omega arith) room) [
            | inl (f, k) ↦ inl (rw e f, (e, k))
            | inr (style, db', f, k) ↦ inr (style, db', rw e f, k)
          ]
          | inr e ↦ inr (_, _, rw e refl, created_at base attempt input (omega arith) room e)
        ]

  module _ (Invalid Missing : Type 0) where
    insert_style_with_allocated_handle-Ending :
        (input : NewStyle)
        → at_capacity input.owner_id max_styles db ≡ false
        → Ending Invalid Missing input.owner_id max_styles db
            (insert_style_with_allocated_handle to_lower_case new_id now input db)
    unfolding insert_style_with_allocated_handle
    insert_style_with_allocated_handle-Ending input room =
        elim (attempts_from-cases 101 0 (normalized_base to_lower_case new_id now input.base_handle)
          input (omega arith) room) [
            | inl (f, k) ↦
                subst (Ending Invalid Missing input.owner_id max_styles db) (sym f)
                  (exhausted (normalized_base to_lower_case new_id now input.base_handle) k)
            | inr (style, db', f, k) ↦
                subst (Ending Invalid Missing input.owner_id max_styles db) (sym f)
                  (added style db' k)
          ]

    insert_within-Ending :
        (input : NewStyle)
        → Ending Invalid Missing input.owner_id max_styles db
            (insert_within to_lower_case new_id now max_styles input db)
    unfolding insert_within
    insert_within-Ending input = elim (Bool-cases (at_capacity input.owner_id max_styles db)) [
      | inl e ↦ rw e (full-Ending Invalid Missing input.owner_id max_styles db e)
      | inr e ↦ rw e (insert_style_with_allocated_handle-Ending input e)
    ]

  -- A creation ends in one of four ways. It is turned down for a custom handle that is none, at the
  -- plan's limit, or when the owner has all 101 candidates of a base; otherwise it adds exactly one
  -- style of the owner at version 1, with a handle of at most 64 characters that no other style of the
  -- owner has which is not deleted, and with it the owner has no more styles than a finite limit
  -- allows. Snapshots and publications are left alone. No two styles have one handle to begin with.
  pub create_style_record-Ending :
      (owner_id : ℕ) (name : String) (handle description : Option String) (style_json : Option Json)
      → Ending
          ((h : String) × (handle ≡ some h)
            × (normalize_custom_style_handle to_lower_case h ≡ none))
          ⊥
          owner_id
          max_styles
          db
          (create_style_record to_lower_case new_id now owner_id name handle description style_json
            max_styles db)
  unfolding create_style_record
  create_style_record-Ending owner_id name none description style_json = insert_within-Ending _ ⊥ _
  create_style_record-Ending owner_id name (some handle) description style_json =
      elim (Option-cases (normalize_custom_style_handle to_lower_case handle)) [
        | inl e ↦ rw e (invalid (handle, refl, e))
        | inr (h, e) ↦ rw e (insert_within-Ending _ ⊥ _)
      ]

  -- The same of a duplicate, which is refused for a style that the owner has not got.
  pub duplicate_style_record-Ending :
      (owner_id style_id : ℕ)
      → Ending ⊥
          (find_where (is_live owner_id style_id) db.styles ≡ none)
          owner_id
          max_styles
          db
          (duplicate_style_record to_lower_case new_id now owner_id style_id max_styles db)
  unfolding duplicate_style_record
  duplicate_style_record-Ending owner_id style_id =
      elim (Option-cases (find_where (is_live owner_id style_id) db.styles)) [
        | inl e ↦ rw e (missing refl)
        | inr (s, e) ↦ rw e (insert_within-Ending ⊥ _ _)
      ]
