-- ===== src/Styles/History.antt =====
-- What the revisions of a style are: a list of contents that grows at its head. The tables of
-- packages/database/src/styles/service.ts represent such a history.
use planisfy.Common.{
  ℕ, suc, ◌≤◌, String, Bool, true, false, ◌&&◌, Option, none, some, List, [], ◌∷◌, ◌++◌, ◌≡◌, refl,
  sym, ap, ◌∙◌, subst, ◌⊎◌, inl, inr, ◌==◌, arith, ==_iff, Bool-cases, or_else, length, All,
  All-append, All-map, if◌then◌else◌,
}
use planisfy.Common.Json.{Json}
use planisfy.Common.Table.{find_where, any_where}
use planisfy.Common.Unique.{any_where-append_self}
use planisfy.Styles.{
  Style, StyleVersion, StyleStore, StyleRevisionUpdate, is_live, is_version, add_snapshot,
}

-- What a snapshot keeps: the name and the style. The description is not kept.
pub record Content : Type 0 where
  pub name : String
  pub style_json : Json

-- The newest content first.
abbrev pub History : Type 0
History = List Content

abbrev pub content_of : Style → Content
content_of s = record { name = s.name; style_json = s.style_json }

abbrev pub snapshot_content : StyleVersion → Content
snapshot_content v = record { name = v.name; style_json = v.style_json }

-- The content of a version; the oldest is version 1.
abbrev pub content_at : History → ℕ → Option Content
content_at [] v = none
content_at (c ∷ h) v = if v == suc (length h) then some c else content_at h v

abbrev pub amend : StyleRevisionUpdate → Content → Content
amend u c = record { name = or_else u.name c.name; style_json = or_else u.style_json c.style_json }

-- Every version of a history has a snapshot.
abbrev pub Kept : ℕ → History → List StyleVersion → Type 0
Kept style_id [] versions = Unit
Kept style_id (c ∷ h) versions =
    (any_where (is_version style_id (suc (length h))) versions ≡ true) × Kept style_id h versions

-- A snapshot of the style has the content of its version.
abbrev pub IsTrue : ℕ → History → StyleVersion → Type 0
IsTrue style_id h v =
    ((v.style_id == style_id) ≡ false) ⊎ (content_at h v.version ≡ some (snapshot_content v))

-- The tables hold the history: the style is its newest content and has its length as version,
-- every earlier version has a snapshot, and no snapshot of the style says anything else.
pub record Represents (owner_id style_id : ℕ) (db : StyleStore) (c : Content) (h : History)
    : Type 0 where
  pub style : Style
  pub found : find_where (is_live owner_id style_id) db.styles ≡ some style
  pub numbered : style.version ≡ suc (length h)
  pub newest : content_of style ≡ c
  pub kept : Kept style_id h db.style_versions
  pub truthful : All (IsTrue style_id (c ∷ h)) db.style_versions

pub content_at-le : (h : History) (v : ℕ) (c : Content) → content_at h v ≡ some c → v ≤ length h
content_at-le [] v c e = cc
content_at-le (d ∷ h) v c e = elim (Bool-cases (v == suc (length h))) [
  | inl t ↦ omega (arith, (==_iff v (suc (length h))).0 t)
  | inr f ↦ omega (arith, content_at-le h v c (rw f at e))
]

-- A new content leaves the earlier ones at their versions.
pub content_at-cons :
    (d : Content) (h : History) (v : ℕ) (c : Content)
    → content_at h v ≡ some c
    → content_at (d ∷ h) v ≡ some c
content_at-cons d h v c e = elim (Bool-cases (v == suc (length h))) [
  | inl t ↦ absurd (omega (arith, content_at-le h v c e, (==_iff v (suc (length h))).0 t))
  | inr f ↦ rw f e
]

pub content_at-head : (c : Content) (h : History) → content_at (c ∷ h) (suc (length h)) ≡ some c
content_at-head c h = rw ((==_iff (suc (length h)) (suc (length h))).1 refl) refl

pub any_where-append {ℓ} :
    {A : Type ℓ} (p : A → Bool) (xs ys : List A)
    → any_where p xs ≡ true
    → any_where p (xs ++ ys) ≡ true
unfolding any_where
any_where-append p [] ys h = cc
any_where-append p (x ∷ xs) ys h = elim (Bool-cases (p x)) [
  | inl e ↦ rw e refl
  | inr e ↦ rw e (any_where-append p xs ys (rw e at h))
]

pub is_version_self :
    (style_id version : ℕ) → ((style_id == style_id) && (version == version)) ≡ true
is_version_self style_id version =
    rw ((==_iff style_id style_id).1 refl, (==_iff version version).1 refl) refl

pub add_snapshot-any_where :
    (w : StyleVersion) (versions : List StyleVersion)
    → any_where (is_version w.style_id w.version) (add_snapshot w versions) ≡ true
unfolding add_snapshot
add_snapshot-any_where w versions =
    elim (Bool-cases (any_where (is_version w.style_id w.version) versions)) [
      | inl t ↦ rw (t, t) refl
      | inr f ↦ rw f (
          any_where-append_self (is_version w.style_id w.version) versions w
            (is_version_self w.style_id w.version))
    ]

pub Kept-add_snapshot :
    (style_id : ℕ) (h : History) (w : StyleVersion) (versions : List StyleVersion)
    → Kept style_id h versions
    → Kept style_id h (add_snapshot w versions)
unfolding add_snapshot
Kept-add_snapshot style_id [] w versions k = tt
Kept-add_snapshot style_id (c ∷ h) w versions (e, k) = (
  elim (Bool-cases (any_where (is_version w.style_id w.version) versions)) [
    | inl t ↦ rw t e
    | inr f ↦ rw f (any_where-append (is_version style_id (suc (length h))) versions (w ∷ []) e)
  ],
  Kept-add_snapshot style_id h w versions k,
)

-- A snapshot of the newest content keeps the history.
module _ (c : Content) (h : History) (w : StyleVersion) (version : w.version ≡ suc (length h))
    (same : snapshot_content w ≡ c) (versions : List StyleVersion) where
  pub add_snapshot-Kept :
      Kept w.style_id h versions → Kept w.style_id (c ∷ h) (add_snapshot w versions)
  unfolding add_snapshot
  add_snapshot-Kept k = (
    subst (λ n. any_where (is_version w.style_id n) (add_snapshot w versions) ≡ true) version
        (add_snapshot-any_where w versions),
    Kept-add_snapshot w.style_id h w versions k,
  )

  pub add_snapshot-IsTrue :
      All (IsTrue w.style_id (c ∷ h)) versions
      → All (IsTrue w.style_id (c ∷ h)) (add_snapshot w versions)
  unfolding add_snapshot
  add_snapshot-IsTrue a = elim (Bool-cases (any_where (is_version w.style_id w.version) versions)) [
    | inl t ↦ rw t a
    | inr f ↦ rw f (
        All-append (IsTrue w.style_id (c ∷ h)) versions (w ∷ []) a (
          inr (
              subst (λ n. content_at (c ∷ h) n ≡ some (snapshot_content w)) (sym version)
                (content_at-head c h ∙ ap some (sym same))),
          tt,
        ))
  ]

-- Adding a content.
pub IsTrue-cons :
    (style_id : ℕ) (d : Content) (h : History) (versions : List StyleVersion)
    → All (IsTrue style_id h) versions
    → All (IsTrue style_id (d ∷ h)) versions
IsTrue-cons style_id d h versions =
    All-map (IsTrue style_id h) (IsTrue style_id (d ∷ h)) versions (λ v. keep v)
  where
    keep : (v : StyleVersion) → IsTrue style_id h v → IsTrue style_id (d ∷ h) v
    keep v (inl e) = inl e
    keep v (inr e) = inr (content_at-cons d h v.version (snapshot_content v) e)
