-- ===== src/Styles/Publishing.antt =====
-- Publishing a style while others edit it: `toggleStylePublishRecord` of
-- packages/database/src/styles/service.ts.
use planisfy.Common.{
  ℕ, suc, Bool, true, false, none, some, List, [], ◌∷◌, ◌++◌, ◌≡◌, refl, sym, ap, ◌∙◌, subst, inl,
  inr, ◌==◌, arith, ==_iff, Bool-cases, length, All, All-append,
}
use planisfy.Common.Table.{update_where, find_where, any_where, find_where-holds}
use planisfy.Common.Unique.{find_where-update_where, find_where-append_self}
use planisfy.Styles.{
  Style, StyleVersion, Alias, latest, numbered, same_alias, StylePublication, StyleStore, is_live,
  is_version, add_snapshot, is_publication, put_publication, add_publication, toggled,
  toggle_style_publish_record,
}
use planisfy.Styles.History.{
  Content, History, snapshot_content, content_at, IsTrue, Represents, Kept-add_snapshot,
  add_snapshot-any_where,
}
use planisfy.Styles.Revisions.{find_where-any_where, current_id}
use planisfy.Styles.Restore.{any_where-find_where, true_snapshot}

-- The alias "latest" names a snapshot of that version and content.
pub record PublishedAs (style_id version : ℕ) (c : Content) (db : StyleStore) : Type 0 where
  pub snapshot : StyleVersion
  pub stored : find_where (is_version style_id version) db.style_versions ≡ some snapshot
  pub content : snapshot_content snapshot ≡ c
  pub publication : StylePublication
  pub named : find_where (is_publication style_id latest) db.style_publications ≡ some publication
  pub points : publication.style_version_id ≡ snapshot.id

find_where-append {ℓ} :
    {A : Type ℓ} (p : A → Bool) (xs ys : List A) (x : A)
    → find_where p xs ≡ some x
    → find_where p (xs ++ ys) ≡ some x
unfolding find_where
find_where-append p [] ys x h = cc
find_where-append p (y ∷ xs) ys x h = elim (Bool-cases (p y)) [
  | inl e ↦ rw e (rw e at h)
  | inr e ↦ rw e (find_where-append p xs ys x (rw e at h))
]

same_alias_self : (a : Alias) → same_alias a a ≡ true
same_alias_self latest = refl
same_alias_self (numbered n) = (==_iff n n).1 refl

abbrev pointed : StylePublication → StylePublication → StylePublication
pointed p q = record q {
  style_version_id = p.style_version_id;
  account_id = p.account_id;
  metadata_version = p.metadata_version;
}

-- Behind `onConflictDoUpdate` the alias names the new snapshot.
put_publication-points :
    (p : StylePublication) (publications : List StylePublication)
    → (q : StylePublication) × (find_where
          (is_publication p.style_id p.alias)
          (put_publication p publications)
        ≡ some q)
      × (q.style_version_id ≡ p.style_version_id)
unfolding put_publication
put_publication-points p publications =
    let mine = is_publication p.style_id p.alias in
    elim (Bool-cases (any_where mine publications)) [
      | inl t ↦
          let (y, f) = any_where-find_where mine publications t in
          (
            pointed p y,
            rw t (
                find_where-update_where mine mine (pointed p) (λ x. refl) publications y f
                ∙ rw (find_where-holds mine publications y f) refl),
            refl,
          )
      | inr f ↦ (
        p,
        rw f (
            find_where-append_self mine publications p f
              (rw ((==_iff p.style_id p.style_id).1 refl, same_alias_self p.alias) refl)),
        refl,
      )
    ]

add_publication-append :
    (p : StylePublication) (publications : List StylePublication) (s : ℕ) (q : StylePublication)
    → find_where (is_publication s latest) publications ≡ some q
    → find_where (is_publication s latest) (add_publication p publications) ≡ some q
unfolding add_publication
add_publication-append p publications s q h =
    elim (Bool-cases (any_where (is_publication p.style_id p.alias) publications)) [
      | inl t ↦ rw t h
      | inr f ↦ rw f (find_where-append (is_publication s latest) publications (p ∷ []) q h)
    ]

module _ (owner_id style_id new_id now : ℕ) (meanwhile : StyleStore → StyleStore)
    (db : StyleStore) where
  -- The row of the style under the last update.
  set_public-found :
      (is_public : Bool) (styles : List Style) (s : Style)
      → find_where (is_live owner_id style_id) styles ≡ some s
      → find_where (is_live owner_id style_id) (
          update_where
            (λ x. x.id == style_id)
            (λ x. record x { is_public = is_public; updated_at = now })
            styles)
        ≡ some (record s { is_public = is_public; updated_at = now })
  set_public-found is_public styles s f =
      let live = find_where-holds (is_live owner_id style_id) styles s f in
      let mine : (s.id == style_id) ≡ true = ground (arith, live) in
      find_where-update_where (is_live owner_id style_id) (λ x. x.id == style_id) _ (λ x. refl)
        styles s f
      ∙ rw mine refl

  module _ (c : Content) (h : History) (r : Represents owner_id style_id db c h)
      (private_ : r.style.is_public ≡ false) (c' : Content) (h' : History)
      (r' : Represents owner_id style_id (meanwhile db) c' h')
      (grown : content_at (c' ∷ h') (suc (length h)) ≡ some c) where
    abbrev taken : StyleVersion
    taken = record {
      id = new_id;
      style_id = style_id;
      version = r.style.version;
      style_json = r.style.style_json;
      name = r.style.name;
      created_by = none;
    }

    abbrev versions : List StyleVersion
    versions = add_snapshot taken (meanwhile db).style_versions

    at_read : content_at (c' ∷ h') r.style.version ≡ some (snapshot_content taken)
    at_read = ap (content_at (c' ∷ h')) r.numbered ∙ (grown ∙ ap some (sym r.newest))

    versions-IsTrue : All (IsTrue style_id (c' ∷ h')) versions
    unfolding add_snapshot
    versions-IsTrue =
        elim (Bool-cases
          (any_where (is_version style_id r.style.version) (meanwhile db).style_versions)) [
            | inl t ↦ rw t r'.truthful
            | inr f ↦ rw f (
                All-append (IsTrue style_id (c' ∷ h')) (meanwhile db).style_versions (taken ∷ [])
                  r'.truthful (inr at_read, tt))
          ]

    snapshot_there :
        (w : StyleVersion) × (find_where (is_version style_id r.style.version) versions ≡ some w)
    snapshot_there =
        any_where-find_where (is_version style_id r.style.version) versions
          (add_snapshot-any_where taken (meanwhile db).style_versions)

    with_versions :
        Represents owner_id style_id (record (meanwhile db) { style_versions = versions }) c' h'
    with_versions = record {
      style = r'.style;
      found = r'.found;
      numbered = r'.numbered;
      newest = r'.newest;
      kept = Kept-add_snapshot style_id h' taken (meanwhile db).style_versions r'.kept;
      truthful = versions-IsTrue;
    }

    abbrev publication : Alias → StylePublication
    publication alias = record {
      style_id = style_id;
      style_version_id = snapshot_there.0.id;
      account_id = owner_id;
      alias = alias;
      metadata_version = snapshot_there.0.version;
    }

    abbrev outcome : StyleStore
    outcome = record {
      styles =
          update_where (λ x. x.id == style_id)
            (λ x. record x { is_public = true; updated_at = now }) (meanwhile db).styles;
      style_versions = versions;
      style_publications =
          add_publication (publication (numbered snapshot_there.0.version))
            (put_publication (publication latest) (meanwhile db).style_publications);
    }

    outcome-Represents : Represents owner_id style_id outcome c' h'
    outcome-Represents = record {
      style = record r'.style { is_public = true; updated_at = now };
      found = set_public-found true (meanwhile db).styles r'.style r'.found;
      numbered = r'.numbered;
      newest = r'.newest;
      kept = with_versions.kept;
      truthful = versions-IsTrue;
    }

    outcome-PublishedAs : PublishedAs style_id (suc (length h)) c outcome
    outcome-PublishedAs =
        let (q, f, p) =
          put_publication-points (publication latest) (meanwhile db).style_publications in
        record {
          snapshot = snapshot_there.0;
          stored =
              subst (λ n. find_where (is_version style_id n) versions ≡ some snapshot_there.0)
                r.numbered snapshot_there.1;
          content =
              true_snapshot owner_id style_id (record (meanwhile db) { style_versions = versions })
                c' h' with_versions r.style.version snapshot_there.0 c snapshot_there.1
                (ap (content_at (c' ∷ h')) r.numbered ∙ grown);
          publication = q;
          named =
              add_publication-append (publication (numbered snapshot_there.0.version)) _ style_id q
                f;
          points = p;
        }

    there_still : any_where (λ (x : Style). x.id == style_id) (meanwhile db).styles ≡ true
    there_still =
        find_where-any_where (is_live owner_id style_id) (λ x. x.id == style_id)
          (meanwhile db).styles r'.style r'.found
          ((==_iff r'.style.id style_id).1
            (current_id owner_id style_id 0 new_id now (meanwhile db) c' h' r'))

    -- A style that was read as private is published with the content that was read, even if others
    -- revise it before the transaction writes: "latest" names a snapshot of that version and that
    -- content, and the history that the others left is kept.
    pub toggle_style_publish_record-PublishedAs :
        (db' : StyleStore) × (toggle_style_publish_record owner_id style_id new_id now meanwhile db
          ≡ toggled true db')
        × Represents owner_id style_id db' c' h'
        × PublishedAs style_id (suc (length h)) c db'
    unfolding toggle_style_publish_record
    toggle_style_publish_record-PublishedAs = (
      outcome,
      rw (r.found, private_, snapshot_there.1, there_still) refl,
      outcome-Represents,
      outcome-PublishedAs,
    )
