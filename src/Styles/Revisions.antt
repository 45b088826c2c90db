-- ===== src/Styles/Revisions.antt =====
-- The revisions of a style refine its history: `updateStyleRevision` and `restoreStyleRevision` of
-- packages/database/src/styles/service.ts.
use planisfy.Common.{
  ℕ, suc, ◌+◌, Bool, true, false, Option, some, List, [], ◌∷◌, ◌≡◌, refl, sym, ap, ◌∙◌, subst, inl,
  inr, ◌==◌, arith, ==_iff, Bool-cases, length, All,
}
use planisfy.Common.Table.{update_where, find_where, any_where, find_where-holds}
use planisfy.Common.Unique.{find_where-update_where}
use planisfy.Styles.{
  Style, StyleVersion, StyleStore, StyleRevisionUpdate, version_conflict, Revised, Revision, failed,
  revised, is_live, is_current, add_snapshot, revise, mutate_style_revision, update_style_revision,
}
use planisfy.Styles.History.{
  Content, History, content_of, amend, Kept, IsTrue, Represents, add_snapshot-Kept,
  add_snapshot-IsTrue, IsTrue-cons,
}

pub find_where-any_where {ℓ} :
    {A : Type ℓ} (p q : A → Bool) (xs : List A) (x : A)
    → find_where p xs ≡ some x
    → q x ≡ true
    → any_where q xs ≡ true
unfolding find_where any_where
find_where-any_where p q [] x h k = cc
find_where-any_where p q (y ∷ xs) x h k = elim (Bool-cases (p y)) [
  | inl e ↦
      let same : y ≡ x = cc (rw e at h) in
      let t : q y ≡ true = subst (λ z. q z ≡ true) (sym same) k in rw t refl
  | inr e ↦ elim (Bool-cases (q y)) [
    | inl t ↦ rw t refl
    | inr t ↦ rw t (find_where-any_where p q xs x (rw e at h) k)
  ]
]

live_id : (owner_id style_id : ℕ) (s : Style) → is_live owner_id style_id s ≡ true → s.id ≡ style_id
live_id owner_id style_id s h = (==_iff s.id style_id).0 (ground (arith, h))

abbrev pub snapshot : Style → (actor_user_id new_id : ℕ) → StyleVersion
snapshot s actor_user_id new_id = record {
  id = new_id;
  style_id = s.id;
  version = s.version;
  style_json = s.style_json;
  name = s.name;
  created_by = some actor_user_id;
}

module _ (owner_id style_id actor_user_id new_id now : ℕ) (db : StyleStore) where
  abbrev pub written : Style → StyleRevisionUpdate → StyleStore
  written s u = record db {
    style_versions = add_snapshot (snapshot s actor_user_id new_id) db.style_versions;
    styles = update_where (is_current owner_id style_id s) (revise u now) db.styles;
  }

  current_self :
      (s : Style) → is_live owner_id s.id s ≡ true → is_current owner_id style_id s s ≡ true
  current_self s e = rw (e, (==_iff s.version s.version).1 refl) refl

  module _ (s : Style) (c : Content) (h : History)
      (found : find_where (is_live owner_id s.id) db.styles ≡ some s)
      (numbered : s.version ≡ suc (length h)) (newest : content_of s ≡ c) where
    written-Represents :
        (u : StyleRevisionUpdate)
        → Kept s.id h db.style_versions
        → All (IsTrue s.id (c ∷ h)) db.style_versions
        → Represents owner_id s.id (written s u) (amend u c) (c ∷ h)
    written-Represents u kept truthful = record {
      style = revise u now s;
      found =
          find_where-update_where (is_live owner_id s.id) (is_current owner_id style_id s)
            (revise u now) (λ x. refl) db.styles s found
          ∙ rw (current_self s (find_where-holds (is_live owner_id s.id) db.styles s found)) refl;
      numbered = omega arith;
      newest = ap (amend u) newest;
      kept =
          add_snapshot-Kept c h (snapshot s actor_user_id new_id) numbered newest db.style_versions
            kept;
      truthful = IsTrue-cons s.id (amend u c) (c ∷ h) _ (
          add_snapshot-IsTrue c h (snapshot s actor_user_id new_id) numbered newest
            db.style_versions truthful);
    }

  module _ (c : Content) (h : History) (r : Represents owner_id style_id db c h) where
    pub current_id : r.style.id ≡ style_id
    current_id =
        live_id owner_id style_id r.style
          (find_where-holds (is_live owner_id style_id) db.styles r.style r.found)

    found_by_id : find_where (is_live owner_id r.style.id) db.styles ≡ some r.style
    found_by_id =
        subst (λ i. find_where (is_live owner_id i) db.styles ≡ some r.style) (sym current_id)
          r.found

    pub after_update :
        (u : StyleRevisionUpdate)
        → Represents owner_id style_id (written r.style u) (amend u c) (c ∷ h)
    after_update u =
        subst (λ i. Represents owner_id i (written r.style u) (amend u c) (c ∷ h)) current_id
          (written-Represents r.style c h found_by_id r.numbered r.newest u
            (subst (λ i. Kept i h db.style_versions) (sym current_id) r.kept)
            (subst (λ i. All (IsTrue i (c ∷ h)) db.style_versions) (sym current_id) r.truthful))

    any_current : any_where (is_current owner_id style_id r.style) db.styles ≡ true
    any_current =
        find_where-any_where (is_live owner_id r.style.id) (is_current owner_id style_id r.style)
          db.styles r.style found_by_id
          (current_self r.style
            (find_where-holds (is_live owner_id r.style.id) db.styles r.style found_by_id))

    abbrev pub reply : Revised
    reply = record { id = r.style.id; version = r.style.version + 1; updated_at = now }

    pub mutate_at :
        (expected_version : ℕ)
        → expected_version ≡ suc (length h)
        → (u : StyleRevisionUpdate)
        → mutate_style_revision owner_id style_id expected_version actor_user_id new_id now db
            (some u)
          ≡ revised reply (written r.style u)
    unfolding mutate_style_revision
    mutate_at expected_version e u =
        rw (r.found, (==_iff r.style.version expected_version).1 (r.numbered ∙ sym e), any_current)
          refl

    pub mutate_conflict :
        (expected_version : ℕ)
        → (suc (length h) == expected_version) ≡ false
        → (resolve : Option StyleRevisionUpdate)
        → mutate_style_revision owner_id style_id expected_version actor_user_id new_id now db
            resolve
          ≡ failed (version_conflict (suc (length h)))
    unfolding mutate_style_revision
    mutate_conflict expected_version e resolve =
        let f : (r.style.version == expected_version) ≡ false =
          ap (λ n. n == expected_version) r.numbered ∙ e in
        rw (r.found, f) (ap (λ n. failed (version_conflict n)) r.numbered)

-- How an update meets a history: it needs the newest version, and then adds the amended content.
pub data Updating (owner_id style_id expected_version : ℕ) (u : StyleRevisionUpdate) (c : Content)
    (h : History) : Revision → Type 0 where
  conflict :
      (suc (length h) == expected_version) ≡ false
      → Updating owner_id style_id expected_version u c h
          (failed (version_conflict (suc (length h))))
  amended :
      expected_version ≡ suc (length h)
      → (x : Revised) → x.version ≡ suc (suc (length h))
      → (db' : StyleStore) → Represents owner_id style_id db' (amend u c) (c ∷ h)
      → Updating owner_id style_id expected_version u c h (revised x db')

module _ (owner_id style_id expected_version actor_user_id new_id now : ℕ) (db : StyleStore)
    (c : Content) (h : History) where
  -- An update of a style refines its history. With the newest version it adds the amended content,
  -- keeps every earlier one at its version, and answers with the next version; with any other
  -- version it fails with a conflict that names the newest one.
  pub update_style_revision-refines :
      (u : StyleRevisionUpdate)
      → Represents owner_id style_id db c h
      → Updating owner_id style_id expected_version u c h
          (update_style_revision owner_id style_id expected_version actor_user_id new_id now db u)
  unfolding update_style_revision
  update_style_revision-refines u r = elim (Bool-cases (suc (length h) == expected_version)) [
    | inl e ↦
        let e' = sym ((==_iff (suc (length h)) expected_version).0 e) in
        subst (Updating owner_id style_id expected_version u c h)
          (sym
            (mutate_at owner_id style_id actor_user_id new_id now db c h r expected_version e' u))
          (amended e' (reply owner_id style_id actor_user_id new_id now db c h r)
            (omega (arith, r.numbered)) _
            (after_update owner_id style_id actor_user_id new_id now db c h r u))
    | inr e ↦
        subst (Updating owner_id style_id expected_version u c h)
          (sym (
            mutate_conflict owner_id style_id actor_user_id new_id now db c h r expected_version e
              (some u)))
          (conflict e)
  ]
