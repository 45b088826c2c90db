-- ===== src/Styles/Restore.antt =====
-- Restoring a version, and two editors of one version: `restoreStyleRevision` and
-- `updateStyleRevision` of packages/database/src/styles/service.ts.
use planisfy.Common.{
  ℕ, suc, Bool, true, none, some, List, [], ◌∷◌, ◌≡◌, refl, sym, ap, ◌∙◌, subst, inl, inr, ◌==◌,
  arith, ==_iff, Bool-cases, length, All,
}
use planisfy.Common.Table.{find_where, any_where, find_where-holds}
use planisfy.Styles.{
  StyleVersion, StyleStore, StyleRevisionUpdate, version_conflict, Revised, Revision, failed,
  revised, is_version, update_style_revision, restore_style_revision,
}
use planisfy.Styles.History.{
  Content, History, snapshot_content, content_at, content_at-cons, content_at-head, amend, Kept,
  IsTrue, Represents,
}
use planisfy.Styles.Revisions.{
  Updating, conflict, amended, update_style_revision-refines, mutate_at, mutate_conflict,
  after_update, reply, written,
}

-- A kept version has a snapshot.
Kept-any_where :
    (style_id : ℕ) (h : History) (versions : List StyleVersion) (v : ℕ) (d : Content)
    → Kept style_id h versions
    → content_at h v ≡ some d
    → any_where (is_version style_id v) versions ≡ true
Kept-any_where style_id [] versions v d k e = cc
Kept-any_where style_id (c ∷ h) versions v d (t, k) e = elim (Bool-cases (v == suc (length h))) [
  | inl same ↦
      subst (λ n. any_where (is_version style_id n) versions ≡ true)
        (sym ((==_iff v (suc (length h))).0 same)) t
  | inr other ↦ Kept-any_where style_id h versions v d k (rw other at e)
]

pub any_where-find_where {ℓ} :
    {A : Type ℓ} (p : A → Bool) (xs : List A)
    → any_where p xs ≡ true
    → (x : A) × (find_where p xs ≡ some x)
unfolding any_where find_where
any_where-find_where p [] h = cc
any_where-find_where p (x ∷ xs) h = elim (Bool-cases (p x)) [
  | inl e ↦ (x, rw e refl)
  | inr e ↦ let (y, f) = any_where-find_where p xs (rw e at h) in (y, rw e f)
]

find_where-All {ℓ} :
    {A : Type ℓ} (P : A → Type 0) (p : A → Bool) (xs : List A) (x : A)
    → find_where p xs ≡ some x
    → All P xs
    → P x
unfolding find_where
find_where-All P p [] x h a = cc
find_where-All P p (y ∷ xs) x h (b, a) = elim (Bool-cases (p y)) [
  | inl e ↦ let same : y ≡ x = cc (rw e at h) in subst P same b
  | inr e ↦ find_where-All P p xs x (rw e at h) a
]

-- The snapshot that a version's query finds has the version's content.
module _ (owner_id style_id : ℕ) (db : StyleStore) (c : Content) (h : History)
    (r : Represents owner_id style_id db c h) where
  pub true_snapshot :
      (v : ℕ) (w : StyleVersion) (d : Content)
      → find_where (is_version style_id v) db.style_versions ≡ some w
      → content_at (c ∷ h) v ≡ some d
      → snapshot_content w ≡ d
  true_snapshot v w d f e =
      let t : is_version style_id v w ≡ true =
        find_where-holds (is_version style_id v) db.style_versions w f in
      let same : w.version ≡ v = (==_iff w.version v).0 (ground (arith, t)) in
      elim (find_where-All (IsTrue style_id (c ∷ h)) (is_version style_id v) db.style_versions w f
        r.truthful) [
          | inl away ↦ cc (rw away at t)
          | inr told ↦
              let both : some (snapshot_content w) ≡ some d =
                sym told ∙ (ap (content_at (c ∷ h)) same ∙ e) in
              cc both
        ]

abbrev of_snapshot : StyleVersion → StyleRevisionUpdate
of_snapshot w = record { name = some w.name; description = none; style_json = some w.style_json }

-- Restoring an earlier version of a history, with its newest version as the expected one, succeeds:
-- the history gets that version's name and style as its newest content and keeps all others.
pub restore_style_revision-refines :
    (owner_id style_id actor_user_id new_id now : ℕ) (db : StyleStore) (c : Content) (h : History)
    → (target_version : ℕ) (d : Content) → Represents owner_id style_id db c h
    → content_at h target_version ≡ some d
    → (x : Revised) × (db' : StyleStore) × (restore_style_revision owner_id style_id
          (suc (length h))
          actor_user_id
          new_id
          now
          db
          target_version
        ≡ revised x db')
      × (x.version ≡ suc (suc (length h)))
      × Represents owner_id style_id db' d (c ∷ h)
unfolding restore_style_revision
restore_style_revision-refines owner_id style_id actor_user_id new_id now db c h target_version d r
      e =
    let there = Kept-any_where style_id h db.style_versions target_version d r.kept e in
    let (w, f) =
      any_where-find_where (is_version style_id target_version) db.style_versions there in
    let same =
      true_snapshot owner_id style_id db c h r target_version w d f
        (content_at-cons c h target_version d e) in
    (
      reply owner_id style_id actor_user_id new_id now db c h r,
      written owner_id style_id actor_user_id new_id now db r.style (of_snapshot w),
      rw f (
          mutate_at owner_id style_id actor_user_id new_id now db c h r (suc (length h)) refl
            (of_snapshot w)),
      omega (arith, r.numbered),
      subst
          (λ x.
            Represents owner_id style_id
              (written owner_id style_id actor_user_id new_id now db r.style (of_snapshot w)) x
              (c ∷ h))
          same (after_update owner_id style_id actor_user_id new_id now db c h r (of_snapshot w)),
    )

Updating-revised :
    (owner_id style_id expected_version : ℕ) (u : StyleRevisionUpdate) (c : Content) (h : History)
    (result : Revision) (x : Revised) (db' : StyleStore)
    → Updating owner_id style_id expected_version u c h result
    → result ≡ revised x db'
    → (expected_version ≡ suc (length h)) × Represents owner_id style_id db' (amend u c) (c ∷ h)
Updating-revised owner_id style_id expected_version u c h _ x db' (conflict e) k = cc
Updating-revised owner_id style_id expected_version u c h _ x db' (amended e y v db₁ r) k =
    let same : db₁ ≡ db' = cc in
    (e, subst (λ z. Represents owner_id style_id z (amend u c) (c ∷ h)) same r)

module _ (owner_id style_id expected_version : ℕ) (actor_user_id new_id now : ℕ) (db : StyleStore)
    (c : Content) (h : History) (u : StyleRevisionUpdate) (x : Revised) (db' : StyleStore)
    (r : Represents owner_id style_id db c h)
    (done : update_style_revision owner_id style_id expected_version actor_user_id new_id now db u
      ≡ revised x db') where
  after : (expected_version ≡ suc (length h)) × Represents owner_id style_id db' (amend u c) (c ∷ h)
  after =
      Updating-revised owner_id style_id expected_version u c h _ x db'
        (update_style_revision-refines owner_id style_id expected_version actor_user_id new_id now
          db c h u r)
        done

  -- Of two editors who start from one version only one succeeds: once an update with it has
  -- succeeded, any other with the same version fails with a conflict that names the next one.
  pub update_style_revision-once :
      (actor_user_id' new_id' now' : ℕ) (u' : StyleRevisionUpdate)
      → update_style_revision owner_id style_id expected_version actor_user_id' new_id' now' db' u'
        ≡ failed (version_conflict (suc expected_version))
  unfolding update_style_revision
  update_style_revision-once actor_user_id' new_id' now' u' =
      let (e, r') = after in
      mutate_conflict owner_id style_id actor_user_id' new_id' now' db' (amend u c) (c ∷ h) r'
        expected_version (ground (arith, e)) (some u')
      ∙ ap (λ n. failed (version_conflict (suc n))) (sym e)

  -- Restoring undoes an update: after an update of a version, restoring that version gives the style
  -- the name and the style that it had before, and keeps the updated content in the history.
  pub restore_style_revision-update :
      (actor_user_id' new_id' now' : ℕ)
      → (y : Revised) × (db₂ : StyleStore) × (restore_style_revision owner_id style_id
            (suc expected_version)
            actor_user_id'
            new_id'
            now'
            db'
            expected_version
          ≡ revised y db₂)
        × Represents owner_id style_id db₂ c (amend u c ∷ c ∷ h)
  restore_style_revision-update actor_user_id' new_id' now' =
      let (e, r') = after in
      let at : content_at (c ∷ h) expected_version ≡ some c =
        ap (content_at (c ∷ h)) e ∙ content_at-head c h in
      let (y, db₂, run, v, r₂) =
        restore_style_revision-refines owner_id style_id actor_user_id' new_id' now' db' (amend u c)
          (c ∷ h) expected_version c r' at in
      (
        y,
        db₂,
        subst
            (λ n.
              restore_style_revision owner_id style_id (suc n) actor_user_id' new_id' now' db'
                expected_version
              ≡ revised y db₂)
            (sym e) run,
        r₂,
      )
