-- ===== src/Accounts/Isolation.antt =====
-- What a deactivation leaves alone: `deactivateAccount` of
-- packages/database/src/accounts/lifecycle.ts.
use text.Mathlib.Text.{◌==◌ as str_eq}
use planisfy.Common.{
  ℕ, String, Bool, true, false, not, ◌&&◌, Option, none, some, List, [], ◌∷◌, ◌++◌, ◌≡◌, refl, sym,
  subst, ◌⊎◌, inl, inr, ◌==◌, is_none, is_at, Bool-cases, Option-cases, Pointwise, Pointwise-refl,
}
use planisfy.Common.Table.{
  update_where, select_where, update_where-Pointwise, select_where-delete_where,
}
use planisfy.Accounts.{
  AccountType, user, organization, same_type, Account, Organization, Invitation, Session,
  deactivated, Directory, account_not_found, account_type_mismatch, Result, failed, ok, Deactivated,
  lock_account, revoke_sessions, close_organizations, cancel_invitations, mark_deleted, deactivate,
  deactivate_account,
}
use planisfy.Accounts.Deactivation.{lock_account-id}

-- Each row is as it was, or meets the condition.
abbrev pub Spared : {A : Type 0} → (A → Bool) → List A → List A → Type 0
Spared own = Pointwise (λ x y. (own x ≡ true) ⊎ (y ≡ x))

abbrev pub SessionsSpared : ℕ → AccountType → List Session → List Session → Type 0
SessionsSpared account_id user before after =
    select_where (λ s. not (s.user_id == account_id)) after
    ≡ select_where (λ s. not (s.user_id == account_id)) before
SessionsSpared account_id organization before after =
    Spared (λ s. is_at s.active_organization_id account_id) before after

-- No row of another account is changed, added or removed, and one audit event is added.
pub record Isolated (account_id actor_id : ℕ) (t : AccountType) (db db' : Directory) : Type 0 where
  pub accounts_spared : Spared (λ a. a.id == account_id) db.accounts db'.accounts
  pub organizations_spared : Spared (λ o. o.id == account_id) db.organizations db'.organizations
  pub invitations_spared :
      Spared (λ i. i.organization_id == account_id) db.invitations db'.invitations
  pub sessions_spared : SessionsSpared account_id t db.sessions db'.sessions
  pub keys_spared : Spared (λ k. k.reference_id == account_id) db.api_keys db'.api_keys
  pub registration_spared :
      Spared (λ r. r.account_id == account_id) db.registration_tokens db'.registration_tokens
  pub node_tokens_spared : Spared (λ n. n.account_id == account_id) db.node_tokens db'.node_tokens
  pub workers_spared : Spared (λ w. is_at w.account_id account_id) db.worker_nodes db'.worker_nodes
  pub styles_spared : Spared (λ s. s.owner_id == account_id) db.styles db'.styles
  pub audited :
      db'.audit_events
      ≡ db.audit_events
        ++ record { account_id = account_id; actor_user_id = actor_id; action = deactivated t } ∷ []

update_where-Spared :
    {A : Type 0} (own p : A → Bool) (f : A → A) (xs : List A)
    → ((x : A) → p x ≡ true → own x ≡ true)
    → Spared own xs (update_where p f xs)
update_where-Spared own p f xs h =
    update_where-Pointwise (λ x y. (own x ≡ true) ⊎ (y ≡ x)) p f xs (λ x e. inl (h x e))
      (λ x. inr refl)

first_holds : (a b : Bool) → (a && b) ≡ true → a ≡ true
first_holds true b h = refl
first_holds false b h = cc

revoke_sessions-SessionsSpared :
    (account_id : ℕ) (t : AccountType) (now : ℕ) (sessions : List Session)
    → SessionsSpared account_id t sessions (revoke_sessions account_id t now sessions)
unfolding revoke_sessions
revoke_sessions-SessionsSpared account_id user now sessions =
    select_where-delete_where (λ s. s.user_id == account_id) sessions
revoke_sessions-SessionsSpared account_id organization now sessions =
    update_where-Spared (λ s. is_at s.active_organization_id account_id)
      (λ s. is_at s.active_organization_id account_id)
      (λ s. record s { active_organization_id = none; updated_at = now }) sessions (λ s e. e)

module _ (actor_id now : ℕ) where
  close_organizations-Spared :
      (t : AccountType) (account_id : ℕ) (organizations : List Organization)
      → Spared
          (λ o. o.id == account_id)
          organizations
          (close_organizations actor_id now t account_id organizations)
  unfolding close_organizations
  close_organizations-Spared user account_id organizations =
      Pointwise-refl _ organizations (λ o. inr refl)
  close_organizations-Spared organization account_id organizations =
      update_where-Spared (λ o. o.id == account_id) (λ o. o.id == account_id) _ organizations
        (λ o e. e)

  cancel_invitations-Spared :
      (t : AccountType) (account_id : ℕ) (invitations : List Invitation)
      → Spared
          (λ i. i.organization_id == account_id)
          invitations
          (cancel_invitations actor_id now t account_id invitations)
  unfolding cancel_invitations
  cancel_invitations-Spared user account_id invitations =
      Pointwise-refl _ invitations (λ i. inr refl)
  cancel_invitations-Spared organization account_id invitations =
      update_where-Spared (λ i. i.organization_id == account_id)
        (λ i. i.organization_id == account_id && str_eq i.status "pending") _ invitations
        (λ i e. first_holds (i.organization_id == account_id) (str_eq i.status "pending") e)

  deactivate-Isolated :
      (account : Account) (reason : Option String) (db : Directory)
      → Isolated account.id actor_id account.account_type db
          (deactivate actor_id now account reason db)
  unfolding deactivate
  deactivate-Isolated account reason db = record {
    accounts_spared =
        update_where-Spared (λ a. a.id == account.id) (λ a. a.id == account.id)
          (mark_deleted now reason) db.accounts (λ a e. e);
    organizations_spared =
        close_organizations-Spared account.account_type account.id db.organizations;
    invitations_spared = cancel_invitations-Spared account.account_type account.id db.invitations;
    sessions_spared =
        revoke_sessions-SessionsSpared account.id account.account_type now db.sessions;
    keys_spared =
        update_where-Spared (λ k. k.reference_id == account.id) (λ k. k.reference_id == account.id)
          _ db.api_keys (λ k e. e);
    registration_spared =
        update_where-Spared (λ r. r.account_id == account.id) (λ r. r.account_id == account.id) _
          db.registration_tokens (λ r e. e);
    node_tokens_spared =
        update_where-Spared (λ n. n.account_id == account.id)
          (λ n. n.account_id == account.id && is_none n.revoked_at) _ db.node_tokens
          (λ n e. first_holds (n.account_id == account.id) (is_none n.revoked_at) e);
    workers_spared =
        update_where-Spared (λ w. is_at w.account_id account.id)
          (λ w. is_at w.account_id account.id && is_none w.deleted_at) _ db.worker_nodes
          (λ w e. first_holds (is_at w.account_id account.id) (is_none w.deleted_at) e);
    styles_spared =
        update_where-Spared (λ s. s.owner_id == account.id) (λ s. s.owner_id == account.id) _
          db.styles (λ s e. e);
    audited = refl;
  }

abbrev pub deactivation : Account → ℕ → Bool → Deactivated
deactivation a at already = record {
  account_id = a.id;
  account_type = a.account_type;
  deactivated_at = at;
  already_deactivated = already;
}

pub data Ending (actor_id now account_id : ℕ) (t : AccountType) (db : Directory)
    : Result Deactivated → Type 0 where
  missing :
      lock_account account_id db ≡ none
      → Ending actor_id now account_id t db (failed account_not_found)
  mismatched :
      (a : Account)
      → lock_account account_id db ≡ some a
      → same_type a.account_type t ≡ false
      → Ending actor_id now account_id t db (failed account_type_mismatch)
  repeated :
      (a : Account)
      → lock_account account_id db ≡ some a
      → same_type a.account_type t ≡ true
      → (at : ℕ) → a.deleted_at ≡ some at
      → Ending actor_id now account_id t db (ok (deactivation a at true) db)
  carried_out :
      (a : Account)
      → lock_account account_id db ≡ some a
      → same_type a.account_type t ≡ true
      → a.deleted_at ≡ none
      → (db' : Directory) → Isolated account_id actor_id a.account_type db db'
      → Ending actor_id now account_id t db (ok (deactivation a now false) db')

module _ (actor_id now account_id : ℕ) (t : AccountType) (reason : Option String)
    (db : Directory) where
  carried_out-Ending :
      (a : Account)
      → lock_account account_id db ≡ some a
      → same_type a.account_type t ≡ true
      → a.deleted_at ≡ none
      → Ending actor_id now account_id t db
          (ok (deactivation a now false) (deactivate actor_id now a reason db))
  carried_out-Ending a e d f = carried_out a e d f (deactivate actor_id now a reason db) (
      subst (λ i. Isolated i actor_id a.account_type db (deactivate actor_id now a reason db))
        (lock_account-id actor_id now account_id db a e)
        (deactivate-Isolated actor_id now a reason db))

  found-Ending :
      (a : Account)
      → lock_account account_id db ≡ some a
      → same_type a.account_type t ≡ true
      → Ending actor_id now account_id t db (deactivate_account actor_id now account_id t reason db)
  unfolding deactivate_account
  found-Ending a e d = elim (Option-cases a.deleted_at) [
    | inl f ↦
        let run : deactivate_account actor_id now account_id t reason db
            ≡ ok (deactivation a now false) (deactivate actor_id now a reason db) =
          rw (e, d, f) refl in
        subst (Ending actor_id now account_id t db) (sym run) (carried_out-Ending a e d f)
    | inr (at, f) ↦
        let run : deactivate_account actor_id now account_id t reason db
            ≡ ok (deactivation a at true) db =
          rw (e, d, f) refl in
        subst (Ending actor_id now account_id t db) (sym run) (repeated a e d at f)
  ]

  -- A deactivation ends in one of four ways: it fails for a missing account or one of another type,
  -- it finds the account deactivated before and changes nothing, or it is carried out. Then every
  -- row of another account is as it was, no such row is added or removed, and exactly one audit
  -- event is added, which names the actor.
  pub deactivate_account-Ending :
      Ending actor_id now account_id t db (deactivate_account actor_id now account_id t reason db)
  unfolding deactivate_account
  deactivate_account-Ending = elim (Option-cases (lock_account account_id db)) [
    | inl e ↦ rw e (missing e)
    | inr (a, e) ↦ elim (Bool-cases (same_type a.account_type t)) [
      | inl d ↦ found-Ending a e d
      | inr d ↦ rw (e, d) (mismatched a e d)
    ]
  ]
