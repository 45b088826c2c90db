-- ===== src/Accounts/Deactivation.antt =====
-- What a deactivation leaves behind: `deactivateAccount` of
-- packages/database/src/accounts/lifecycle.ts.
use text.Mathlib.Text.{◌==◌ as str_eq}
use planisfy.Common.{
  ℕ, String, Bool, true, false, ◌&&◌, Option, none, some, List, ◌≡◌, refl, subst, ◌⊎◌, inl, inr,
  ◌==◌, is_none, is_some, is_at, ==_iff, All,
}
use planisfy.Common.Table.{update_where-makes, delete_where-All, find_where-holds}
use planisfy.Accounts.{
  AccountType, user, organization, same_type, Account, Session, Directory, ok, Deactivated,
  lock_account, revoke_sessions, close_organizations, cancel_invitations, deactivate,
  deactivate_account,
}

-- No session is left of a user, or none in which an organization is active.
abbrev pub SignedOut : ℕ → AccountType → List Session → Type 0
SignedOut account_id user sessions = All (λ s. (s.user_id == account_id) ≡ false) sessions
SignedOut account_id organization sessions =
    All (λ s. is_at s.active_organization_id account_id ≡ false) sessions

abbrev pub Closed : ℕ → AccountType → ℕ → Directory → Type 0
Closed account_id user now db = Unit
Closed account_id organization now db =
    All (λ o. ((o.id == account_id) ≡ false) ⊎ (o.deleted_at ≡ some now)) db.organizations
    × All (λ i. ((i.organization_id == account_id) ≡ false) ⊎ (str_eq i.status "pending" ≡ false))
        db.invitations

-- The account is gone, and nothing of it grants access any more.
pub record Revoked (account_id : ℕ) (t : AccountType) (now : ℕ) (db : Directory) : Type 0 where
  pub account_deleted :
      All (λ a. ((a.id == account_id) ≡ false) ⊎ (a.deleted_at ≡ some now)) db.accounts
  pub closed : Closed account_id t now db
  pub signed_out : SignedOut account_id t db.sessions
  pub keys_disabled :
      All (λ k. ((k.reference_id == account_id) ≡ false) ⊎ (k.enabled ≡ false)) db.api_keys
  pub registration_over :
      All
        (λ r. ((r.account_id == account_id) ≡ false) ⊎ (r.expires_at ≡ now))
        db.registration_tokens
  pub node_tokens_revoked :
      All
        (λ n. ((n.account_id == account_id) ≡ false) ⊎ (is_some n.revoked_at ≡ true))
        db.node_tokens
  pub workers_deleted :
      All
        (λ w. (is_at w.account_id account_id ≡ false) ⊎ (is_some w.deleted_at ≡ true))
        db.worker_nodes
  pub styles_private :
      All (λ s. ((s.owner_id == account_id) ≡ false) ⊎ (s.is_public ≡ false)) db.styles

pub revoke_sessions-SignedOut :
    (account_id : ℕ) (t : AccountType) (now : ℕ) (sessions : List Session)
    → SignedOut account_id t (revoke_sessions account_id t now sessions)
unfolding revoke_sessions
revoke_sessions-SignedOut account_id user now sessions =
    delete_where-All (λ s. (s.user_id == account_id) ≡ false) (λ s. s.user_id == account_id)
      sessions (λ s e. e)
revoke_sessions-SignedOut account_id organization now sessions =
    update_where-makes (λ s. is_at s.active_organization_id account_id ≡ false)
      (λ s. is_at s.active_organization_id account_id)
      (λ s. record s { active_organization_id = none; updated_at = now }) sessions (λ s e. refl)
      (λ s e. e)

away_or_set :
    (own : Bool) (o : Option ℕ) → (own && is_none o) ≡ false → (own ≡ false) ⊎ (is_some o ≡ true)
away_or_set true none h = cc
away_or_set true (some n) h = inr refl
away_or_set false o h = inl refl

away_or_other : (own p : Bool) → (own && p) ≡ false → (own ≡ false) ⊎ (p ≡ false)
away_or_other true p h = inr h
away_or_other false p h = inl refl

module _ (actor_id now : ℕ) where
  close-Closed :
      (account : Account) (t : AccountType)
      → account.account_type ≡ t
      → (reason : Option String) (db : Directory)
      → Closed account.id t now (deactivate actor_id now account reason db)
  unfolding deactivate close_organizations cancel_invitations
  close-Closed account user e reason db = tt
  close-Closed account organization e reason db = rw e (
    update_where-makes (λ o. ((o.id == account.id) ≡ false) ⊎ (o.deleted_at ≡ some now))
        (λ o. o.id == account.id) (λ o. record o { deleted_at = some now; updated_at = now })
        db.organizations (λ o h. inr refl) (λ o h. inl h),
    update_where-makes
        (λ i. ((i.organization_id == account.id) ≡ false) ⊎ (str_eq i.status "pending" ≡ false))
        (λ i. i.organization_id == account.id && str_eq i.status "pending")
        (λ i. record i { status = "canceled" }) db.invitations (λ i h. inr refl)
        (λ i h. away_or_other (i.organization_id == account.id) (str_eq i.status "pending") h),
  )

  deactivate-Revoked :
      (account : Account) (reason : Option String) (db : Directory)
      → Revoked account.id account.account_type now (deactivate actor_id now account reason db)
  unfolding deactivate
  deactivate-Revoked account reason db = record {
    account_deleted =
        update_where-makes (λ a. ((a.id == account.id) ≡ false) ⊎ (a.deleted_at ≡ some now))
          (λ a. a.id == account.id) _ db.accounts (λ a h. inr refl) (λ a h. inl h);
    closed = close-Closed account account.account_type refl reason db;
    signed_out = revoke_sessions-SignedOut account.id account.account_type now db.sessions;
    keys_disabled =
        update_where-makes (λ k. ((k.reference_id == account.id) ≡ false) ⊎ (k.enabled ≡ false))
          (λ k. k.reference_id == account.id) _ db.api_keys (λ k h. inr refl) (λ k h. inl h);
    registration_over =
        update_where-makes (λ r. ((r.account_id == account.id) ≡ false) ⊎ (r.expires_at ≡ now))
          (λ r. r.account_id == account.id) _ db.registration_tokens (λ r h. inr refl)
          (λ r h. inl h);
    node_tokens_revoked =
        update_where-makes
          (λ n. ((n.account_id == account.id) ≡ false) ⊎ (is_some n.revoked_at ≡ true))
          (λ n. n.account_id == account.id && is_none n.revoked_at) _ db.node_tokens
          (λ n h. inr refl) (λ n h. away_or_set (n.account_id == account.id) n.revoked_at h);
    workers_deleted =
        update_where-makes
          (λ w. (is_at w.account_id account.id ≡ false) ⊎ (is_some w.deleted_at ≡ true))
          (λ w. is_at w.account_id account.id && is_none w.deleted_at) _ db.worker_nodes
          (λ w h. inr refl) (λ w h. away_or_set (is_at w.account_id account.id) w.deleted_at h);
    styles_private =
        update_where-makes (λ s. ((s.owner_id == account.id) ≡ false) ⊎ (s.is_public ≡ false))
          (λ s. s.owner_id == account.id) _ db.styles (λ s h. inr refl) (λ s h. inl h);
  }

  abbrev pub done : Account → Deactivated
  done account = record {
    account_id = account.id;
    account_type = account.account_type;
    deactivated_at = now;
    already_deactivated = false;
  }

  same_type_refl : (t : AccountType) → same_type t t ≡ true
  same_type_refl user = refl
  same_type_refl organization = refl

  pub lock_account-id :
      (account_id : ℕ) (db : Directory) (account : Account)
      → lock_account account_id db ≡ some account
      → account.id ≡ account_id
  unfolding lock_account
  lock_account-id account_id db account h =
      (==_iff account.id account_id).0
        (find_where-holds (λ a. a.id == account_id) db.accounts account h)

  -- An account that is there, has the requested type and is not deactivated yet is deactivated:
  -- it is deleted at that time, its sessions are ended, or cleared of the organization, its API keys
  -- are disabled, its registration tokens expire, its node tokens are revoked, its workers are
  -- deleted and its styles are private; an organization is closed and has no pending invitation.
  pub deactivate_account-Revoked :
      (account_id : ℕ) (reason : Option String) (db : Directory) (account : Account)
      → lock_account account_id db ≡ some account
      → account.deleted_at ≡ none
      → (db' : Directory) × (deactivate_account actor_id now account_id account.account_type reason
            db
          ≡ ok (done account) db')
        × Revoked account_id account.account_type now db'
  unfolding deactivate_account
  deactivate_account-Revoked account_id reason db account found fresh = (
    deactivate actor_id now account reason db,
    rw (found, same_type_refl account.account_type, fresh),
    subst (λ i. Revoked i account.account_type now (deactivate actor_id now account reason db))
        (lock_account-id account_id db account found) (deactivate-Revoked account reason db),
  )
