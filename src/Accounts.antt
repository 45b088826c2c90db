-- ===== src/Accounts.antt =====
-- The life cycle of accounts: packages/database/src/accounts/lifecycle.ts, over the tables of
-- packages/database/src/schema that it writes, with the columns that the code reads or writes.
-- Ids are naturals and times are milliseconds; a transaction reads the clock once. A transaction
-- that throws leaves the database as it was.
pub mod Deactivation
pub mod Terminal
pub mod Status
pub mod Isolation
mod Tests
use text.Mathlib.Text.{◌==◌ as str_eq}
use planisfy.Common.{
  ℕ, String, Bool, true, false, ◌&&◌, not, Option, none, some, List, [], ◌∷◌, ◌++◌, if◌then◌else◌,
  ◌==◌, is_none, is_some, is_at, or_else,
}
use planisfy.Common.Table.{update_where, delete_where, find_where}
use planisfy.Common.Text.{trim}

pub data LifecycleStatus : Type 0 where
  active suspended banned : LifecycleStatus

abbrev pub is_active : LifecycleStatus → Bool
is_active active = true
is_active _ = false

pub data AccountType : Type 0 where
  user organization : AccountType

abbrev pub same_type : AccountType → AccountType → Bool
same_type user user = true
same_type organization organization = true
same_type _ _ = false

pub record Account : Type 0 where
  pub id : ℕ
  pub account_type : AccountType
  pub lifecycle_status : LifecycleStatus
  pub lifecycle_reason : Option String
  pub lifecycle_until : Option ℕ
  pub updated_at : ℕ
  pub deleted_at : Option ℕ

pub record Organization : Type 0 where
  pub id : ℕ
  pub updated_at : ℕ
  pub deleted_at : Option ℕ

pub record Invitation : Type 0 where
  pub organization_id : ℕ
  pub status : String

pub record Session : Type 0 where
  pub user_id : ℕ
  pub active_organization_id : Option ℕ
  pub updated_at : ℕ

pub record ApiKey : Type 0 where
  pub reference_id : ℕ
  pub enabled : Bool
  pub updated_at : ℕ

pub record RegistrationToken : Type 0 where
  pub account_id : ℕ
  pub expires_at : ℕ

pub record NodeToken : Type 0 where
  pub account_id : ℕ
  pub revoked_at : Option ℕ

pub record WorkerNode : Type 0 where
  pub account_id : Option ℕ
  pub updated_at : ℕ
  pub deleted_at : Option ℕ

pub record Style : Type 0 where
  pub owner_id : ℕ
  pub is_public : Bool
  pub updated_at : ℕ

-- The two actions, with the objects of `metadata`; `retainedData` is always true.
pub data AuditAction : Type 0 where
  lifecycle_changed : (previous status : LifecycleStatus) → Option String → AuditAction
  deactivated : AccountType → AuditAction

pub record AuditEvent : Type 0 where
  pub account_id : ℕ
  pub actor_user_id : ℕ
  pub action : AuditAction

pub record Directory : Type 0 where
  pub accounts : List Account
  pub organizations : List Organization
  pub invitations : List Invitation
  pub sessions : List Session
  pub api_keys : List ApiKey
  pub registration_tokens : List RegistrationToken
  pub node_tokens : List NodeToken
  pub worker_nodes : List WorkerNode
  pub styles : List Style
  pub audit_events : List AuditEvent

-- The codes of `AccountLifecycleError`, and the plain error of `normalizeRequiredReason`.
pub data LifecycleError : Type 0 where
  account_not_found account_deactivated account_type_mismatch reason_required : LifecycleError

pub data Result (A : Type 0) : Type 0 where
  failed : LifecycleError → Result A
  ok : A → Directory → Result A

pub record Changed : Type 0 where
  pub account_id : ℕ
  pub account_type : AccountType
  pub previous_status : LifecycleStatus
  pub status : LifecycleStatus

pub record Deactivated : Type 0 where
  pub account_id : ℕ
  pub account_type : AccountType
  pub deactivated_at : ℕ
  pub already_deactivated : Bool

unfoldable pub lock_account : ℕ → Directory → Option Account
lock_account account_id db = find_where (λ a. a.id == account_id) db.accounts

unfoldable pub revoke_sessions : ℕ → AccountType → ℕ → List Session → List Session
revoke_sessions account_id user now sessions = delete_where (λ s. s.user_id == account_id) sessions
revoke_sessions account_id organization now sessions =
    update_where (λ s. is_at s.active_organization_id account_id)
      (λ s. record s { active_organization_id = none; updated_at = now }) sessions

-- `none` where it throws.
unfoldable pub normalize_required_reason : Option String → Option String
normalize_required_reason none = none
normalize_required_reason (some reason) =
    let value = trim reason in if str_eq value "" then none else some value

abbrev pub mark_deleted : ℕ → Option String → Account → Account
mark_deleted now reason a = record a {
  deleted_at = some now;
  lifecycle_reason = some (or_else reason "Terminal account deactivation");
  lifecycle_until = none;
  updated_at = now;
}

abbrev pub mark_status : LifecycleStatus → Option String → ℕ → Account → Account
mark_status status reason now a = record a {
  lifecycle_status = status;
  lifecycle_reason = reason;
  lifecycle_until = none;
  updated_at = now;
}

module _ (actor_id now : ℕ) where
  -- The part of `setAccountLifecycle` behind the reason's check, for the locked account.
  unfoldable pub change_status :
      Account → LifecycleStatus → Option String → Directory → Result Changed
  unfolding revoke_sessions
  change_status account status reason db =
      ok
        (record {
          account_id = account.id;
          account_type = account.account_type;
          previous_status = account.lifecycle_status;
          status = status;
        })
        (record db {
          accounts =
              update_where (λ a. a.id == account.id) (mark_status status reason now) db.accounts;
          sessions =
              if is_active status
              then db.sessions
              else revoke_sessions account.id account.account_type now db.sessions;
          audit_events =
              db.audit_events
              ++ record {
                account_id = account.id;
                actor_user_id = actor_id;
                action = lifecycle_changed account.lifecycle_status status reason;
              }
                ∷ [];
        })

  -- `normalizeRequiredReason` where the status asks for a reason.
  with_reason : Account → LifecycleStatus → Option String → Directory → Result Changed
  with_reason account status none db = failed reason_required
  with_reason account status (some reason) db = change_status account status (some reason) db

  set_status : Option Account → LifecycleStatus → Option String → Directory → Result Changed
  unfolding with_reason
  set_status none status reason db = failed account_not_found
  set_status (some account) status reason db =
      if is_some account.deleted_at
      then failed account_deactivated
      else if is_active status
      then change_status account status none db
      else with_reason account status (normalize_required_reason reason) db

  unfoldable pub set_account_lifecycle :
      ℕ → LifecycleStatus → Option String → Directory → Result Changed
  unfolding set_status
  set_account_lifecycle account_id status reason db =
      set_status (lock_account account_id db) status reason db

  -- What only an organization has: its row and its pending invitations.
  unfoldable pub close_organizations : AccountType → ℕ → List Organization → List Organization
  close_organizations user account_id organizations = organizations
  close_organizations organization account_id organizations =
      update_where (λ o. o.id == account_id)
        (λ o. record o { deleted_at = some now; updated_at = now }) organizations

  unfoldable pub cancel_invitations : AccountType → ℕ → List Invitation → List Invitation
  cancel_invitations user account_id invitations = invitations
  cancel_invitations organization account_id invitations =
      update_where (λ i. i.organization_id == account_id && str_eq i.status "pending")
        (λ i. record i { status = "canceled" }) invitations

  -- The writes of `deactivateAccount`.
  unfoldable pub deactivate : Account → Option String → Directory → Directory
  unfolding close_organizations cancel_invitations revoke_sessions
  deactivate account reason db = record {
    accounts = update_where (λ a. a.id == account.id) (mark_deleted now reason) db.accounts;
    organizations = close_organizations account.account_type account.id db.organizations;
    invitations = cancel_invitations account.account_type account.id db.invitations;
    sessions = revoke_sessions account.id account.account_type now db.sessions;
    api_keys =
        update_where (λ k. k.reference_id == account.id)
          (λ k. record k { enabled = false; updated_at = now }) db.api_keys;
    registration_tokens =
        update_where (λ t. t.account_id == account.id) (λ t. record t { expires_at = now })
          db.registration_tokens;
    node_tokens =
        update_where (λ t. t.account_id == account.id && is_none t.revoked_at)
          (λ t. record t { revoked_at = some now }) db.node_tokens;
    worker_nodes =
        update_where (λ w. is_at w.account_id account.id && is_none w.deleted_at)
          (λ w. record w { deleted_at = some now; updated_at = now }) db.worker_nodes;
    styles =
        update_where (λ s. s.owner_id == account.id)
          (λ s. record s { is_public = false; updated_at = now }) db.styles;
    audit_events =
        db.audit_events
        ++ record {
          account_id = account.id;
          actor_user_id = actor_id;
          action = deactivated account.account_type;
        }
          ∷ [];
  }

  -- Behind the check of the type: an account that is deactivated already keeps its time.
  deactivate_from : Account → Option ℕ → Option String → Directory → Result Deactivated
  unfolding deactivate
  deactivate_from account (some deleted_at) reason db =
      ok
        (record {
          account_id = account.id;
          account_type = account.account_type;
          deactivated_at = deleted_at;
          already_deactivated = true;
        })
        db
  deactivate_from account none reason db =
      ok
        (record {
          account_id = account.id;
          account_type = account.account_type;
          deactivated_at = now;
          already_deactivated = false;
        })
        (deactivate account reason db)

  deactivate_found : Option Account → AccountType → Option String → Directory → Result Deactivated
  unfolding deactivate_from
  deactivate_found none account_type reason db = failed account_not_found
  deactivate_found (some account) account_type reason db =
      if not (same_type account.account_type account_type)
      then failed account_type_mismatch
      else deactivate_from account account.deleted_at reason db

  unfoldable pub deactivate_account :
      ℕ → AccountType → Option String → Directory → Result Deactivated
  unfolding deactivate_found
  deactivate_account account_id account_type reason db =
      deactivate_found (lock_account account_id db) account_type reason db
