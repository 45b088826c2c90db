-- ===== src/Accounts/Status.antt =====
-- Every way in which `setAccountLifecycle` of packages/database/src/accounts/lifecycle.ts ends.
use text.Mathlib.Text.{◌==◌ as str_eq}
use planisfy.Common.{
  ℕ, String, true, false, Option, none, some, List, ◌≡◌, refl, sym, ap, subst, ◌⊎◌, inl, inr, ◌==◌,
  is_some, Bool-cases, Option-cases, All,
}
use planisfy.Common.Text.{trim}
use planisfy.Common.Blank.{IsBlank, trim-empty_iff}
use planisfy.Common.Table.{update_where, update_where-makes}
use planisfy.Accounts.{
  AccountType, Account, Session, Directory, LifecycleStatus, active, suspended, banned, is_active,
  mark_status, account_not_found, account_deactivated, reason_required, Result, failed, ok, Changed,
  lock_account, revoke_sessions, normalize_required_reason, change_status, set_account_lifecycle,
}
use planisfy.Accounts.Deactivation.{SignedOut, revoke_sessions-SignedOut, lock_account-id}

-- No reason, or one of white space only.
abbrev pub Unexplained : Option String → Type 0
Unexplained none = Unit
Unexplained (some reason) = IsBlank reason

-- The reason that is stored: none for ACTIVE, and the trimmed one otherwise.
pub data Reason : LifecycleStatus → Option String → Option String → Type 0 where
  unneeded : (given : Option String) → Reason active given none
  trimmed :
      (status : LifecycleStatus) (given : String)
      → is_active status ≡ false
      → (str_eq (trim given) "" ≡ false)
      → Reason status (some given) (some (trim given))

abbrev pub SessionsAfter :
    LifecycleStatus → ℕ → AccountType → (before after : List Session) → Type 0
SessionsAfter active account_id t before after = after ≡ before
SessionsAfter _ account_id t before after = SignedOut account_id t after

abbrev pub changed_result : Account → LifecycleStatus → Changed
changed_result a status = record {
  account_id = a.id;
  account_type = a.account_type;
  previous_status = a.lifecycle_status;
  status = status;
}

abbrev pub Marked : ℕ → LifecycleStatus → Option String → Directory → Type 0
Marked account_id status stored db =
    All
      (λ a.
        ((a.id == account_id) ≡ false)
        ⊎ ((a.lifecycle_status ≡ status) × (a.lifecycle_reason ≡ stored)))
      db.accounts

pub data Outcome (account_id : ℕ) (status : LifecycleStatus) (given : Option String)
    (db : Directory) : Result Changed → Type 0 where
  missing :
      lock_account account_id db ≡ none
      → Outcome account_id status given db (failed account_not_found)
  closed :
      (a : Account)
      → lock_account account_id db ≡ some a
      → is_some a.deleted_at ≡ true
      → Outcome account_id status given db (failed account_deactivated)
  unexplained :
      (a : Account)
      → lock_account account_id db ≡ some a
      → a.deleted_at ≡ none
      → is_active status ≡ false
      → Unexplained given
      → Outcome account_id status given db (failed reason_required)
  changed :
      (a : Account)
      → lock_account account_id db ≡ some a
      → a.deleted_at ≡ none
      → (stored : Option String) → Reason status given stored
      → (db' : Directory) → Marked account_id status stored db'
      → SessionsAfter status account_id a.account_type db.sessions db'.sessions
      → Outcome account_id status given db (ok (changed_result a status) db')

module _ (actor_id now account_id : ℕ) (given : Option String) (db : Directory) where
  sessions_after :
      (status : LifecycleStatus) (a : Account) (stored : Option String)
      → a.id ≡ account_id
      → (db' : Directory)
      → change_status actor_id now a status stored db ≡ ok (changed_result a status) db'
      → SessionsAfter status account_id a.account_type db.sessions db'.sessions
  unfolding change_status
  sessions_after active a stored i db' h = cc
  sessions_after suspended a stored i db' h =
      let e : revoke_sessions a.id a.account_type now db.sessions ≡ db'.sessions = cc in
      subst (λ x. SignedOut x a.account_type db'.sessions) i
        (subst (λ x. SignedOut a.id a.account_type x) e
          (revoke_sessions-SignedOut a.id a.account_type now db.sessions))
  sessions_after banned a stored i db' h =
      let e : revoke_sessions a.id a.account_type now db.sessions ≡ db'.sessions = cc in
      subst (λ x. SignedOut x a.account_type db'.sessions) i
        (subst (λ x. SignedOut a.id a.account_type x) e
          (revoke_sessions-SignedOut a.id a.account_type now db.sessions))

  change_status-Outcome :
      (status : LifecycleStatus) (a : Account)
      → lock_account account_id db ≡ some a
      → a.deleted_at ≡ none
      → (stored : Option String) → Reason status given stored
      → Outcome account_id status given db (change_status actor_id now a status stored db)
  unfolding change_status
  change_status-Outcome status a e f stored r =
      let i = lock_account-id actor_id now account_id db a e in
      changed a e f stored r _
        (subst
          (λ x.
            All
              (λ y.
                ((y.id == x) ≡ false)
                ⊎ ((y.lifecycle_status ≡ status) × (y.lifecycle_reason ≡ stored)))
              (update_where (λ y. y.id == a.id) (mark_status status stored now) db.accounts))
          i
          (update_where-makes
            (λ y.
              ((y.id == a.id) ≡ false)
              ⊎ ((y.lifecycle_status ≡ status) × (y.lifecycle_reason ≡ stored)))
            (λ y. y.id == a.id) (mark_status status stored now) db.accounts
            (λ y h. inr (refl, refl)) (λ y h. inl h)))
        (sessions_after status a stored i _ refl)

  unneeded-Reason : (status : LifecycleStatus) → is_active status ≡ true → Reason status given none
  unneeded-Reason active h = unneeded given
  unneeded-Reason suspended h = cc
  unneeded-Reason banned h = cc

-- Where the status asks for a reason: the part behind `normalizeRequiredReason`.
with_reason-Outcome :
    (actor_id now account_id : ℕ) (given : Option String) (db : Directory)
    (status : LifecycleStatus) (a : Account)
    → lock_account account_id db ≡ some a
    → a.deleted_at ≡ none
    → is_active status ≡ false
    → Outcome account_id status given db
        (set_account_lifecycle actor_id now account_id status given db)
unfolding set_account_lifecycle normalize_required_reason
with_reason-Outcome actor_id now account_id none db status a e f g =
    rw (e, f, g) (unexplained a e f g tt)
with_reason-Outcome actor_id now account_id (some s) db status a e f g =
    elim (Bool-cases (str_eq (trim s) "")) [
      | inl b ↦ rw (e, f, g, b) (unexplained a e f g ((trim-empty_iff s).0 b))
      | inr b ↦
          let run : set_account_lifecycle actor_id now account_id status (some s) db
              ≡ change_status actor_id now a status (some (trim s)) db =
            rw (e, f, g, b) refl in
          subst (Outcome account_id status (some s) db) (sym run) (
            change_status-Outcome actor_id now account_id (some s) db status a e f (some (trim s))
              (trimmed status s g b))
    ]

-- A change of the life cycle ends in one of four ways. It is refused where the account is missing,
-- where it is deactivated, or where a suspension or ban comes with no reason but white space.
-- Otherwise the account has the new status and the trimmed reason, or none if it is ACTIVE; a
-- suspension or ban ends its sessions, and an activation leaves the sessions as they are.
pub set_account_lifecycle-Outcome :
    (actor_id now account_id : ℕ) (status : LifecycleStatus) (given : Option String)
    (db : Directory)
    → Outcome account_id status given db
        (set_account_lifecycle actor_id now account_id status given db)
unfolding set_account_lifecycle
set_account_lifecycle-Outcome actor_id now account_id status given db =
    elim (Option-cases (lock_account account_id db)) [
      | inl e ↦ rw e (missing e)
      | inr (a, e) ↦ elim (Option-cases a.deleted_at) [
        | inr (t, f) ↦ rw (e, f) (closed a e (ap is_some f))
        | inl f ↦ elim (Bool-cases (is_active status)) [
          | inr g ↦ with_reason-Outcome actor_id now account_id given db status a e f g
          | inl g ↦
              let run : set_account_lifecycle actor_id now account_id status given db
                  ≡ change_status actor_id now a status none db =
                rw (e, f, g) refl in
              subst (Outcome account_id status given db) (sym run) (
                change_status-Outcome actor_id now account_id given db status a e f none
                  (unneeded-Reason actor_id now account_id given db status g))
        ]
      ]
    ]
