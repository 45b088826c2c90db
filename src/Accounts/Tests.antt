-- ===== src/Accounts/Tests.antt =====
-- Accounts at concrete inputs.
use planisfy.Common.{ℕ, true, Option, none, some, [], ◌∷◌, ◌≡◌, refl}
use planisfy.Common.Text.{trim, trim_start, trim_end}
use planisfy.Common.Table.{update_where, delete_where, find_where}
use planisfy.Accounts.{
  AccountType, user, organization, Account, Session, Directory, active, suspended,
  account_deactivated, reason_required, ok, failed, lock_account, deactivate, deactivate_account,
  set_account_lifecycle, normalize_required_reason,
}
use planisfy.Accounts.Deactivation.{Revoked, done, deactivate_account-Revoked}
use planisfy.Accounts.Terminal.{deactivate_account-final}
use planisfy.Accounts.Status.{Outcome, set_account_lifecycle-Outcome}
use planisfy.Accounts.Isolation.{Ending, deactivate_account-Ending}

abbrev account : ℕ → AccountType → Option ℕ → Account
account id account_type deleted_at = record {
  id = id;
  account_type = account_type;
  lifecycle_status = active;
  lifecycle_reason = none;
  lifecycle_until = none;
  updated_at = 1;
  deleted_at = deleted_at;
}

abbrev session : ℕ → Option ℕ → Session
session user_id active_organization_id = record {
  user_id = user_id;
  active_organization_id = active_organization_id;
  updated_at = 1;
}

-- User 1, organization 2, and user 3, who is deactivated.
abbrev directory : Directory
directory = record {
  accounts = account 1 user none ∷ account 2 organization none ∷ account 3 user (some 5) ∷ [];
  organizations = record { id = 2; updated_at = 1; deleted_at = none } ∷ [];
  invitations =
      record { organization_id = 2; status = "pending" }
      ∷ record { organization_id = 2; status = "accepted" }
      ∷ [];
  sessions = session 1 (some 2) ∷ session 4 none ∷ [];
  api_keys =
      record { reference_id = 1; enabled = true; updated_at = 1 }
      ∷ record { reference_id = 2; enabled = true; updated_at = 1 }
      ∷ [];
  registration_tokens = record { account_id = 2; expires_at = 900 } ∷ [];
  node_tokens =
      record { account_id = 2; revoked_at = none }
      ∷ record { account_id = 2; revoked_at = some 3 }
      ∷ [];
  worker_nodes =
      record { account_id = some 2; updated_at = 1; deleted_at = none }
      ∷ record { account_id = none; updated_at = 1; deleted_at = none }
      ∷ [];
  styles = record { owner_id = 2; is_public = true; updated_at = 1 } ∷ [];
  audit_events = [];
}

text_tests : (trim " a b\n" ≡ "a b") × (trim " \t" ≡ "")
unfolding trim_start trim_end
text_tests = (refl, refl)

account_tests :
    (set_account_lifecycle 9 50 1 suspended (some "  ") directory ≡ failed reason_required)
    × (set_account_lifecycle 9 50 3 active none directory ≡ failed account_deactivated)
    × ((deactivate 9 50 (account 1 user none) none directory).sessions ≡ session 4 none ∷ [])
    × ((deactivate 9 50 (account 2 organization none) none directory).node_tokens
        ≡ record { account_id = 2; revoked_at = some 50 }
          ∷ record { account_id = 2; revoked_at = some 3 }
          ∷ [])
unfolding set_account_lifecycle lock_account normalize_required_reason trim_start trim_end
    deactivate find_where update_where delete_where
account_tests = (refl, refl, refl, refl)

deactivate_account-Revoked_example :
    (db' : Directory) × (deactivate_account 9 50 2 organization none directory
      ≡ ok (done 9 50 (account 2 organization none)) db')
    × Revoked 2 organization 50 db'
unfolding lock_account find_where
deactivate_account-Revoked_example =
    deactivate_account-Revoked 9 50 2 none directory (account 2 organization none) refl refl

deactivate_account-final_example :
    (deactivate_account 8 70 2 organization
        (some "again")
        (deactivate 9 50 (account 2 organization none) none directory)
      ≡ ok
          (record (done 9 50 (account 2 organization none)) { already_deactivated = true })
          (deactivate 9 50 (account 2 organization none) none directory))
    × (set_account_lifecycle 8 70 2 active
          (some "again")
          (deactivate 9 50 (account 2 organization none) none directory)
        ≡ failed account_deactivated)
unfolding deactivate_account lock_account find_where
deactivate_account-final_example =
    deactivate_account-final 2 organization (done 9 50 (account 2 organization none))
      (deactivate 9 50 (account 2 organization none) none directory) 9 50 none directory refl 8 70
      (some "again") active

set_account_lifecycle-Outcome_example :
    Outcome 1 suspended
      (some " abuse ")
      directory
      (set_account_lifecycle 9 50 1 suspended (some " abuse ") directory)
set_account_lifecycle-Outcome_example =
    set_account_lifecycle-Outcome 9 50 1 suspended (some " abuse ") directory

deactivate_account-Ending_example :
    Ending 9 50 2 organization directory (deactivate_account 9 50 2 organization none directory)
deactivate_account-Ending_example = deactivate_account-Ending 9 50 2 organization none directory
