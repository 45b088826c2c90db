-- ===== src/Accounts/Terminal.antt =====
-- A deactivation is terminal, and which changes of the life cycle are refused:
-- packages/database/src/accounts/lifecycle.ts.
use planisfy.Common.{
  ℕ, String, Bool, true, false, Option, some, ◌≡◌, refl, ap, ◌∙◌, subst, inl, inr, ◌==◌, ==_iff,
  Bool-cases, Option-cases,
}
use planisfy.Common.Unique.{find_where-update_where}
use planisfy.Accounts.{
  AccountType, same_type, Account, Directory, LifecycleStatus, account_deactivated, Result, failed,
  ok, Deactivated, lock_account, mark_deleted, deactivate, deactivate_account,
  set_account_lifecycle,
}

-- The account's row says that it was deactivated, as the result does.
record Gone (account_id : ℕ) (t : AccountType) (r : Deactivated) (db : Directory) : Type 0 where
  account : Account
  locked : lock_account account_id db ≡ some account
  fits : same_type account.account_type t ≡ true
  deleted : account.deleted_at ≡ some r.deactivated_at
  same_id : account.id ≡ r.account_id
  kept_type : account.account_type ≡ r.account_type

lock_account-deactivate :
    (actor_id now account_id : ℕ) (reason : Option String) (db : Directory) (account : Account)
    → lock_account account_id db ≡ some account
    → (account' : Account) × (lock_account account_id (deactivate actor_id now account reason db)
        ≡ some account')
      × (account'.deleted_at ≡ some now)
      × (account'.id ≡ account.id)
      × (account'.account_type ≡ account.account_type)
unfolding lock_account deactivate
lock_account-deactivate actor_id now account_id reason db account h = (
  mark_deleted now reason account,
  find_where-update_where (λ a. a.id == account_id) (λ a. a.id == account.id)
        (mark_deleted now reason) (λ a. refl) db.accounts account h
      ∙ rw ((==_iff account.id account.id).1 refl) refl,
  refl,
  refl,
  refl,
)

abbrev result : Account → ℕ → Bool → Deactivated
result account at already = record {
  account_id = account.id;
  account_type = account.account_type;
  deactivated_at = at;
  already_deactivated = already;
}

module _ (account_id : ℕ) (t : AccountType) (r : Deactivated) (db' : Directory) where
  Gone-result :
      (r₀ : Deactivated) (db₀ : Directory)
      → Gone account_id t r₀ db₀
      → ◌≡◌ {A = Result Deactivated} (ok r₀ db₀) (ok r db')
      → Gone account_id t r db'
  Gone-result r₀ db₀ g h =
      let same_r : r₀ ≡ r = cc h in
      let same_db : db₀ ≡ db' = cc h in
      subst (λ x. Gone account_id t x db') same_r (subst (λ y. Gone account_id t r₀ y) same_db g)

  module _ (actor_id now : ℕ) (reason : Option String) (db : Directory) where
    deactivate_account-Gone :
        deactivate_account actor_id now account_id t reason db ≡ ok r db' → Gone account_id t r db'
    unfolding deactivate_account
    deactivate_account-Gone h = elim (Option-cases (lock_account account_id db)) [
      | inl e ↦ cc (rw e at h)
      | inr (account, e) ↦ elim (Bool-cases (same_type account.account_type t)) [
        | inr d ↦ cc (rw (e, d) at h)
        | inl d ↦ elim (Option-cases account.deleted_at) [
          | inl f ↦
              let (account', e', f', i', k') =
                lock_account-deactivate actor_id now account_id reason db account e in
              Gone-result (result account now false) (deactivate actor_id now account reason db)
                (record {
                  account = account';
                  locked = e';
                  fits = ap (λ x. same_type x t) k' ∙ d;
                  deleted = f';
                  same_id = i';
                  kept_type = k';
                })
                (rw (e, d, f) at h)
          | inr (at, f) ↦
              Gone-result (result account at true) db
                (record {
                  account = account;
                  locked = e;
                  fits = d;
                  deleted = f;
                  same_id = refl;
                  kept_type = refl;
                })
                (rw (e, d, f) at h)
        ]
      ]
    ]

    -- A deactivation that succeeded is final: whoever asks again, whenever and with whatever reason,
    -- is told that the account is deactivated already and since when, and changes nothing, and every
    -- change of its life cycle is refused.
    pub deactivate_account-final :
        deactivate_account actor_id now account_id t reason db ≡ ok r db'
        → (actor_id' now' : ℕ) (reason' : Option String) (status : LifecycleStatus)
        → (deactivate_account actor_id' now' account_id t reason' db'
            ≡ ok (record r { already_deactivated = true }) db')
          × (set_account_lifecycle actor_id' now' account_id status reason' db'
              ≡ failed account_deactivated)
    unfolding deactivate_account set_account_lifecycle
    deactivate_account-final h actor_id' now' reason' status =
        let g = deactivate_account-Gone h in
        rw (g.locked, g.fits, g.deleted, g.same_id, g.kept_type) (refl, refl)
