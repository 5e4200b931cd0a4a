-- ===== src/Identity/Administration/Effects.antt =====
-- What an administrator's operation on an account does when it succeeds, and that it does nothing else
-- when it is refused.
use prison_policy_ai.Prelude.{
  ℕ, ◌+◌, ◌≡◌, refl, sym, subst, List, [], ◌∷◌, some, Bool, true, false, not, ◌&&◌, String, arith,
  find, find_sound, select, update_where, find-update_own, Unique, Lacks, find-Lacks, Bool-cases,
  Option-cases, inl, inr, ◌==◌, ==_iff,
}
use prison_policy_ai.Fault.{ok}
use prison_policy_ai.Identity.Models.{
  Role, Status, active, deactivated, is_locked, Account, Db, account_by_id,
}
use prison_policy_ai.Identity.Sessions.Defs.{revoke}
use prison_policy_ai.Identity.Sessions.Operations.{live_of}
use prison_policy_ai.Identity.Sessions.Revocation.{Ended, update_where-AccountEnded}
use prison_policy_ai.Identity.Elevation.{Actor}
use prison_policy_ai.Identity.Administration.{
  are_held, target_of, changed, change_target, with_unlock, change_account_role_or_status,
  unlock_account, role_of, status_of, revoke_all, ends_sessions, lock_active_admins,
  is_active_admin, role_eq, status_eq,
}

-- every session of the account is revoked
abbrev pub SignedOut : ℕ → Db → Type 0
SignedOut account_id db = Ended (λ row. row.account_id ≡ account_id) db.sessions

-- an update of an account that a query by id found
pub account-update :
    (f : Account → Account) (id : ℕ) (db : Db) (account : Account)
    → ((x : Account) → (f x).id ≡ x.id)
    → account_by_id id db ≡ some account
    → (account.id ≡ id)
      × (find
            (λ (a : Account). a.id == id)
            (update_where (λ (a : Account). a.id == account.id) f db.accounts)
          ≡ some (f account))
account-update f id db account keeps at =
    let same : account.id ≡ id =
      (==_iff account.id id).0 (find_sound (λ (a : Account). a.id == id) db.accounts account at) in
    (
      same,
      subst
          (λ k.
            find (λ (a : Account). a.id == k)
              (update_where (λ (a : Account). a.id == account.id) f db.accounts)
            ≡ some (f account))
          same
          (find-update_own (λ (a : Account). a.id) f db.accounts account keeps
            (subst (λ k. account_by_id k db ≡ some account) (sym same) at)),
    )

find-select_own :
    (q : Account → Bool) (k : ℕ) (xs : List Account) (x : Account)
    → Unique (λ (a : Account). a.id) xs
    → find (λ (a : Account). a.id == k) (select q xs) ≡ some x
    → find (λ (a : Account). a.id == k) xs ≡ some x
unfolding find select
find-select_own q k [] x u h = ground arith
find-select_own q k (y ∷ xs) x u h = elim (Bool-cases (q y)) [
  | inl e ↦ ground (arith, find-select_own q k xs x u.1)
  | inr e ↦
      let later = find-select_own q k xs x u.1 (ground arith) in
      elim (Bool-cases (y.id == k)) [
        | inl same ↦
            let l : Lacks (λ (a : Account). a.id) k xs =
              subst (λ n. Lacks (λ (a : Account). a.id) n xs) ((==_iff y.id k).0 same) u.0 in
            absurd (ground (arith, later, find-Lacks (λ (a : Account). a.id) k xs l))
        | inr other ↦ ground (arith, later)
      ]
]

-- the query among the administrators finds no other account than the query by id
target_of-account_by_id :
    (id : ℕ) (db : Db) (target : Account)
    → Unique (λ (a : Account). a.id) db.accounts
    → target_of id db ≡ some target
    → account_by_id id db ≡ some target
unfolding target_of
target_of-account_by_id id db target u h =
    elim (Option-cases (find (λ (a : Account). a.id == id) (select is_active_admin db.accounts))) [
      | inl gone ↦ ground arith
      | inr (x, e) ↦ ground (arith, find-select_own is_active_admin id db.accounts x u e)
    ]

pub revoked-SignedOut :
    (account : Account) (id now : ℕ) (db after : Db)
    → account.id ≡ id
    → after.sessions ≡ update_where (live_of account.id) (revoke now "admin_action") db.sessions
    → SignedOut id after
revoked-SignedOut account id now db after same e = rw e (
    subst
      (λ k.
        Ended (λ row. row.account_id ≡ k)
          (update_where (live_of account.id) (revoke now "admin_action") db.sessions))
      same (update_where-AccountEnded account.id now "admin_action" db.sessions))

-- An unlocking succeeds exactly for a locked account, of whose sessions no other transaction holds one. The account is then active, has no failed
-- attempts and the next version, and every session of it is revoked.
unlock_account-ends :
    (actor : Actor) (id now : ℕ) (request_id : String) (db after : Db)
    → ((account : Account)
        → account_by_id id db ≡ some account
        → is_locked account.status ≡ true
        → are_held db (select (live_of account.id) db.sessions) ≡ false
        → (unlock_account actor id now request_id db).0 ≡ ok (with_unlock now account))
      × ((result : Account)
          → unlock_account actor id now request_id db ≡ (ok result, after)
          → (account : Account) × (account_by_id id db ≡ some account)
            × (is_locked account.status ≡ true)
            × (account_by_id id after ≡ some result)
            × (result.status ≡ active)
            × (result.failed_attempts ≡ 0)
            × (result.auth_version ≡ account.auth_version + 1)
            × SignedOut id after)
unfolding unlock_account revoke_all are_held with_unlock
unlock_account-ends actor id now request_id db after = (
  λ account at lock free. ground (arith, at, lock, free),
  λ result h. elim (Option-cases (account_by_id id db)) [
    | inl gone ↦ absurd (ground (arith, gone))
    | inr (account, at) ↦
        let (same, found) = account-update (with_unlock now) id db account (λ x. refl) at in
        let e : after.accounts
            ≡ update_where (λ (a : Account). a.id == account.id) (with_unlock now) db.accounts =
          ground (arith, at) in
        let r : result ≡ with_unlock now account = ground (arith, at) in
        (
          account,
          at,
          ground (arith, at),
          rw (e, r) found,
          rw r refl,
          rw r refl,
          rw r refl,
          revoked-SignedOut account id now db after same (ground (arith, at)),
        )
  ],
)

module _ (actor : Actor) (id : ℕ) (now : ℕ) (request_id : String) (db after : Db) where
  change_target-writes :
      (target result : Account) (role : Role) (status : Status)
      → change_target actor target (lock_active_admins db) role status now request_id db
        ≡ (ok result, after)
      → (result ≡ changed role status now target)
        × (role_eq target.role role && status_eq target.status status ≡ false)
        × (after.accounts
            ≡ update_where
                (λ (a : Account). a.id == target.id)
                (changed role status now)
                db.accounts)
        × (ends_sessions target role status ≡ true
            → after.sessions
              ≡ update_where (live_of target.id) (revoke now "admin_action") db.sessions)
        × (ends_sessions target role status ≡ false → after.sessions ≡ db.sessions)
  unfolding change_target revoke_all
  change_target-writes target result role status h =
      (ground arith, ground arith, ground arith, λ e. ground (arith, e), λ e. ground (arith, e))

  -- A change succeeds only for a known role and for a status that is active or deactivated, and only if
  -- it changes one of them. The account then has both, and the next version; a changed role and a
  -- deactivation revoke every session of the account, and a reactivation revokes none. The ids of the
  -- accounts are distinct, as their primary key demands.
  pub change_account_role_or_status_sound :
      (role_name status_name : String) (result : Account)
      → Unique (λ (a : Account). a.id) db.accounts
      → change_account_role_or_status actor id role_name status_name now request_id db
        ≡ (ok result, after)
      → (account : Account) × (account_by_id id db ≡ some account)
        × (account_by_id id after ≡ some result)
        × (role_of role_name ≡ some result.role)
        × (status_of status_name ≡ some result.status)
        × (role_eq account.role result.role && status_eq account.status result.status ≡ false)
        × (result.auth_version ≡ account.auth_version + 1)
        × (role_eq account.role result.role && not (status_eq deactivated result.status) ≡ false
            → SignedOut id after)
        × (role_eq account.role result.role && not (status_eq deactivated result.status) ≡ true
            → after.sessions ≡ db.sessions)
  unfolding change_account_role_or_status changed
  change_account_role_or_status_sound role_name status_name result u h =
      elim (Option-cases (role_of role_name)) [
        | inl bad ↦ absurd (ground arith)
        | inr (role, e) ↦ elim (Option-cases (status_of status_name)) [
          | inl bad ↦ absurd (ground arith)
          | inr (status, e') ↦ elim (Option-cases (target_of id db)) [
            | inl gone ↦ absurd (ground arith)
            | inr (target, found) ↦
                let at = target_of-account_by_id id db target u found in
                let (r, differs, accounts, revoked, kept) =
                  change_target-writes target result role status (ground (arith, e, e', found)) in
                let (same, own) =
                  account-update (changed role status now) id db target (λ x. refl) at in
                (
                  target,
                  at,
                  rw (accounts, r) own,
                  rw r e,
                  rw r e',
                  rw r differs,
                  rw r refl,
                  λ ends.
                      revoked-SignedOut target id now db after same
                        (revoked (ground (arith, r, ends))),
                  λ stays. kept (ground (arith, r, stays)),
                )
          ]
        ]
      ]
