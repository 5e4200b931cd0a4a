-- ===== src/Identity/Sessions/KeptElsewhere.antt =====
-- identity/sessions.py and identity/accounts.py: a sign-in and what administrators do keep the revoked rows.
use prison_policy_ai.Prelude.{
  List, update_where, ℕ, ◌≡◌, refl, Bool, String, Text, List, arith, Option-cases, inl, inr, ◌⊎◌,
  subst,
}
use prison_policy_ai.Fault.{Exec-cases}
use prison_policy_ai.Identity.Crypto.{Crypto}
use prison_policy_ai.Identity.Normalization.{normalize_employee_number}
use prison_policy_ai.Identity.Models.{AccessSession, Account, Role, Status, Db, account_by_id}
use prison_policy_ai.Identity.Accounts.Login.{
  LoginInput, verify_login_pin, attempt_login, login_account, login_name, finish,
}
use prison_policy_ai.Identity.Sessions.Defs.{IdentitySettings, Draw, create_session, revoke}
use prison_policy_ai.Identity.Sessions.Operations.{login, live_of}
use prison_policy_ai.Identity.Sessions.Revoked.{
  KeepsRevoked, KeepsRevoked-refl, KeepsRevoked-update,
}
use prison_policy_ai.Identity.Sessions.Kept.{from_cases, create_session-sessions}
use prison_policy_ai.Identity.Elevation.{Actor}
use prison_policy_ai.Identity.Administration.{
  revoke_all, role_of, status_of, target_of, lock_active_admins, change_target,
  change_account_role_or_status, reset_account_pin, unlock_account,
}

module _ (crypto : Crypto) (input : LoginInput) where
  verify_login_pin-sessions :
      (db : Db) → (verify_login_pin crypto input db).1.sessions ≡ db.sessions
  unfolding verify_login_pin attempt_login finish
  verify_login_pin-sessions db =
      elim (Option-cases
        (login_account (login_name (normalize_employee_number input.employee_number)) db)) [
          | inl gone ↦ ground (arith, gone)
          | inr ((stored, member), found) ↦ ground (arith, found)
        ]

  -- A sign-in adds a session or leaves the sessions alone.
  pub login-sessions :
      (settings : IdentitySettings) (device_id device_label : Text) (persistent : Bool)
      (draw : Draw) (db : Db)
      → KeepsRevoked db.sessions
          (login crypto settings input device_id device_label persistent draw db).1.sessions
  unfolding login
  login-sessions settings device_id device_label persistent draw db =
      let checked = verify_login_pin-sessions db in
      elim (Exec-cases (verify_login_pin crypto input db)) [
        | inr (f, s, e) ↦
            from_cases (inl (ground (arith, e, checked))) (KeepsRevoked-refl db.sessions)
        | inl (owner, s, e) ↦
            let same : s.sessions ≡ db.sessions = ground (arith, e, checked) in
            let made =
              create_session crypto settings owner device_id device_label persistent input.now draw
                s in
            let kept : KeepsRevoked db.sessions made.1.sessions =
              subst (λ rows. KeepsRevoked rows made.1.sessions) same
                (create_session-sessions crypto settings owner device_id device_label persistent
                  input.now draw s) in
            elim (Exec-cases made) [
              | inl (pair, s', e') ↦ from_cases (inr (ground (arith, e, e'))) kept
              | inr (f, s', e') ↦ from_cases (inr (ground (arith, e, e'))) kept
            ]
      ]

-- the sign-out of all sessions within another operation
revoke_all-KeepsRevoked :
    (account_id now : ℕ) (rows : List AccessSession)
    → KeepsRevoked rows (update_where (live_of account_id) (revoke now "admin_action") rows)
revoke_all-KeepsRevoked account_id now rows =
    KeepsRevoked-update (live_of account_id) (revoke now "admin_action") rows (λ x. refl)
      (λ x hit gone. absurd (ground arith))

module _ (actor : Actor) (now : ℕ) (request_id : String) (db : Db) where
  change_target-sessions :
      (target : Account) (admins : List Account) (role : Role) (status : Status)
      → KeepsRevoked db.sessions
          (change_target actor target admins role status now request_id db).1.sessions
  unfolding change_target revoke_all
  change_target-sessions target admins role status =
      let after = change_target actor target admins role status now request_id db in
      let ended : (after.1.sessions ≡ db.sessions)
          ⊎ (after.1.sessions
              ≡ update_where (live_of target.id) (revoke now "admin_action") db.sessions) =
        ground arith in
      from_cases ended (revoke_all-KeepsRevoked target.id now db.sessions)

  pub change-sessions :
      (id : ℕ) (role status : String)
      → KeepsRevoked db.sessions
          (change_account_role_or_status actor id role status now request_id db).1.sessions
  unfolding change_account_role_or_status
  change-sessions id role_name status_name = elim (Option-cases (role_of role_name)) [
    | inl bad ↦ from_cases (inl (ground arith)) (KeepsRevoked-refl db.sessions)
    | inr (role, e) ↦ elim (Option-cases (status_of status_name)) [
      | inl bad ↦ from_cases (inl (ground arith)) (KeepsRevoked-refl db.sessions)
      | inr (status, e') ↦ elim (Option-cases (target_of id db)) [
        | inl gone ↦ from_cases (inl (ground arith)) (KeepsRevoked-refl db.sessions)
        | inr (target, e'') ↦
            from_cases (inr (ground arith))
              (change_target-sessions target (lock_active_admins db) role status)
      ]
    ]
  ]

  pub unlock-sessions :
      (id : ℕ) → KeepsRevoked db.sessions (unlock_account actor id now request_id db).1.sessions
  unfolding unlock_account revoke_all
  unlock-sessions id = elim (Option-cases (account_by_id id db)) [
    | inl gone ↦ from_cases (inl (ground arith)) (KeepsRevoked-refl db.sessions)
    | inr (account, at) ↦
        let after = unlock_account actor id now request_id db in
        let ended : (after.1.sessions ≡ db.sessions)
            ⊎ (after.1.sessions
                ≡ update_where (live_of account.id) (revoke now "admin_action") db.sessions) =
          ground arith in
        from_cases ended (revoke_all-KeepsRevoked account.id now db.sessions)
  ]

  pub reset-sessions :
      (crypto : Crypto) (id : ℕ) (draws : List Text) (salt : Text)
      → KeepsRevoked db.sessions
          (reset_account_pin crypto actor id now request_id draws salt db).1.sessions
  unfolding reset_account_pin revoke_all
  reset-sessions crypto id draws salt = elim (Option-cases (account_by_id id db)) [
    | inl gone ↦ from_cases (inl (ground arith)) (KeepsRevoked-refl db.sessions)
    | inr (account, at) ↦
        elim (Exec-cases (reset_account_pin crypto actor id now request_id draws salt db)) [
          | inr (f, s, e) ↦ from_cases (inl (ground arith)) (KeepsRevoked-refl db.sessions)
          | inl (r, s, e) ↦
              from_cases (inr (ground arith)) (revoke_all-KeepsRevoked account.id now db.sessions)
        ]
  ]
