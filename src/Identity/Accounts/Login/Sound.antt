-- ===== src/Identity/Accounts/Login/Sound.antt =====
-- Who passes the sign-in, and what a refusal shows.
use prison_policy_ai.Prelude.{
  ℕ, ◌≡◌, refl, List, [], ◌∷◌, ◌++◌, append_assoc, Option, none, some, Bool, true, false, ◌&&◌,
  String, arith, Option-cases, ◌⊎◌, inl, inr,
}
use prison_policy_ai.Fault.{Fault, ok, raised, invalid_credentials}
use prison_policy_ai.Identity.Crypto.{Crypto}
use prison_policy_ai.Identity.Normalization.{normalize_employee_number}
use prison_policy_ai.Identity.Pins.{verify_pin}
use prison_policy_ai.Identity.Models.{StaffMember, Account, AuditEvent, Db, active, is_locked}
use prison_policy_ai.Identity.Accounts.Lockout.{
  expire_lock, record_failed_attempt, reset_failed_attempts, reached,
}
use prison_policy_ai.Identity.Accounts.Login.{
  LoginInput, Outcome, accepted, refused, login_account, login_name, check_attempt, refuse_pin,
  finish, attempt_login, accept_login, temporary_pin_expired, verify_login_pin, audit_failure,
  audit_lock,
}

Outcome-cases :
    (o : Outcome)
    → (o ≡ accepted) ⊎ ((reason : String) × (minutes : Option ℕ) × (o ≡ refused reason minutes))
Outcome-cases accepted = inl refl
Outcome-cases (refused reason minutes) = inr (reason, minutes, refl)

-- an accepted attempt
check_attempt-accepted :
    (found account : Account) (member : StaffMember) (valid : Bool) (now : ℕ)
    → check_attempt found member valid now ≡ (account, accepted)
    → (valid ≡ true)
      × (member.is_active ≡ true)
      × (account.status ≡ active)
      × (temporary_pin_expired found now ≡ false)
      × ((found.status ≡ active)
          ⊎ (is_locked found.status && reached found.locked_until now ≡ true))
unfolding check_attempt
check_attempt-accepted found account member valid now h =
    unfold expire_lock refuse_pin record_failed_attempt in
    (ground arith, ground arith, ground arith, ground arith, ground arith)

module _ (crypto : Crypto) (input : LoginInput) (db : Db) where
  finish-ok :
      (of_staff member : StaffMember) (checked : Account × Outcome) (account : Account) (after : Db)
      → finish crypto input of_staff checked db ≡ (ok (account, member), after)
      → (checked.1 ≡ accepted)
        × (account ≡ accept_login crypto input.salt input.pin input.now checked.0)
        × (member ≡ of_staff)
  unfolding finish
  finish-ok of_staff member (a, accepted) account after h = (refl, ground arith, ground arith)
  finish-ok of_staff member (a, refused reason none) account after h = absurd (ground arith)
  finish-ok of_staff member (a, refused reason (some minutes)) account after h =
      absurd (ground arith)

  -- A sign-in passes only with the PIN of the account that the employee number names, while the staff
  -- member is active, a temporary PIN has not expired, and the account is active or its lock has run
  -- out. The account is active then, with no failed attempts and no lock.
  pub verify_login_pin_sound :
      (account : Account) (member : StaffMember) (after : Db)
      → verify_login_pin crypto input db ≡ (ok (account, member), after)
      → (stored : Account) × (login_account
            (login_name (normalize_employee_number input.employee_number))
            db
          ≡ some (stored, member))
        × (verify_pin crypto stored.pin_hash input.pin ≡ true)
        × (member.is_active ≡ true)
        × (temporary_pin_expired stored input.now ≡ false)
        × ((stored.status ≡ active)
            ⊎ (is_locked stored.status && reached stored.locked_until input.now ≡ true))
        × (account.status ≡ active)
        × (account.failed_attempts ≡ 0)
        × (account.locked_until ≡ none)
  unfolding verify_login_pin attempt_login
  verify_login_pin_sound account member after h =
      elim (Option-cases
        (login_account (login_name (normalize_employee_number input.employee_number)) db)) [
          | inl gone ↦ absurd (ground arith)
          | inr ((stored, of_staff), found) ↦
              let checked =
                check_attempt stored of_staff (verify_pin crypto stored.pin_hash input.pin)
                  input.now in
              let finished : finish crypto input of_staff checked db
                  ≡ (ok (account, member), after) =
                ground (arith, found) in
              let (e, account_is, same) =
                finish-ok of_staff member checked account after finished in
              let (valid, on, live, unexpired, was) =
                check_attempt-accepted stored checked.0 of_staff
                  (verify_pin crypto stored.pin_hash input.pin) input.now (ground (arith, e)) in
              let cleared : (account.status ≡ active)
                  × (account.failed_attempts ≡ 0)
                  × (account.locked_until ≡ none) =
                rw account_is (
                  unfold accept_login reset_failed_attempts in
                  (ground (arith, live), refl, refl)) in
              (
                stored,
                ground (arith, found, same),
                valid,
                rw same on,
                unexpired,
                was,
                cleared.0,
                cleared.1,
                cleared.2,
              )
        ]

  finish-raised :
      (of_staff : StaffMember) (checked : Account × Outcome) (f : Fault) (after : Db)
      → finish crypto input of_staff checked db ≡ (raised f, after)
      → (f ≡ invalid_credentials)
        × ((event : AuditEvent) × (more : List AuditEvent) × (after.audit
              ≡ db.audit ++ event ∷ more)
            × (event.action ≡ "auth.login_failed"))
        × (after.sessions ≡ db.sessions)
  unfolding finish audit_failure audit_lock
  finish-raised of_staff (a, accepted) f after h = absurd (ground arith)
  finish-raised of_staff (a, refused reason none) f after h = (
    ground arith,
    (audit_failure (some (a, of_staff)) input.request_id reason, [], ground arith, refl),
    ground arith,
  )
  finish-raised of_staff (a, refused reason (some minutes)) f after h = (
    ground arith,
    (
      audit_failure (some (a, of_staff)) input.request_id reason,
      audit_lock a input.request_id minutes ∷ [],
      ground (
        arith,
        append_assoc db.audit (audit_failure (some (a, of_staff)) input.request_id reason ∷ [])
            (audit_lock a input.request_id minutes ∷ []),
      ),
      refl,
    ),
    ground arith,
  )

  -- Every refusal of a sign-in raises the one generic error, whatever its cause; it opens no session,
  -- and the failure is in the audit log, before the lock if the attempt sets one.
  pub verify_login_pin-refuses :
      (f : Fault) (after : Db)
      → verify_login_pin crypto input db ≡ (raised f, after)
      → (f ≡ invalid_credentials)
        × ((event : AuditEvent) × (more : List AuditEvent) × (after.audit
              ≡ db.audit ++ event ∷ more)
            × (event.action ≡ "auth.login_failed"))
        × (after.sessions ≡ db.sessions)
  unfolding verify_login_pin attempt_login
  verify_login_pin-refuses f after h =
      elim (Option-cases
        (login_account (login_name (normalize_employee_number input.employee_number)) db)) [
          | inl gone ↦ (
            ground arith,
            (
              audit_failure none input.request_id "invalid_credentials",
              [],
              ground arith,
              unfold audit_failure in refl,
            ),
            ground arith,
          )
          | inr ((stored, of_staff), found) ↦
              finish-raised of_staff
                (check_attempt stored of_staff (verify_pin crypto stored.pin_hash input.pin)
                  input.now)
                f after (ground (arith, found))
        ]
