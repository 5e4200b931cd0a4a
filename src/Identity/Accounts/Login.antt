-- ===== src/Identity/Accounts/Login.antt =====
-- identity/accounts.py: `verify_login_pin`.
pub mod Bounds
pub mod Sound
use prison_policy_ai.Prelude.{
  ℕ, List, [], ◌∷◌, Option, none, some, Bool, true, false, not, ◌&&◌, String, Text, text_eq, leb,
  ◌==◌, find, if◌then◌else◌, refl, ◌≡◌,
}
use prison_policy_ai.Fault.{
  Result, ok, raised, Exec, pure, raise, invalid_credentials, ◌>>=◌, ◌>>◌, modify, gets,
}
use prison_policy_ai.Identity.Crypto.{Crypto}
use prison_policy_ai.Identity.Normalization.{upper, normalize_employee_number}
use prison_policy_ai.Identity.Pins.{verify_pin}
use prison_policy_ai.Identity.Models.{
  StaffMember, Account, Db, AuditEvent, Detail, word, number, is_active, update_account,
  append_audit,
}
use prison_policy_ai.Identity.Accounts.Lockout.{
  reset_failed_attempts, record_failed_attempt, expire_lock,
}

-- the join of accounts and staff members on an employee number, which is unique
abbrev pub account_of_staff : StaffMember → Db → Option (Account × StaffMember)
account_of_staff member db = elim (find (λ a. a.staff_member_id == member.id) db.accounts) [
  | none ↦ none
  | some a ↦ some (a, member)
]

unfoldable pub login_account : Text → Db → Option (Account × StaffMember)
login_account employee_number db =
    elim (find (λ s. text_eq s.employee_number employee_number) db.staff) [
      | none ↦ none
      | some member ↦ account_of_staff member db
    ]

-- How an attempt ended: refused for a reason, with the minutes of a lock that it set.
pub data Outcome : Type 0 where
  accepted : Outcome
  refused : String → Option ℕ → Outcome

abbrev pub temporary_pin_expired : Account → ℕ → Bool
temporary_pin_expired account now =
    account.must_change_pin
    && elim account.temporary_pin_expires_at [ none ↦ false | some t ↦ leb t now ]

-- the account after a wrong PIN, and the refusal
unfoldable pub refuse_pin : Account → ℕ → Account × Outcome
unfolding record_failed_attempt
refuse_pin account now =
    let (account', minutes) = record_failed_attempt account now in
    (account', refused "invalid_pin" minutes)

-- the checks after the account is found, up to the last two statements of a success
unfoldable pub check_attempt : Account → StaffMember → Bool → ℕ → Account × Outcome
unfolding expire_lock refuse_pin
check_attempt found member pin_valid now =
    let account = expire_lock found now in
    if not (is_active account.status)
    then (account, refused "account_locked_or_deactivated" none)
    else if not member.is_active
    then (account, refused "staff_inactive" none)
    else if temporary_pin_expired account now
    then (account, refused "temporary_pin_expired" none)
    else if not pin_valid
    then refuse_pin account now
    else (account, accepted)

-- the account of a success; the hash is made anew where argon2 asks for it
unfoldable pub accept_login : Crypto → Text → Text → ℕ → Account → Account
unfolding reset_failed_attempts
accept_login crypto salt pin now account =
    let a = reset_failed_attempts account in
    record a {
      last_login_at = some now;
      pin_hash =
          if crypto.argon_needs_rehash a.pin_hash
          then crypto.argon_hash salt (upper pin)
          else a.pin_hash;
    }

unfoldable pub audit_failure : Option (Account × StaffMember) → String → String → AuditEvent
audit_failure none request_id reason = record {
  actor_account_id = none;
  actor_staff_member_id = none;
  action = "auth.login_failed";
  result = "failed";
  request_id = request_id;
  target_type = "account";
  target_id = none;
  details = ("reason", word reason) ∷ [];
}
audit_failure (some (account, member)) request_id reason = record {
  actor_account_id = some account.id;
  actor_staff_member_id = some member.id;
  action = "auth.login_failed";
  result = "failed";
  request_id = request_id;
  target_type = "account";
  target_id = some account.id;
  details = ("reason", word reason) ∷ [];
}

unfoldable pub audit_lock : Account → String → ℕ → AuditEvent
audit_lock account request_id minutes = record {
  actor_account_id = some account.id;
  actor_staff_member_id = some account.staff_member_id;
  action = "auth.locked";
  result = "failed";
  request_id = request_id;
  target_type = "account";
  target_id = some account.id;
  details = ("lock_minutes", number minutes) ∷ [];
}

pub record LoginInput : Type 0 where
  pub employee_number : Text
  pub pin : Text
  pub now : ℕ
  pub request_id : String
  -- what the hasher draws if the hash is made anew
  pub salt : Text

abbrev append_lock : Account → String → Option ℕ → Exec Db (Unit {0})
append_lock account request_id none = pure tt
append_lock account request_id (some minutes) = append_audit (audit_lock account request_id minutes)

-- `except ValueError: normalized_employee_number = ""`
abbrev pub login_name : Result Text → Text
login_name (ok n) = n
login_name (raised _) = []

module _ (crypto : Crypto) (input : LoginInput) where
  unfoldable pub finish : StaffMember → Account × Outcome → Exec Db (Account × StaffMember)
  finish member (account, refused reason minutes) = do
    modify (update_account account.id (λ _. account))
    append_audit (audit_failure (some (account, member)) input.request_id reason)
    append_lock account input.request_id minutes
    raise invalid_credentials
  finish member (account, accepted) = do
    let account' = accept_login crypto input.salt input.pin input.now account
    modify (update_account account.id (λ _. account'))
    pure (account', member)

  unfoldable pub attempt_login : Option (Account × StaffMember) → Exec Db (Account × StaffMember)
  unfolding finish
  attempt_login none = do
    append_audit (audit_failure none input.request_id "invalid_credentials")
    raise invalid_credentials
  attempt_login (some (account, member)) =
      finish member
        (check_attempt account member (verify_pin crypto account.pin_hash input.pin) input.now)

  unfoldable pub verify_login_pin : Exec Db (Account × StaffMember)
  unfolding attempt_login
  verify_login_pin = do
    row ← gets (login_account (login_name (normalize_employee_number input.employee_number)))
    attempt_login row
