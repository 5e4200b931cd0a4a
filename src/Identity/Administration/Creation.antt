-- ===== src/Identity/Administration/Creation.antt =====
-- identity/accounts.py: `create_account`, `create_account_for_staff` and `bootstrap_first_admin`.
use prison_policy_ai.Prelude.{
  ℕ, ◌+◌, List, [], ◌∷◌, ◌++◌, Option, none, some, Bool, true, not, ◌&&◌, ◌||◌, String, Text, leb,
  ◌==◌, find, all, is_some, hours, length,
}
use prison_policy_ai.Fault.{
  Exec, pure, raise_if, lift, gets, require, modify, value_error, lookup_error,
  account_already_exists, bootstrap_refused, ◌>>=◌, ◌>>◌,
}
use prison_policy_ai.Identity.Crypto.{Crypto}
use prison_policy_ai.Identity.Pins.{hash_pin, generate_temporary_pin}
use prison_policy_ai.Identity.Models.{
  Role, active, StaffMember, Account, Db, AuditEvent, ident, word, text, staff_by_id, append_audit,
}
use prison_policy_ai.Identity.Elevation.{Actor}
use prison_policy_ai.Identity.Administration.{
  TemporaryPinResult, role_of, role_name, drawn, admin_event,
}

-- what a new account draws: its id, the candidates for its PIN, and the salt of the hash
pub record NewAccount : Type 0 where
  pub id : ℕ
  pub draws : List Text
  pub salt : Text

abbrev pub account_of : ℕ → Db → Option Account
account_of staff_id db = find (λ a. a.staff_member_id == staff_id) db.accounts

abbrev pub new_account : ℕ → ℕ → Role → Text → ℕ → Account
new_account id staff_id role pin_hash now = record {
  id = id;
  staff_member_id = staff_id;
  role = role;
  status = active;
  pin_hash = pin_hash;
  must_change_pin = true;
  temporary_pin_expires_at = some (now + hours 24);
  failed_attempts = 0;
  lock_cycle = 0;
  locked_until = none;
  auth_version = 1;
  last_login_at = none;
  updated_at = now;
  deactivated_at = none;
}

-- [0-9a-f]{64}
abbrev pub is_hex : ℕ → Bool
is_hex c = (leb b'0' c && leb c b'9') || (leb b'a' c && leb c b'f')

unfoldable pub is_sha256_hex : Text → Bool
is_sha256_hex s = length s == 64 && all is_hex s

unfoldable pub bootstrap_event : ℕ → String → Text → AuditEvent
bootstrap_event account_id operation_id approval_reference = record {
  actor_account_id = none;
  actor_staff_member_id = none;
  action = "system.initial_admin_bootstrapped";
  result = "success";
  request_id = operation_id;
  target_type = "account";
  target_id = some account_id;
  details =
      ("operation_id", word operation_id)
      ∷ ("approval_reference_sha256", text approval_reference)
      ∷ [];
}

module _ (crypto : Crypto) (fresh : NewAccount) where
  -- `_new_account` and the insert
  unfoldable pub add_account : StaffMember → String → ℕ → Exec Db TemporaryPinResult
  add_account staff role_name now = do
    role ← require (λ _. role_of role_name) value_error
    temporary_pin ← lift (drawn (generate_temporary_pin staff.employee_number fresh.draws))
    pin_hash ← lift (hash_pin crypto fresh.salt temporary_pin)
    modify (λ db. record db {
      accounts = db.accounts ++ new_account fresh.id staff.id role pin_hash now ∷ [];
    })
    pure (record {
      account_id = fresh.id;
      temporary_pin = temporary_pin;
      expires_at = now + hours 24;
    })

  unfoldable pub create_account : ℕ → String → ℕ → String → Actor → Exec Db TemporaryPinResult
  unfolding add_account
  create_account staff_member_id role now request_id actor = do
    staff ← require (staff_by_id staff_member_id) value_error
    raise_if (not staff.is_active) value_error
    existing ← gets (account_of staff.id)
    raise_if (is_some existing) value_error
    result ← add_account staff role now
    append_audit (
        admin_event actor "admin.account_created" "account" result.account_id
          (("target_account_id", ident result.account_id) ∷ ("role", word role) ∷ []) request_id)
    pure result

  unfoldable pub create_account_for_staff :
      Actor → ℕ → String → ℕ → String → Exec Db TemporaryPinResult
  unfolding create_account
  create_account_for_staff actor staff_id role now request_id = do
    staff ← require (staff_by_id staff_id) lookup_error
    existing ← gets (account_of staff_id)
    raise_if (is_some existing) account_already_exists
    create_account staff.id role now request_id actor

  unfoldable pub bootstrap_first_admin : ℕ → ℕ → String → Text → Exec Db TemporaryPinResult
  unfolding add_account
  bootstrap_first_admin staff_member_id now operation_id approval_reference = do
    raise_if (not (is_sha256_hex approval_reference)) value_error
    count ← gets (λ db. length db.accounts)
    raise_if (not (count == 0)) bootstrap_refused
    staff ← require (staff_by_id staff_member_id) bootstrap_refused
    raise_if (not staff.is_active) bootstrap_refused
    result ← add_account staff "admin" now
    append_audit (bootstrap_event result.account_id operation_id approval_reference)
    pure result
