-- ===== src/Identity/Administration.antt =====
-- identity/accounts.py: what an administrator does to an account.
pub mod Creation
pub mod Signouts
pub mod LastAdmin
pub mod Effects
pub mod Reset
pub mod Accounts
use text.Mathlib.Text.{◌==◌ as str_eq}
use prison_policy_ai.Prelude.{
  ℕ, ◌+◌, List, [], ◌∷◌, ◌++◌, Option, none, some, Bool, true, false, not, ◌&&◌, ◌||◌, String, Text,
  leb, ◌==◌, find, any, all, select, update_where, if◌then◌else◌, is_none, is_some, or_else, hours,
  length, map,
}
use prison_policy_ai.Fault.{
  Result, ok, raised, Exec, pure, raise, raise_if, lift, gets, require, modify, value_error,
  lookup_error, attribute_error, last_active_admin, account_conflict, account_already_exists,
  bootstrap_refused, lock_not_available, still_drawing, ◌>>=◌, ◌>>◌,
}
use prison_policy_ai.Identity.Crypto.{Crypto}
use prison_policy_ai.Identity.Pins.{hash_pin, generate_temporary_pin}
use prison_policy_ai.Identity.Models.{
  Role, user, admin, Status, active, locked, deactivated, is_admin, is_active, is_locked,
  StaffMember, Account, AccessSession, Db, AuditEvent, Detail, ident, word, number, staff_by_id,
  account_by_id, session_by_id, update_account, update_session, append_audit,
}
use prison_policy_ai.Identity.Accounts.Lockout.{reset_failed_attempts, unlock_admin_account}
use prison_policy_ai.Identity.Sessions.Defs.{revoke}
use prison_policy_ai.Identity.Sessions.Operations.{live_of, next_version}
use prison_policy_ai.Identity.Elevation.{Actor}

pub record TemporaryPinResult : Type 0 where
  pub account_id : ℕ
  pub temporary_pin : Text
  pub expires_at : ℕ

abbrev pub is_active_admin : Account → Bool
is_active_admin account = is_admin account.role && is_active account.status

-- `lock_active_admins`
abbrev pub lock_active_admins : Db → List Account
lock_active_admins db = select is_active_admin db.accounts

abbrev pub is_other : Account → Account → Bool
is_other target item = not (item.id == target.id)

-- `ensure_not_last_active_admin`: whether it refuses
unfoldable pub is_last_active_admin : Account → List Account → Role → Status → Bool
is_last_active_admin target active_admins role status =
    is_active_admin target
    && (not (is_admin role) || not (is_active status))
    && not (any (is_other target) active_admins)

unfoldable pub admin_event :
    Actor → String → String → ℕ → List (String × Detail) → String → AuditEvent
admin_event actor action target_type target_id details request_id = record {
  actor_account_id = some actor.account_id;
  actor_staff_member_id = some actor.staff_member_id;
  action = action;
  result = "success";
  request_id = request_id;
  target_type = target_type;
  target_id = some target_id;
  details = details;
}

-- whether another transaction holds one of the rows, so that a query with nowait raises
unfoldable pub are_held : Db → List AccessSession → Bool
are_held db = any (λ row. any (λ id. id == row.id) db.held_sessions)

-- `_revoke_account_sessions`
unfoldable pub revoke_all : ℕ → ℕ → Exec Db (Unit {0})
revoke_all account_id now = do
  held ← gets (λ db. are_held db (select (live_of account_id) db.sessions))
  raise_if held lock_not_available
  modify (λ db. record db {
    sessions = update_where (live_of account_id) (revoke now "admin_action") db.sessions;
  })

abbrev pub role_eq : Role → Role → Bool
role_eq user user = true
role_eq admin admin = true
role_eq user admin = false
role_eq admin user = false

abbrev pub status_eq : Status → Status → Bool
status_eq active s = is_active s
status_eq locked s = is_locked s
status_eq deactivated active = false
status_eq deactivated locked = false
status_eq deactivated deactivated = true

abbrev pub role_name : Role → String
role_name user = "user"
role_name admin = "admin"

unfoldable pub role_of : String → Option Role
role_of name =
    if str_eq name "user" then some user else if str_eq name "admin" then some admin else none

-- the states that a request may ask for
unfoldable pub status_of : String → Option Status
status_of name =
    if str_eq name "active"
    then some active
    else if str_eq name "deactivated"
    then some deactivated
    else none

-- among the locked administrators first, then by a query of its own
unfoldable pub target_of : ℕ → Db → Option Account
target_of target_account_id db =
    elim (find (λ a. a.id == target_account_id) (lock_active_admins db)) [
      | none ↦ account_by_id target_account_id db
      | some target ↦ some target
    ]

unfoldable pub changed : Role → Status → ℕ → Account → Account
changed role status now target = record target {
  role = role;
  status = status;
  deactivated_at = if status_eq deactivated status then some now else none;
  updated_at = now;
  auth_version = target.auth_version + 1;
}

abbrev pub ends_sessions : Account → Role → Status → Bool
ends_sessions target role status = not (role_eq target.role role) || status_eq deactivated status

unfoldable pub change_event : Actor → Account → Role → Status → String → AuditEvent
unfolding admin_event
change_event actor target role status request_id =
    if not (role_eq target.role role)
    then admin_event actor "admin.account_role_changed" "account" target.id
        (("target_account_id", ident target.id)
          ∷ ("old_role", word (role_name target.role))
          ∷ ("new_role", word (role_name role))
          ∷ [])
        request_id
    else if status_eq deactivated status
    then admin_event actor "admin.account_deactivated" "account" target.id
        (("target_account_id", ident target.id) ∷ []) request_id
    else admin_event actor "admin.account_reactivated" "account" target.id
        (("target_account_id", ident target.id) ∷ []) request_id

-- the part of `change_account_role_or_status` that follows the queries
unfoldable pub change_target :
    Actor → Account → List Account → Role → Status → ℕ → String → Exec Db Account
change_target actor target active_admins role status now request_id = do
  raise_if (is_last_active_admin target active_admins role status) last_active_admin
  raise_if (is_locked target.status && is_active status) account_conflict
  raise_if (role_eq target.role role && status_eq target.status status) account_conflict
  modify (update_account target.id (changed role status now))
  if ends_sessions target role status then revoke_all target.id now else pure tt
  append_audit (change_event actor target role status request_id)
  pure (changed role status now target)

unfoldable pub change_account_role_or_status :
    Actor → ℕ → String → String → ℕ → String → Exec Db Account
change_account_role_or_status actor target_account_id role_name status_name now request_id = do
  role ← require (λ _. role_of role_name) value_error
  status ← require (λ _. status_of status_name) value_error
  active_admins ← gets lock_active_admins
  target ← require (target_of target_account_id) lookup_error
  change_target actor target active_admins role status now request_id

-- the result of the loop that draws a temporary PIN
abbrev pub drawn : Option (Result Text) → Result Text
drawn none = raised still_drawing
drawn (some r) = r

unfoldable pub with_temporary_pin : Text → ℕ → Account → Account
unfolding reset_failed_attempts
with_temporary_pin pin_hash now account = reset_failed_attempts (record account {
  pin_hash = pin_hash;
  must_change_pin = true;
  temporary_pin_expires_at = some (now + hours 24);
  updated_at = now;
  auth_version = account.auth_version + 1;
})

-- `draws` are the candidates that the generator draws, `salt` is the hasher's
unfoldable pub reset_account_pin :
    Crypto → Actor → ℕ → ℕ → String → List Text → Text → Exec Db TemporaryPinResult
reset_account_pin crypto actor target_account_id now request_id draws salt = do
  account ← require (account_by_id target_account_id) lookup_error
  staff ← require (staff_by_id account.staff_member_id) attribute_error
  temporary_pin ← lift (drawn (generate_temporary_pin staff.employee_number draws))
  pin_hash ← lift (hash_pin crypto salt temporary_pin)
  modify (update_account account.id (with_temporary_pin pin_hash now))
  revoke_all account.id now
  append_audit (
      admin_event actor "auth.pin_reset" "account" account.id
        (("target_account_id", ident account.id) ∷ []) request_id)
  pure (record {
    account_id = account.id;
    temporary_pin = temporary_pin;
    expires_at = now + hours 24;
  })

unfoldable pub with_unlock : ℕ → Account → Account
unfolding unlock_admin_account
with_unlock now account =
    unlock_admin_account
      (record account { updated_at = now; auth_version = account.auth_version + 1 })

-- `unlock_account`, called with an actor
unfoldable pub unlock_account : Actor → ℕ → ℕ → String → Exec Db Account
unlock_account actor target_account_id now request_id = do
  account ← require (account_by_id target_account_id) lookup_error
  raise_if (not (is_locked account.status)) account_conflict
  modify (update_account account.id (with_unlock now))
  revoke_all account.id now
  append_audit (
      admin_event actor "admin.account_unlocked" "account" account.id
        (("target_account_id", ident account.id) ∷ []) request_id)
  pure (with_unlock now account)
