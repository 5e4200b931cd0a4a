-- ===== src/Identity/Elevation.antt =====
-- identity/elevation.py: the administrator's PIN confirmation, its idle window, and the one-time
-- step-up tokens.
pub mod Tokens
pub mod Window
use text.Mathlib.Text.{◌==◌ as str_eq}
use prison_policy_ai.Prelude.{
  ℕ, ◌+◌, List, [], ◌∷◌, ◌++◌, Option, none, some, Bool, true, false, not, ◌&&◌, ◌||◌, String, Text,
  leb, ◌==◌, find, any, update_where, if◌then◌else◌, is_none, is_some, minutes,
}
use prison_policy_ai.Fault.{
  Result, ok, raised, Exec, pure, raise, raise_if, lift, gets, require, modify, value_error,
  admin_elevation_required, step_up_required, ◌>>=◌, ◌>>◌,
}
use prison_policy_ai.Identity.Crypto.{Crypto}
use prison_policy_ai.Identity.Pins.{verify_pin}
use prison_policy_ai.Identity.Tokens.{hash_token, issue_credential}
use prison_policy_ai.Identity.Models.{
  Role, is_admin, is_active, StaffMember, Account, AccessSession, AdminElevation, AdminStepUpToken,
  Db, AuditEvent, Detail, word, staff_by_id, account_by_id, session_by_id, append_audit,
}

-- the signed-in caller, as the middleware resolves it
pub record Actor : Type 0 where
  pub account_id : ℕ
  pub staff_member_id : ℕ
  pub session_id : ℕ
  pub role : Role
  pub auth_version : ℕ

abbrev pub step_up_purposes : List String
step_up_purposes =
    "staff_write" ∷ "account_create" ∷ "account_role_status" ∷ "account_reset_pin"
    ∷ "account_unlock" ∷ "account_revoke_sessions" ∷ "report_restore" ∷ "report_transfer"
    ∷ "bulk_export" ∷ "audit_export" ∷ "review_lab_handoff" ∷ []

unfoldable pub is_step_up_purpose : String → Bool
is_step_up_purpose purpose = any (str_eq purpose) step_up_purposes

unfoldable pub is_confirmation_purpose : String → Bool
is_confirmation_purpose purpose = str_eq purpose "admin_center" || is_step_up_purpose purpose

abbrev pub elevation_deadline : ℕ → ℕ
elevation_deadline now = now + minutes 15

abbrev pub step_up_deadline : ℕ → ℕ
step_up_deadline now = now + minutes 5

abbrev pub elevation_of : Actor → Db → Option AdminElevation
elevation_of actor db = find (λ e. e.session_id == actor.session_id) db.elevations

abbrev pub is_open : AdminElevation → ℕ → Bool
is_open row now = is_none row.revoked_at && not (leb row.idle_expires_at now)

unfoldable pub elevation_is_active : Actor → ℕ → Db → Bool
elevation_is_active actor now db = elim (elevation_of actor db) [
  | none ↦ false
  | some row ↦ is_open row now
]

abbrev pub update_elevation : ℕ → (AdminElevation → AdminElevation) → Db → Db
update_elevation k f db = record db {
  elevations = update_where (λ e. e.session_id == k) f db.elevations;
}

abbrev pub touched : ℕ → AdminElevation → AdminElevation
touched now row = record row { last_used_at = now; idle_expires_at = elevation_deadline now }

unfoldable pub touch_admin_elevation : Actor → ℕ → Exec Db ℕ
touch_admin_elevation actor now = do
  row ← require (elevation_of actor) admin_elevation_required
  raise_if (is_some row.revoked_at || leb row.idle_expires_at now) admin_elevation_required
  modify (update_elevation row.session_id (touched now))
  pure (elevation_deadline now)

pub record ElevationResult : Type 0 where
  pub elevation_expires_at : ℕ
  pub step_up_token : Option Text
  pub step_up_expires_at : Option ℕ
  pub purpose : String

-- the rows that `confirm_admin_pin` locks
unfoldable pub is_confirmed :
    Crypto → Actor → Text → ℕ → Option AccessSession → Option Account → Option StaffMember → Bool
is_confirmed crypto actor pin now (some access) (some account) (some staff) =
    is_admin actor.role
    && is_admin account.role
    && is_active account.status
    && account.staff_member_id == actor.staff_member_id
    && staff.is_active
    && access.account_id == actor.account_id
    && is_none access.revoked_at
    && not (leb access.access_expires_at now)
    && access.auth_version == account.auth_version
    && actor.auth_version == account.auth_version
    && verify_pin crypto account.pin_hash pin
is_confirmed crypto actor pin now _ _ _ = false

unfoldable pub confirmation_event :
    Actor → String → String → String → List (String × Detail) → AuditEvent
confirmation_event actor action result request_id details = record {
  actor_account_id = some actor.account_id;
  actor_staff_member_id = some actor.staff_member_id;
  action = action;
  result = result;
  request_id = request_id;
  target_type = "account";
  target_id = some actor.account_id;
  details = details;
}

-- what one confirmation draws
pub record StepUpDraw : Type 0 where
  pub raw : Text
  pub token_id : ℕ

abbrev pub opened : ℕ → AdminElevation → AdminElevation
opened now row = record row {
  issued_at = now;
  last_used_at = now;
  idle_expires_at = elevation_deadline now;
  revoked_at = none;
}

abbrev pub new_elevation : Actor → ℕ → AdminElevation
new_elevation actor now = record {
  session_id = actor.session_id;
  issued_at = now;
  last_used_at = now;
  idle_expires_at = elevation_deadline now;
  revoked_at = none;
}

-- a new row of the session, or its row opened again
unfoldable pub open_elevation : Actor → ℕ → Db → Db
open_elevation actor now db = elim (elevation_of actor db) [
  | none ↦ record db { elevations = db.elevations ++ new_elevation actor now ∷ [] }
  | some row ↦ update_elevation row.session_id (opened now) db
]

module _ (crypto : Crypto) where
  unfoldable pub step_up_row : Actor → String → ℕ → StepUpDraw → AdminStepUpToken
  step_up_row actor purpose now draw = record {
    id = draw.token_id;
    session_id = actor.session_id;
    token_hash = (issue_credential crypto draw.raw).digest;
    purpose = purpose;
    issued_at = now;
    expires_at = step_up_deadline now;
    used_at = none;
    revoked_at = none;
  }

  unfoldable pub issue_step_up : Actor → String → ℕ → StepUpDraw → Exec Db ElevationResult
  issue_step_up actor purpose now draw db =
      if is_step_up_purpose purpose
      then (
        ok (record {
          elevation_expires_at = elevation_deadline now;
          step_up_token = some draw.raw;
          step_up_expires_at = some (step_up_deadline now);
          purpose = purpose;
        }),
        record db { step_ups = db.step_ups ++ step_up_row actor purpose now draw ∷ [] },
      )
      else (
        ok (record {
          elevation_expires_at = elevation_deadline now;
          step_up_token = none;
          step_up_expires_at = none;
          purpose = purpose;
        }),
        db,
      )

  unfoldable pub confirm_admin_pin :
      Actor → Text → String → ℕ → String → StepUpDraw → Exec Db ElevationResult
  unfolding open_elevation issue_step_up
  confirm_admin_pin actor pin purpose now request_id draw = do
    raise_if (not (is_confirmation_purpose purpose)) value_error
    access ← gets (session_by_id actor.session_id)
    account ← gets (account_by_id actor.account_id)
    staff ← gets (staff_by_id actor.staff_member_id)
    if is_confirmed crypto actor pin now access account staff
        then (do
          modify (open_elevation actor now)
          result ← issue_step_up actor purpose now draw
          append_audit (
              confirmation_event actor "auth.step_up_succeeded" "success" request_id
                (("purpose", word purpose) ∷ []))
          pure result)
        else (do
          append_audit (
              confirmation_event actor "auth.step_up_failed" "failed" request_id
                (("purpose", word purpose) ∷ ("reason", word "invalid_confirmation") ∷ []))
          raise step_up_required)

abbrev pub is_spendable : AdminStepUpToken → Actor → String → ℕ → Bool
is_spendable row actor purpose now =
    row.session_id == actor.session_id
    && str_eq row.purpose purpose
    && is_none row.used_at
    && is_none row.revoked_at
    && not (leb row.expires_at now)

abbrev pub spent : ℕ → AdminStepUpToken → AdminStepUpToken
spent now row = record row { used_at = some now }

abbrev pub by_token_hash : ℕ → Db → Option AdminStepUpToken
by_token_hash digest db = find (λ t. t.token_hash == digest) db.step_ups

-- `except ValueError: raise StepUpRequired`
abbrev pub digest_or_refuse : Result ℕ → Result ℕ
digest_or_refuse (ok digest) = ok digest
digest_or_refuse (raised _) = raised step_up_required

unfoldable pub consume_step_up : Crypto → Actor → Text → String → ℕ → Exec Db (Unit {0})
consume_step_up crypto actor raw_token purpose now = do
  digest ← lift (digest_or_refuse (hash_token crypto raw_token))
  row ← require (by_token_hash digest) step_up_required
  raise_if (not (is_spendable row actor purpose now)) step_up_required
  modify (λ db. record db { step_ups = update_where (λ t. t.id == row.id) (spent now) db.step_ups })
