-- ===== src/Identity/Models.antt =====
-- persistence/models: the rows of the identity tables, and the database that the services share.
-- A UUID is a number; the CHECK constraints of a column with few values are data types.
use prison_policy_ai.Prelude.{
  ℕ, Bool, true, false, List, [], ◌++◌, ◌∷◌, Option, Text, String, ◌==◌, find, update_where,
}
use prison_policy_ai.Fault.{Exec, modify}

pub data Role : Type 0 where
  user admin : Role

pub data Status : Type 0 where
  active locked deactivated : Status

abbrev pub is_admin : Role → Bool
is_admin admin = true
is_admin user = false

abbrev pub is_active : Status → Bool
is_active active = true
is_active locked = false
is_active deactivated = false

abbrev pub is_locked : Status → Bool
is_locked active = false
is_locked locked = true
is_locked deactivated = false

pub record StaffMember : Type 0 where
  pub id : ℕ
  pub employee_number : Text
  pub rank : Text
  pub first_name : Text
  pub last_name : Text
  pub shift : Text
  pub is_active : Bool
  pub created_at : ℕ
  pub updated_at : ℕ

pub record Account : Type 0 where
  pub id : ℕ
  pub staff_member_id : ℕ
  pub role : Role
  pub status : Status
  pub pin_hash : Text
  pub must_change_pin : Bool
  pub temporary_pin_expires_at : Option ℕ
  pub failed_attempts : ℕ
  pub lock_cycle : ℕ
  pub locked_until : Option ℕ
  pub auth_version : ℕ
  pub last_login_at : Option ℕ
  pub updated_at : ℕ
  pub deactivated_at : Option ℕ

pub record AccessSession : Type 0 where
  pub id : ℕ
  pub account_id : ℕ
  pub auth_version : ℕ
  pub access_token_hash : ℕ
  pub access_expires_at : ℕ
  pub renewal_token_hash : ℕ
  pub renewal_expires_at : ℕ
  pub renewal_family_id : ℕ
  pub device_id_hash : ℕ
  pub device_label : Text
  pub persistent : Bool
  pub last_used_at : ℕ
  pub created_at : ℕ
  pub revoked_at : Option ℕ
  pub revoke_reason : Option String

pub record RenewalTokenHistory : Type 0 where
  pub session_id : ℕ
  pub renewal_family_id : ℕ
  pub token_hash : ℕ
  pub rotated_at : ℕ
  pub expires_at : ℕ
  pub reuse_detected_at : Option ℕ

pub record AdminElevation : Type 0 where
  pub session_id : ℕ
  pub issued_at : ℕ
  pub last_used_at : ℕ
  pub idle_expires_at : ℕ
  pub revoked_at : Option ℕ

pub record AdminStepUpToken : Type 0 where
  pub id : ℕ
  pub session_id : ℕ
  pub token_hash : ℕ
  pub purpose : String
  pub issued_at : ℕ
  pub expires_at : ℕ
  pub used_at : Option ℕ
  pub revoked_at : Option ℕ

pub record AuthRateLimit : Type 0 where
  pub dimension : String
  pub subject_hash : ℕ
  pub window_started_at : ℕ
  pub hit_count : ℕ
  pub updated_at : ℕ

pub record BrowserSessionBinding : Type 0 where
  pub session_id : ℕ
  pub csrf_token_hash : ℕ
  pub created_at : ℕ
  pub rotated_at : ℕ

-- a value of an audit event's `details`: `str(uuid)`, another string, a number, a Boolean, names, and
-- texts that are computed
pub data Detail : Type 0 where
  ident : ℕ → Detail
  word : String → Detail
  text : Text → Detail
  number : ℕ → Detail
  flag : Bool → Detail
  names : List String → Detail
  texts : List Text → Detail

pub record AuditEvent : Type 0 where
  pub actor_account_id : Option ℕ
  pub actor_staff_member_id : Option ℕ
  pub action : String
  pub result : String
  pub request_id : String
  pub target_type : String
  pub target_id : Option ℕ
  pub details : List (String × Detail)

pub record Db : Type 0 where
  pub staff : List StaffMember
  pub accounts : List Account
  pub sessions : List AccessSession
  pub history : List RenewalTokenHistory
  pub elevations : List AdminElevation
  pub step_ups : List AdminStepUpToken
  pub rate_limits : List AuthRateLimit
  pub bindings : List BrowserSessionBinding
  pub audit : List AuditEvent
  -- the ids of the session rows that other transactions hold locked
  pub held_sessions : List ℕ

abbrev pub staff_by_id : ℕ → Db → Option StaffMember
staff_by_id i db = find (λ s. s.id == i) db.staff

abbrev pub account_by_id : ℕ → Db → Option Account
account_by_id i db = find (λ a. a.id == i) db.accounts

abbrev pub session_by_id : ℕ → Db → Option AccessSession
session_by_id i db = find (λ s. s.id == i) db.sessions

abbrev pub binding_by_id : ℕ → Db → Option BrowserSessionBinding
binding_by_id i db = find (λ b. b.session_id == i) db.bindings

-- an assignment to the attributes of a loaded row, which the session writes back by its key
abbrev pub update_account : ℕ → (Account → Account) → Db → Db
update_account i f db = record db { accounts = update_where (λ a. a.id == i) f db.accounts }

abbrev pub update_session : ℕ → (AccessSession → AccessSession) → Db → Db
update_session i f db = record db { sessions = update_where (λ s. s.id == i) f db.sessions }

-- AuditWriter.append: one more event in the caller's transaction
abbrev pub append_audit : AuditEvent → Exec Db (Unit {0})
append_audit event = modify (λ db. record db { audit = db.audit ++ event ∷ [] })
