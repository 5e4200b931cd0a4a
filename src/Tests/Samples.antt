-- ===== src/Tests/Samples.antt =====
-- A concrete stand-in for the digests, and a small database.
use prison_policy_ai.Prelude.{
  ℕ, ◌+◌, ◌*◌, true, false, [], ◌∷◌, none, some, Text, codes, text_eq, text_eq_refl, seconds,
}
use prison_policy_ai.Identity.Crypto.{Crypto, Verifies}
use prison_policy_ai.Identity.Models.{Role, Status, StaffMember, Account, AccessSession, Db}
use prison_policy_ai.Identity.Sessions.Defs.{IdentitySettings, Draw}

-- one number for each text: the digits to the base 2 ^ 21
abbrev pub spell : Text → ℕ
spell [] = 0
spell (c ∷ s) = c + 1 + 2097152 * spell s

abbrev pub crypto : Crypto
crypto = record {
  sha256 = spell;
  hmac_sha256 = λ key message. spell key + spell message;
  argon_hash = λ salt pin. pin;
  argon_verify = text_eq;
  argon_needs_rehash = λ encoded. false;
}

pub crypto-Verifies : Verifies crypto
crypto-Verifies salt pin = text_eq_refl pin

abbrev pub settings : IdentitySettings
settings = record {
  identity_hash_pepper = some (codes "pepper");
  access_ttl_seconds = 900;
  nonpersistent_renewal_ttl_seconds = 43200;
  persistent_renewal_ttl_seconds = 2592000;
}

abbrev pub device : Text
device = codes "device-0123456789"

abbrev pub member : StaffMember
member = record {
  id = 1;
  employee_number = codes "E100";
  rank = codes "Sgt";
  first_name = codes "Pat";
  last_name = codes "Doe";
  shift = codes "A";
  is_active = true;
  created_at = 0;
  updated_at = 0;
}

abbrev pub account : Account
account = record {
  id = 10;
  staff_member_id = 1;
  role = Role.admin;
  status = Status.active;
  pin_hash = codes "K7Q2";
  must_change_pin = false;
  temporary_pin_expires_at = none;
  failed_attempts = 0;
  lock_cycle = 0;
  locked_until = none;
  auth_version = 1;
  last_login_at = none;
  updated_at = 0;
  deactivated_at = none;
}

abbrev pub session : AccessSession
session = record {
  id = 100;
  account_id = 10;
  auth_version = 1;
  access_token_hash = spell (codes "access0");
  access_expires_at = seconds 900;
  renewal_token_hash = spell (codes "renew0");
  renewal_expires_at = seconds 43200;
  renewal_family_id = 500;
  device_id_hash = spell (codes "pepper") + spell device;
  device_label = codes "phone";
  persistent = false;
  last_used_at = 0;
  created_at = 0;
  revoked_at = none;
  revoke_reason = none;
}

abbrev pub db : Db
db = record {
  staff = member ∷ [];
  accounts = account ∷ [];
  sessions = session ∷ [];
  history = [];
  elevations = [];
  step_ups = [];
  rate_limits = [];
  bindings = [];
  held_sessions = [];
  audit = [];
}

abbrev pub draw : Draw
draw = record {
  access = codes "access1";
  renewal = codes "renew1";
  session_id = 101;
  family_id = 501;
}
