-- ===== src/Tests/SignIn.antt =====
-- Runs of `verify_login_pin`.
use prison_policy_ai.Identity.Accounts.Login.{accept_login}
use prison_policy_ai.Identity.Accounts.Login.{check_attempt}
use prison_policy_ai.Identity.Normalization.{is_employee_char}
use prison_policy_ai.Prelude.{all}
use prison_policy_ai.Identity.Normalization.{is_space}
use prison_policy_ai.Prelude.{
  ◌≡◌, ◌⊎◌, refl, List, [], ◌∷◌, ◌++◌, none, some, codes, true, false, ◌&&◌, find, text_eq,
}
use prison_policy_ai.Fault.{invalid_credentials}
use prison_policy_ai.Identity.Normalization.{normalize_employee_number}
use prison_policy_ai.Identity.Pins.{verify_pin, normalize_pin}
use prison_policy_ai.Identity.Models.{Account, AuditEvent, Db, active, is_locked}
use prison_policy_ai.Identity.Accounts.Lockout.{reached}
use prison_policy_ai.Identity.Accounts.Login.{
  LoginInput, login_account, login_name, temporary_pin_expired, verify_login_pin,
}
use prison_policy_ai.Identity.Accounts.Login.Sound.{
  verify_login_pin_sound, verify_login_pin-refuses,
}
use prison_policy_ai.Tests.Samples.{crypto, db, account, member}

abbrev pub input : LoginInput
input = record {
  employee_number = codes "e100 ";
  pin = codes "k7q2";
  now = 7;
  request_id = "r";
  salt = [];
}

abbrev signed_in : Account
signed_in = record account { last_login_at = some 7 }

abbrev signed_in_db : Db
signed_in_db = (verify_login_pin crypto input db).1

verify_login_pin-sound_example :
    (stored : Account) × (login_account
        (login_name (normalize_employee_number input.employee_number))
        db
      ≡ some (stored, member))
    × (verify_pin crypto stored.pin_hash input.pin ≡ true)
    × (member.is_active ≡ true)
    × (temporary_pin_expired stored 7 ≡ false)
    × ((stored.status ≡ active) ⊎ (is_locked stored.status && reached stored.locked_until 7 ≡ true))
    × (signed_in.status ≡ active)
    × (signed_in.failed_attempts ≡ 0)
    × (signed_in.locked_until ≡ none)
unfolding verify_login_pin login_account find text_eq normalize_employee_number is_space all
    is_employee_char check_attempt verify_pin normalize_pin accept_login
verify_login_pin-sound_example =
    verify_login_pin_sound crypto input db signed_in member signed_in_db refl

abbrev pub wrong : LoginInput
wrong = record input { pin = codes "0000" }

abbrev refused_db : Db
refused_db = (verify_login_pin crypto wrong db).1

verify_login_pin-refuses_example :
    (invalid_credentials ≡ invalid_credentials)
    × ((event : AuditEvent) × (more : List AuditEvent) × (refused_db.audit
          ≡ db.audit ++ event ∷ more)
        × (event.action ≡ "auth.login_failed"))
    × (refused_db.sessions ≡ db.sessions)
unfolding verify_login_pin login_account find text_eq normalize_employee_number is_space all
    is_employee_char check_attempt verify_pin normalize_pin
verify_login_pin-refuses_example =
    verify_login_pin-refuses crypto wrong db invalid_credentials refused_db refl
