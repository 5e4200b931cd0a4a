-- ===== src/Tests/Web.antt =====
-- Runs of the browser sessions and of the sign-in routes.
use prison_policy_ai.Identity.Sessions.Defs.{pair_of}
use prison_policy_ai.Identity.Sessions.Defs.{rotated}
use prison_policy_ai.Web.Auth.{
  session_scope, web_login_body, login_limits, consume_login_limits, browser_profile,
}
use prison_policy_ai.Identity.RateLimits.{
  consume_limit, maximum_of, limit_of, subject_hash, upsert, decide, hit,
}
use prison_policy_ai.Identity.Normalization.{
  normalize_employee_number, is_space, is_employee_char, join_words, lstrip, normalize_device_label,
  rstrip, rstrip_cons, split_from, strip, take, upper, upper_char,
}
use prison_policy_ai.Identity.Browser.{create_browser_session}
use prison_policy_ai.Identity.Accounts.Lockout.{
  expire_lock, lock_minutes, record_failed_attempt, reset_failed_attempts,
}
use prison_policy_ai.Identity.Accounts.Login.{
  accept_login, attempt_login, audit_failure, audit_lock, check_attempt, finish, login_account,
  refuse_pin, verify_login_pin,
}
use prison_policy_ai.Identity.Pins.{is_alphanumeric, normalize_pin, verify_pin}
use prison_policy_ai.Identity.Sessions.Defs.{create_session, new_session, profile_of, session_event}
use prison_policy_ai.Identity.Sessions.Operations.{login}
use prison_policy_ai.Prelude.{select, text_eq}
use prison_policy_ai.Prelude.{update_where}
use prison_policy_ai.Identity.Browser.{resolved}
use prison_policy_ai.Prelude.{all}
use prison_policy_ai.Identity.Tokens.{is_device_id}
use prison_policy_ai.Identity.Tokens.{hash_device_id}
use prison_policy_ai.Identity.Sessions.Defs.{owner_by_id}
use prison_policy_ai.Identity.Sessions.Operations.{rotate_session}
use prison_policy_ai.Prelude.{find}
use prison_policy_ai.Identity.Tokens.{hash_token}
use prison_policy_ai.Prelude.{◌+◌, ◌≡◌, ◌≢◌, refl, [], ◌∷◌, none, Text, codes, true, false, seconds}
use prison_policy_ai.Fault.{
  Fault, ok, raised, invalid_credentials, reauthentication_required, rate_limited, csrf_invalid,
  type_error,
}
use prison_policy_ai.Identity.Models.{Role, Db}
use prison_policy_ai.Identity.Sessions.Defs.{SessionTokenPair}
use prison_policy_ai.Identity.Sessions.Operations.{renew_session}
use prison_policy_ai.Identity.Browser.{
  BrowserActor, BrowserCookiePair, renew_browser_session, validate_browser_csrf,
}
use prison_policy_ai.Identity.Browser.Csrf.{renew_browser_session_rotates}
use prison_policy_ai.Web.Auth.{
  SignIn, api_login, api_login_body, api_renew, web_login, web_renew, web_renew_status,
  is_pending_login, is_pending_renewal,
}
use prison_policy_ai.Web.Auth.Rollback.{web_logins, web_login-forgets, web_renew-forgets}
use prison_policy_ai.Web.Auth.Commit.{api-commits}
use prison_policy_ai.Tests.Samples.{crypto, settings, db, draw, device}
use prison_policy_ai.Tests.SignIn.{wrong}

abbrev csrf : Text
csrf = codes "csrf0"

abbrev bound_db : Db
bound_db = record db {
  bindings =
      record {
        session_id = 100;
        csrf_token_hash = crypto.sha256 csrf;
        created_at = 0;
        rotated_at = 0;
      }
      ∷ [];
}

abbrev new_csrf : Text
new_csrf = codes "csrf1"

abbrev renewed_db : Db
renewed_db =
    (renew_browser_session crypto settings (codes "renew0") device csrf 7 "r" draw new_csrf
      bound_db).1

abbrev actor : BrowserActor
actor = record {
  account_id = 10;
  staff_member_id = 1;
  session_id = 100;
  role = Role.admin;
  auth_version = 1;
  must_change_pin = false;
}

abbrev cookies : BrowserCookiePair
cookies = record {
  access_token = codes "access1";
  renewal_token = codes "renew1";
  csrf_token = new_csrf;
  access_expires_at = 7 + seconds 900;
  renewal_expires_at = seconds 43200;
  persistent = false;
}

renew_browser_session_rotates_example :
    (validate_browser_csrf crypto actor csrf bound_db ≡ (ok tt, bound_db))
    × (new_csrf ≡ new_csrf)
    × (validate_browser_csrf crypto actor new_csrf renewed_db ≡ (ok tt, renewed_db))
    × ((token : Text)
        → crypto.sha256 token ≢ crypto.sha256 new_csrf
        → validate_browser_csrf crypto actor token renewed_db ≡ (raised csrf_invalid, renewed_db))
unfolding renew_browser_session renew_session hash_token find rotate_session owner_by_id
    hash_device_id is_device_id all resolved update_where rotated pair_of validate_browser_csrf
renew_browser_session_rotates_example =
    renew_browser_session_rotates crypto settings (codes "renew0") device csrf 7 "r" draw new_csrf
      bound_db renewed_db actor cookies (λ e. cc) refl

abbrev attempt : SignIn
attempt = record {
  input = wrong;
  device_id = device;
  device_label = codes "phone";
  persistent = false;
  network = codes "10.0.0.1";
  draw = draw;
  csrf = csrf;
}

is_refused : (web_login crypto settings true attempt db).0 ≡ raised invalid_credentials
unfolding web_login session_scope web_login_body login_limits consume_login_limits consume_limit
    maximum_of limit_of subject_hash normalize_employee_number is_space all is_employee_char upsert
    find decide create_browser_session expire_lock lock_minutes record_failed_attempt
    reset_failed_attempts accept_login attempt_login audit_failure audit_lock check_attempt finish
    login_account refuse_pin verify_login_pin resolved join_words lstrip normalize_device_label
    rstrip rstrip_cons split_from strip take upper upper_char is_alphanumeric normalize_pin
    verify_pin hit create_session new_session pair_of profile_of session_event login hash_device_id
    is_device_id select update_where text_eq browser_profile
is_refused = refl

-- two wrong PINs
web_login-forgets_example :
    (web_logins crypto settings true (attempt ∷ attempt ∷ []) db ≡ db)
    × ((s : SignIn)
        → web_login crypto settings true s
            (web_logins crypto settings true (attempt ∷ attempt ∷ []) db)
          ≡ web_login crypto settings true s db)
web_login-forgets_example =
    web_login-forgets crypto settings true (attempt ∷ attempt ∷ []) db
      ((invalid_credentials, is_refused), ((invalid_credentials, is_refused), tt))

web_renew-forgets_example :
    ((f : Fault)
      → (web_renew crypto settings csrf csrf (codes "other") device 7 "r" draw new_csrf bound_db).0
        ≡ raised f
      → (web_renew crypto settings csrf csrf (codes "other") device 7 "r" draw new_csrf bound_db).1
        ≡ bound_db)
    × (csrf ≢ []
        → (web_renew crypto settings csrf csrf [] device 7 "r" draw new_csrf bound_db).0
          ≡ raised type_error)
    × (web_renew_status type_error ≡ none)
web_renew-forgets_example =
    web_renew-forgets crypto settings csrf csrf (codes "other") device 7 "r" draw new_csrf bound_db

api-commits_example :
    let body = api_login_body crypto settings true attempt db in
    let sign_in = api_login crypto settings true attempt db in
    let inner = renew_session crypto settings (codes "renew0") device 7 "r" draw db in
    let outer = api_renew crypto settings (codes "renew0") device 7 "r" draw db in
    ((sign_in.0 ≡ body.0)
      × ((pair : SessionTokenPair) → body.0 ≡ ok pair → sign_in.1 ≡ body.1)
      × (body.0 ≡ raised invalid_credentials → sign_in.1 ≡ body.1)
      × (body.0 ≡ raised rate_limited → sign_in.1 ≡ body.1)
      × ((f : Fault) → body.0 ≡ raised f → is_pending_login f ≡ false → sign_in.1 ≡ db))
    × (outer.0 ≡ inner.0)
    × ((pair : SessionTokenPair) → inner.0 ≡ ok pair → outer.1 ≡ inner.1)
    × (inner.0 ≡ raised reauthentication_required → outer.1 ≡ inner.1)
    × ((f : Fault) → inner.0 ≡ raised f → is_pending_renewal f ≡ false → outer.1 ≡ db)
api-commits_example = api-commits crypto settings true attempt (codes "renew0") device 7 "r" draw db
