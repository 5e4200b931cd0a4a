-- ===== src/Web/Auth.antt =====
-- webapp/api_v1/auth.py and webapp/web_api/auth.py: the transactions of the routes that sign in and
-- renew. A route's request arrives here as checked fields.
pub mod Rollback
pub mod Commit
use prison_policy_ai.Prelude.{
  ℕ, List, [], ◌∷◌, Option, none, some, Bool, true, false, not, ◌&&◌, ◌||◌, Text, String, codes,
  text_eq, max, find, if◌then◌else◌,
}
use prison_policy_ai.Fault.{
  Fault, Result, ok, raised, Exec, pure, raise, raise_if, lift, gets, require, modify,
  is_value_error, value_error, runtime_error, type_error, invalid_credentials,
  reauthentication_required, csrf_invalid, browser_session_invalid, rate_limited, ◌>>=◌, ◌>>◌,
}
use prison_policy_ai.Identity.Crypto.{Crypto}
use prison_policy_ai.Identity.Normalization.{is_empty, normalize_employee_number}
use prison_policy_ai.Identity.Models.{StaffMember, Account, Db, account_by_id, staff_by_id}
use prison_policy_ai.Identity.Accounts.Login.{LoginInput}
use prison_policy_ai.Identity.Sessions.Defs.{IdentitySettings, Draw, SessionTokenPair, pepper_of}
use prison_policy_ai.Identity.Sessions.Operations.{login, renew_session}
use prison_policy_ai.Identity.RateLimits.{RateLimitDecision, consume_limit}
use prison_policy_ai.Identity.Browser.{
  BrowserActor, BrowserCookiePair, create_browser_session, renew_browser_session,
}

-- `session_scope`: commit at the end of the block, roll back where an exception leaves it
unfoldable pub session_scope : {A : Type 0} → Exec Db A → Exec Db A
session_scope body db =
    let (r, after) = body db in elim r [ ok a ↦ (ok a, after) | raised f ↦ (raised f, db) ]

-- the end of `try: … except error: pending_error = error` inside a scope, and the raise after it
abbrev pub pend : {A : Type 0} → (Fault → Bool) → Fault → Db → Result (Result A) × Db
pend is_pending f db = if is_pending f then (ok (raised f), db) else (raised f, db)

unfoldable pub caught : {A : Type 0} → (Fault → Bool) → Exec Db A → Exec Db (Result A)
caught is_pending body db =
    let (r, after) = body db in
    elim r [ ok a ↦ (ok (ok a), after) | raised f ↦ pend is_pending f after ]

-- one sign-in request; `network` is the caller's address as the proxy headers give it
pub record SignIn : Type 0 where
  pub input : LoginInput
  pub device_id : Text
  pub device_label : Text
  pub persistent : Bool
  pub network : Text
  pub draw : Draw
  pub csrf : Text

abbrev pub limited_name : Result Text → Text
limited_name (ok n) = n
limited_name (raised _) = codes "invalid"

abbrev pub is_pending_login : Fault → Bool
is_pending_login invalid_credentials = true
is_pending_login rate_limited = true
is_pending_login _ = false

abbrev pub is_pending_renewal : Fault → Bool
is_pending_renewal reauthentication_required = true
is_pending_renewal _ = false

-- `_profile` reads the two rows again
unfoldable pub browser_profile : BrowserActor → Exec Db (Account × StaffMember)
browser_profile actor = do
  account ← require (account_by_id actor.account_id) browser_session_invalid
  staff ← require (staff_by_id actor.staff_member_id) browser_session_invalid
  pure (account, staff)

module _ (crypto : Crypto) (settings : IdentitySettings) (limits_enabled : Bool) where
  -- `_consume_login_limits`, where the limits are enabled
  unfoldable pub consume_login_limits : SignIn → Exec Db (Unit {0})
  consume_login_limits s = do
    let now = (s.input).now
    let name = limited_name (normalize_employee_number (s.input).employee_number)
    employee ← consume_limit crypto "employee" name now (pepper_of settings) none
    device ← consume_limit crypto "device" s.device_id now (pepper_of settings) none
    network ← consume_limit crypto "network" s.network now (pepper_of settings) none
    raise_if (not (employee.allowed && device.allowed && network.allowed)) rate_limited

  unfoldable pub login_limits : SignIn → Exec Db (Unit {0})
  login_limits s = if limits_enabled then consume_login_limits s else pure tt

  -- the block of api_v1's `login_route`
  unfoldable pub api_login_body : SignIn → Exec Db SessionTokenPair
  api_login_body s = do
    login_limits s
    login crypto settings s.input s.device_id s.device_label s.persistent s.draw

  unfoldable pub api_login : SignIn → Exec Db SessionTokenPair
  api_login s = do pair ← session_scope (caught is_pending_login (api_login_body s)); lift pair

  -- the block of web_api's `login_route`
  unfoldable pub web_login_body : SignIn → Exec Db (BrowserActor × BrowserCookiePair)
  web_login_body s = do
    login_limits s
    (actor, cookies) ←
        create_browser_session crypto settings s.input s.device_id s.device_label s.persistent
          s.draw s.csrf
    profile ← browser_profile actor
    pure (actor, cookies)

  unfoldable pub web_login : SignIn → Exec Db (BrowserActor × BrowserCookiePair)
  web_login s = session_scope (web_login_body s)

module _ (crypto : Crypto) (settings : IdentitySettings) where
  -- api_v1's `renew_route`
  unfoldable pub api_renew : Text → Text → ℕ → String → Draw → Exec Db SessionTokenPair
  api_renew renewal_token device_id now request_id draw = do
    pair ← session_scope (
        caught is_pending_renewal
          (renew_session crypto settings renewal_token device_id now request_id draw))
    lift pair

  -- one renewal request of a browser: the header and the cookies
  unfoldable pub web_renew_body :
      Text → Text → Text → ℕ → String → Draw → Text → Exec Db (BrowserActor × BrowserCookiePair)
  web_renew_body renewal_token device_id header now request_id draw csrf = do
    (actor, cookies) ←
        renew_browser_session crypto settings renewal_token device_id header now request_id draw
          csrf
    profile ← browser_profile actor
    pure (actor, cookies)

  -- web_api's `renew_route`. Its SessionReauthenticationRequired for absent cookies is given an argument
  -- that the class does not take, which raises a TypeError instead.
  unfoldable pub web_renew :
      Text
      → Text
      → Text
      → Text
      → ℕ
      → String
      → Draw
      → Text
      → Exec Db (BrowserActor × BrowserCookiePair)
  web_renew header cookie renewal_token device_id now request_id draw csrf = do
    raise_if (is_empty header || is_empty cookie || not (text_eq header cookie)) csrf_invalid
    raise_if (is_empty renewal_token || is_empty device_id) type_error
    session_scope (web_renew_body renewal_token device_id header now request_id draw csrf)

-- the `except` clauses of web_api's routes: the status that each answers with; the rest goes to the
-- error handlers of the blueprint
unfoldable pub web_login_status : Fault → Option ℕ
web_login_status csrf_invalid = some 403
web_login_status invalid_credentials = some 401
web_login_status browser_session_invalid = some 503
web_login_status runtime_error = some 503
web_login_status f = if is_value_error f then some 400 else none

unfoldable pub web_renew_status : Fault → Option ℕ
web_renew_status csrf_invalid = some 403
web_renew_status reauthentication_required = some 401
web_renew_status browser_session_invalid = some 503
web_renew_status runtime_error = some 503
web_renew_status _ = none
