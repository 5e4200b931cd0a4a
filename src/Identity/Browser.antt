-- ===== src/Identity/Browser.antt =====
-- identity/browser_sessions.py: a session of a browser, and the CSRF value that it is bound to.
pub mod Csrf
use prison_policy_ai.Prelude.{
  ℕ, List, [], ◌∷◌, ◌++◌, Option, none, some, Bool, true, false, not, Text, ◌==◌, find,
  update_where, String,
}
use prison_policy_ai.Fault.{
  Result, ok, raised, Exec, pure, raise, raise_if, lift, gets, require, modify, csrf_invalid,
  browser_session_invalid, ◌>>=◌, ◌>>◌,
}
use prison_policy_ai.Identity.Crypto.{Crypto}
use prison_policy_ai.Identity.Normalization.{is_empty}
use prison_policy_ai.Identity.Tokens.{hash_token, issue_credential}
use prison_policy_ai.Identity.Models.{
  Role, Account, AccessSession, BrowserSessionBinding, Db, account_by_id, session_by_id,
  binding_by_id,
}
use prison_policy_ai.Identity.Accounts.Login.{LoginInput}
use prison_policy_ai.Identity.Sessions.Defs.{IdentitySettings, Draw, SessionTokenPair, Owner}
use prison_policy_ai.Identity.Sessions.Operations.{login, renew_session, resolve_access_session}

pub record BrowserActor : Type 0 where
  pub account_id : ℕ
  pub staff_member_id : ℕ
  pub session_id : ℕ
  pub role : Role
  pub auth_version : ℕ
  pub must_change_pin : Bool

pub record BrowserCookiePair : Type 0 where
  pub access_token : Text
  pub renewal_token : Text
  pub csrf_token : Text
  pub access_expires_at : ℕ
  pub renewal_expires_at : ℕ
  pub persistent : Bool

abbrev pub actor_of : AccessSession → Account → BrowserActor
actor_of stored account = record {
  account_id = account.id;
  staff_member_id = account.staff_member_id;
  session_id = stored.id;
  role = account.role;
  auth_version = account.auth_version;
  must_change_pin = account.must_change_pin;
}

abbrev pub cookies_of : SessionTokenPair → Text → BrowserCookiePair
cookies_of pair csrf_token = record {
  access_token = pair.access_token;
  renewal_token = pair.renewal_token;
  csrf_token = csrf_token;
  access_expires_at = pair.access_expires_at;
  renewal_expires_at = pair.renewal_expires_at;
  persistent = pair.persistent;
}

-- `_resolved`
unfoldable pub resolved : ℕ → Exec Db (AccessSession × Account)
resolved session_id = do
  stored ← require (session_by_id session_id) browser_session_invalid
  account ← require (account_by_id stored.account_id) browser_session_invalid
  pure (stored, account)

abbrev pub new_binding : ℕ → ℕ → ℕ → BrowserSessionBinding
new_binding session_id digest now = record {
  session_id = session_id;
  csrf_token_hash = digest;
  created_at = now;
  rotated_at = now;
}

-- `except ValueError: raise BrowserCsrfInvalid`
abbrev pub csrf_digest : Result ℕ → Result ℕ
csrf_digest (ok digest) = ok digest
csrf_digest (raised _) = raised csrf_invalid

abbrev pub rebound : ℕ → ℕ → BrowserSessionBinding → BrowserSessionBinding
rebound digest now row = record row { csrf_token_hash = digest; rotated_at = now }

abbrev pub update_binding : ℕ → (BrowserSessionBinding → BrowserSessionBinding) → Db → Db
update_binding i f db = record db { bindings = update_where (λ b. b.session_id == i) f db.bindings }

module _ (crypto : Crypto) where
  unfoldable pub validate_browser_csrf : BrowserActor → Text → Exec Db (Unit {0})
  validate_browser_csrf actor supplied_token = do
    raise_if (is_empty supplied_token) csrf_invalid
    binding ← require (binding_by_id actor.session_id) csrf_invalid
    supplied_hash ← lift (csrf_digest (hash_token crypto supplied_token))
    raise_if (not (binding.csrf_token_hash == supplied_hash)) csrf_invalid

  unfoldable pub resolve_browser_actor : Text → ℕ → Exec Db BrowserActor
  resolve_browser_actor access_token now = do
    (stored, (account, staff)) ← resolve_access_session crypto access_token now
    pure (actor_of stored account)

  module _ (settings : IdentitySettings) where
    -- `csrf` is the token that the call draws for the binding
    unfoldable pub create_browser_session :
        LoginInput → Text → Text → Bool → Draw → Text → Exec Db (BrowserActor × BrowserCookiePair)
    create_browser_session input device_id device_label persistent draw csrf = do
      pair ← login crypto settings input device_id device_label persistent draw
      (stored, account) ← resolved pair.session_id
      modify (λ db. record db {
        bindings =
            db.bindings
            ++ new_binding pair.session_id (issue_credential crypto csrf).digest input.now ∷ [];
      })
      pure (actor_of stored account, cookies_of pair csrf)

    unfoldable pub renew_browser_session :
        Text → Text → Text → ℕ → String → Draw → Text → Exec Db (BrowserActor × BrowserCookiePair)
    renew_browser_session renewal_token device_id csrf_token now request_id draw csrf = do
      pair ← renew_session crypto settings renewal_token device_id now request_id draw
      (stored, account) ← resolved pair.session_id
      validate_browser_csrf (actor_of stored account) csrf_token
      binding ← require (binding_by_id pair.session_id) browser_session_invalid
      modify (update_binding binding.session_id (rebound (issue_credential crypto csrf).digest now))
      pure (actor_of stored account, cookies_of pair csrf)
