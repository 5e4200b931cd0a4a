-- ===== src/Identity/Sessions/Operations.antt =====
-- identity/sessions.py: the operations on stored sessions.
use prison_policy_ai.Prelude.{
  ℕ, ◌+◌, List, [], ◌∷◌, ◌++◌, Option, none, some, Bool, not, ◌&&◌, ◌||◌, String, Text, leb, ◌==◌,
  update_where, is_none, is_some, or_else, length, select,
}
use prison_policy_ai.Fault.{
  Result, ok, raised, Exec, pure, raise, raise_if, lift, gets, require, modify,
  reauthentication_required, ◌>>=◌, ◌>>◌,
}
use prison_policy_ai.Identity.Crypto.{Crypto}
use prison_policy_ai.Identity.Tokens.{hash_token, hash_device_id}
use prison_policy_ai.Identity.Models.{
  Account, AccessSession, Db, AuditEvent, Detail, word, flag, number, account_by_id, session_by_id,
  update_account, update_session, append_audit,
}
use prison_policy_ai.Identity.Accounts.Login.{LoginInput, verify_login_pin}
use prison_policy_ai.Identity.Sessions.Defs.{
  IdentitySettings, Draw, SessionTokenPair, pair_of, Owner, owner_is_active, owner_by_id,
  by_renewal_hash, by_access_hash, by_history_hash, revoke, revoke_family, session_event, pepper_of,
  create_session, rotated, retired, is_stale,
}

abbrev pub note_reuse : ℕ → ℕ → Db → Db
note_reuse digest now db = record db {
  history =
      update_where (λ h. h.token_hash == digest)
        (λ h. record h { reuse_detected_at = some (or_else h.reuse_detected_at now) }) db.history;
}

abbrev audit_reuse : Option Owner → AccessSession → String → Exec Db (Unit {0})
audit_reuse none current request_id = pure tt
audit_reuse (some owner) current request_id = append_audit (
    session_event owner "auth.session_revoked" "failed" request_id current.id
      (("reason", word "renewal_reuse") ∷ []))

-- a token that is no current renewal token: one that a rotation has retired ends its whole family
unfoldable pub refuse_renewal : ℕ → ℕ → String → Exec Db SessionTokenPair
unfolding revoke_family
refuse_renewal digest now request_id = do
  history ← require (by_history_hash digest) reauthentication_required
  current ← require (session_by_id history.session_id) reauthentication_required
  owner ← gets (owner_by_id current.account_id)
  modify (note_reuse digest now)
  revoke_family current now "renewal_reuse"
  audit_reuse owner current request_id
  raise reauthentication_required

abbrev session_row : AccessSession → Option Owner → Result (AccessSession × Owner)
session_row stored none = raised reauthentication_required
session_row stored (some owner) = ok (stored, owner)

-- a session may be resolved by its access token
unfoldable pub is_usable : AccessSession → Owner → ℕ → Bool
is_usable stored owner now =
    is_none stored.revoked_at
    && not (leb stored.access_expires_at now)
    && stored.auth_version == (owner.0).auth_version
    && owner_is_active owner

module _ (crypto : Crypto) where
  unfoldable pub resolve_access_session : Text → ℕ → Exec Db (AccessSession × Owner)
  resolve_access_session access_token now = do
    digest ← lift (hash_token crypto access_token)
    stored ← require (by_access_hash digest) reauthentication_required
    owner ← require (owner_by_id stored.account_id) reauthentication_required
    raise_if
        (is_some stored.revoked_at
          || leb stored.access_expires_at now
          || not (stored.auth_version == (owner.0).auth_version))
        reauthentication_required
    raise_if (not (owner_is_active owner)) reauthentication_required
    pure (stored, owner)

module _ (crypto : Crypto) (settings : IdentitySettings) where
  unfoldable pub rotate_session :
      AccessSession → Text → ℕ → String → Draw → Exec Db SessionTokenPair
  unfolding is_stale
  rotate_session current device_id now request_id draw = do
    owner ← require (owner_by_id current.account_id) reauthentication_required
    device_hash ← lift (hash_device_id crypto device_id (pepper_of settings))
    raise_if (is_stale current now device_hash owner.0) reauthentication_required
    raise_if (not (owner_is_active owner)) reauthentication_required
    let next = rotated crypto settings current.auth_version now draw
    modify (λ db. record db { history = db.history ++ retired current now ∷ [] })
    modify (update_session current.id next)
    append_audit (
        session_event owner "auth.session_renewed" "success" request_id current.id
          (("persistent", flag current.persistent) ∷ []))
    pure (pair_of (next current) owner draw.access draw.renewal)

  abbrev renew_found :
      ℕ → Text → ℕ → String → Draw → Option AccessSession → Exec Db SessionTokenPair
  renew_found digest device_id now request_id draw none = refuse_renewal digest now request_id
  renew_found digest device_id now request_id draw (some current) =
      rotate_session current device_id now request_id draw

  unfoldable pub renew_session : Text → Text → ℕ → String → Draw → Exec Db SessionTokenPair
  renew_session supplied_renewal_token device_id now request_id draw = do
    digest ← lift (hash_token crypto supplied_renewal_token)
    current ← gets (by_renewal_hash digest)
    renew_found digest device_id now request_id draw current

  unfoldable pub login : LoginInput → Text → Text → Bool → Draw → Exec Db SessionTokenPair
  login input device_id device_label persistent draw = do
    owner ← verify_login_pin crypto input
    pair ← create_session crypto settings owner device_id device_label persistent input.now draw
    append_audit (
        session_event owner "auth.login_succeeded" "success" input.request_id pair.session_id
          (("persistent", flag persistent) ∷ []))
    pure pair

unfoldable pub revoke_session : ℕ → ℕ → ℕ → String → Exec Db ℕ
unfolding revoke_family
revoke_session actor_account_id target_session_id now request_id = do
  target ← require (session_by_id target_session_id) reauthentication_required
  raise_if (not (target.account_id == actor_account_id)) reauthentication_required
  owner ← require (owner_by_id target.account_id) reauthentication_required
  count ← revoke_family target now "user_revoked"
  append_audit (
      session_event owner "auth.session_revoked" "success" request_id target.id
        (("reason", word "user_revoked") ∷ []))
  pure count

unfoldable pub account_event : Account → String → String → List (String × Detail) → AuditEvent
account_event account action request_id details = record {
  actor_account_id = some account.id;
  actor_staff_member_id = some account.staff_member_id;
  action = action;
  result = "success";
  request_id = request_id;
  target_type = "account";
  target_id = some account.id;
  details = details;
}

-- the sessions of an account that are not revoked
abbrev pub live_of : ℕ → AccessSession → Bool
live_of account_id row = row.account_id == account_id && is_none row.revoked_at

abbrev pub next_version : Account → Account
next_version account = record account { auth_version = account.auth_version + 1 }

unfoldable pub logout_all : ℕ → ℕ → String → Exec Db ℕ
logout_all account_id now request_id = do
  account ← require (account_by_id account_id) reauthentication_required
  rows ← gets (λ db. select (live_of account_id) db.sessions)
  modify (update_account account_id next_version)
  modify (λ db. record db {
    sessions = update_where (live_of account_id) (revoke now "logout_all") db.sessions;
  })
  append_audit (
      account_event account "auth.logout_all" request_id
        (("session_count", number (length rows)) ∷ []))
  pure (length rows)
