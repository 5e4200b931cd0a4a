-- ===== src/Identity/Sessions/PinChange.antt =====
-- identity/sessions.py: `change_pin` and `list_sessions`.
use prison_policy_ai.Prelude.{
  ℕ, ◌+◌, List, [], ◌∷◌, ◌++◌, Option, none, some, Bool, false, not, ◌&&◌, ◌||◌, String, Text, ltb,
  leb, ◌==◌, find, map, update_where, if◌then◌else◌, is_none, select,
}
use prison_policy_ai.Fault.{
  Result, ok, raised, Exec, pure, raise_if, lift, gets, require, modify, reauthentication_required,
  attribute_error, invalid_credentials, ◌>>=◌, ◌>>◌,
}
use prison_policy_ai.Identity.Crypto.{Crypto}
use prison_policy_ai.Identity.Pins.{hash_pin, verify_pin, validate_new_pin}
use prison_policy_ai.Identity.Tokens.{hash_device_id}
use prison_policy_ai.Identity.Models.{
  StaffMember, Account, AccessSession, Db, is_active, staff_by_id, account_by_id, append_audit,
}
use prison_policy_ai.Identity.Sessions.Defs.{
  IdentitySettings, Draw, SessionTokenPair, pair_of, Owner, owner_is_active, revoke, pepper_of,
  rotated, retired, is_stale,
}
use prison_policy_ai.Identity.Sessions.Operations.{account_event}

abbrev pub own_session : ℕ → ℕ → Db → Option AccessSession
own_session session_id account_id db =
    find (λ s. s.id == session_id && s.account_id == account_id) db.sessions

-- `_require_active`, where the account may have lost its staff member
abbrev pub active_owner : Account → Option StaffMember → Result Owner
active_owner account none =
    if is_active account.status then raised attribute_error else raised reauthentication_required
active_owner account (some staff) =
    if owner_is_active (account, staff)
    then ok (account, staff)
    else raised reauthentication_required

-- the account with its new PIN
abbrev pub with_new_pin : Text → Account → Account
with_new_pin pin_hash account = record account {
  pin_hash = pin_hash;
  must_change_pin = false;
  temporary_pin_expires_at = none;
  auth_version = account.auth_version + 1;
}

-- the other sessions of the account that are not revoked
abbrev pub other_live : ℕ → ℕ → AccessSession → Bool
other_live account_id current_id row =
    row.account_id == account_id && not (row.id == current_id) && is_none row.revoked_at

pub record PinChange : Type 0 where
  pub account_id : ℕ
  pub current_session_id : ℕ
  pub current_pin : Text
  pub new_pin : Text
  pub device_id : Text
  pub now : ℕ
  pub request_id : String
  -- what the hasher draws
  pub salt : Text

-- the writes of `change_pin`, once every check has passed
unfoldable pub replace_pin :
    Crypto → IdentitySettings → PinChange → Draw → AccessSession → Account → Text → Db → Db
replace_pin crypto settings input draw current account pin_hash db =
    let next : Account = with_new_pin pin_hash account in
    record db {
      accounts = update_where (λ a. a.id == account.id) (with_new_pin pin_hash) db.accounts;
      sessions =
          update_where (λ s. s.id == current.id)
            (rotated crypto settings next.auth_version input.now draw)
            (update_where (other_live input.account_id current.id) (revoke input.now "pin_changed")
              db.sessions);
      history = db.history ++ retired current input.now ∷ [];
    }

module _ (crypto : Crypto) (settings : IdentitySettings) (input : PinChange) (draw : Draw) where
  -- the checks, up to the hash of the new PIN
  unfoldable pub check_pin_change : AccessSession → Account → Exec Db (Owner × Text)
  unfolding is_stale
  check_pin_change current account = do
    staff ← gets (staff_by_id account.staff_member_id)
    device_hash ← lift (hash_device_id crypto input.device_id (pepper_of settings))
    raise_if (is_stale current input.now device_hash account) reauthentication_required
    owner ← lift (active_owner account staff)
    raise_if (not (verify_pin crypto account.pin_hash input.current_pin)) invalid_credentials
    normalized ← lift (validate_new_pin input.new_pin (owner.1).employee_number)
    pin_hash ← lift (hash_pin crypto input.salt normalized)
    pure (owner, pin_hash)

  unfoldable pub change_pin : Exec Db SessionTokenPair
  change_pin = do
    current ←
        require (own_session input.current_session_id input.account_id) reauthentication_required
    account ← require (account_by_id input.account_id) reauthentication_required
    checked ← check_pin_change current account
    let next : Account = with_new_pin checked.1 account
    modify (replace_pin crypto settings input draw current account checked.1)
    append_audit (account_event account "auth.pin_changed" input.request_id [])
    pure (
        pair_of (rotated crypto settings next.auth_version input.now draw current)
          (next, (checked.0).1) draw.access draw.renewal)

pub record SessionSummary : Type 0 where
  pub session_id : ℕ
  pub device_label : Text
  pub persistent : Bool
  pub created_at : ℕ
  pub last_used_at : ℕ
  pub renewal_expires_at : ℕ
  pub current : Bool

-- ORDER BY created_at DESC, id
abbrev pub newer : AccessSession → AccessSession → Bool
newer a b = ltb b.created_at a.created_at || (b.created_at == a.created_at && leb a.id b.id)

unfoldable pub insert_newest : AccessSession → List AccessSession → List AccessSession
insert_newest row [] = row ∷ []
insert_newest row (r ∷ rows) =
    let rest = insert_newest row rows in if newer row r then row ∷ r ∷ rows else r ∷ rest

unfoldable pub newest_first : List AccessSession → List AccessSession
unfolding insert_newest
newest_first [] = []
newest_first (row ∷ rows) = insert_newest row (newest_first rows)

unfoldable pub summary_of : ℕ → AccessSession → SessionSummary
summary_of current_session_id row = record {
  session_id = row.id;
  device_label = row.device_label;
  persistent = row.persistent;
  created_at = row.created_at;
  last_used_at = row.last_used_at;
  renewal_expires_at = row.renewal_expires_at;
  current = row.id == current_session_id;
}

unfoldable pub list_sessions : ℕ → ℕ → Db → List SessionSummary
unfolding newest_first summary_of
list_sessions account_id current_session_id db = map (summary_of current_session_id) (
    select (λ row. is_none row.revoked_at)
      (newest_first (select (λ row. row.account_id == account_id) db.sessions)))
