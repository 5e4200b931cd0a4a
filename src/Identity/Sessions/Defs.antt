-- ===== src/Identity/Sessions/Defs.antt =====
-- identity/sessions.py: what the operations share, and `create_session`, `renew_session` and
-- `resolve_access_session`.
use prison_policy_ai.Prelude.{
  ℕ, ◌+◌, List, [], ◌∷◌, ◌++◌, Option, none, some, Bool, not, ◌&&◌, ◌||◌, String, Text, leb, ◌==◌,
  find, update_where, if◌then◌else◌, is_none, is_some, or_else, seconds, length, select,
}
use prison_policy_ai.Fault.{
  ok, Exec, pure, raise_if, lift, modify, reauthentication_required, ◌>>=◌, ◌>>◌,
}
use prison_policy_ai.Identity.Crypto.{Crypto}
use prison_policy_ai.Identity.Normalization.{is_empty, join_words, normalize_device_label}
use prison_policy_ai.Identity.Tokens.{hash_device_id, issue_credential}
use prison_policy_ai.Identity.Models.{
  Role, Status, is_active, StaffMember, Account, AccessSession, RenewalTokenHistory, Db, AuditEvent,
  Detail, staff_by_id, account_by_id,
}

-- identity/config.py, as far as the sessions read it
pub record IdentitySettings : Type 0 where
  pub identity_hash_pepper : Option Text
  pub access_ttl_seconds : ℕ
  pub nonpersistent_renewal_ttl_seconds : ℕ
  pub persistent_renewal_ttl_seconds : ℕ

-- what one call draws: two raw tokens and two UUIDs
pub record Draw : Type 0 where
  pub access : Text
  pub renewal : Text
  pub session_id : ℕ
  pub family_id : ℕ

pub record Profile : Type 0 where
  pub staff_id : ℕ
  pub employee_number : Text
  pub display_name : Text
  pub rank : Text
  pub shift : Text
  pub role : Role
  pub status : Status

pub record SessionTokenPair : Type 0 where
  pub session_id : ℕ
  pub access_token : Text
  pub renewal_token : Text
  pub access_expires_at : ℕ
  pub renewal_expires_at : ℕ
  pub persistent : Bool
  pub requires_pin_change : Bool
  pub profile : Profile

-- an account with its `staff_member`
abbrev pub Owner : Type 0
Owner = Account × StaffMember

unfoldable pub profile_of : Owner → Profile
profile_of (account, staff) = record {
  staff_id = staff.id;
  employee_number = staff.employee_number;
  display_name =
      join_words (
        select (λ part. not (is_empty part))
          (staff.rank ∷ staff.first_name ∷ staff.last_name ∷ []));
  rank = staff.rank;
  shift = staff.shift;
  role = account.role;
  status = account.status;
}

unfoldable pub pair_of : AccessSession → Owner → Text → Text → SessionTokenPair
unfolding profile_of
pair_of stored (account, staff) access_token renewal_token = record {
  session_id = stored.id;
  access_token = access_token;
  renewal_token = renewal_token;
  access_expires_at = stored.access_expires_at;
  renewal_expires_at = stored.renewal_expires_at;
  persistent = stored.persistent;
  requires_pin_change = account.must_change_pin;
  profile = profile_of (account, staff);
}

abbrev pub owner_is_active : Owner → Bool
owner_is_active (account, staff) = is_active account.status && staff.is_active

abbrev with_staff : Account → Option StaffMember → Option Owner
with_staff account none = none
with_staff account (some staff) = some (account, staff)

-- `_account_for_session`: the join of the account and its staff member
unfoldable pub owner_by_id : ℕ → Db → Option Owner
owner_by_id account_id db = elim (account_by_id account_id db) [
  | none ↦ none
  | some account ↦ with_staff account (staff_by_id account.staff_member_id db)
]

abbrev pub by_renewal_hash : ℕ → Db → Option AccessSession
by_renewal_hash digest db = find (λ s. s.renewal_token_hash == digest) db.sessions

abbrev pub by_access_hash : ℕ → Db → Option AccessSession
by_access_hash digest db = find (λ s. s.access_token_hash == digest) db.sessions

abbrev pub by_history_hash : ℕ → Db → Option RenewalTokenHistory
by_history_hash digest db = find (λ h. h.token_hash == digest) db.history

abbrev pub revoke : ℕ → String → AccessSession → AccessSession
revoke now reason row = record row { revoked_at = some now; revoke_reason = some reason }

-- `_revoke_family`: the rows of the family and the row at hand, so far as they are not revoked
abbrev pub in_family : AccessSession → AccessSession → Bool
in_family current row =
    (row.renewal_family_id == current.renewal_family_id || row.id == current.id)
    && is_none row.revoked_at

unfoldable pub revoke_family : AccessSession → ℕ → String → Exec Db ℕ
revoke_family current now reason db = (
  ok (length (select (in_family current) db.sessions)),
  record db { sessions = update_where (in_family current) (revoke now reason) db.sessions },
)

-- an event of the owner about a session
unfoldable pub session_event :
    Owner → String → String → String → ℕ → List (String × Detail) → AuditEvent
session_event (account, staff) action result request_id session_id details = record {
  actor_account_id = some account.id;
  actor_staff_member_id = some account.staff_member_id;
  action = action;
  result = result;
  request_id = request_id;
  target_type = "session";
  target_id = some session_id;
  details = details;
}

abbrev pub pepper_of : IdentitySettings → Text
pepper_of settings = or_else settings.identity_hash_pepper []

module _ (crypto : Crypto) (settings : IdentitySettings) where
  unfoldable pub new_session : Owner → ℕ → Text → Bool → ℕ → Draw → AccessSession
  new_session owner device_id_hash device_label persistent now draw = record {
    id = draw.session_id;
    account_id = (owner.0).id;
    auth_version = (owner.0).auth_version;
    access_token_hash = (issue_credential crypto draw.access).digest;
    access_expires_at = now + seconds settings.access_ttl_seconds;
    renewal_token_hash = (issue_credential crypto draw.renewal).digest;
    renewal_expires_at =
        now
        + seconds (
            if persistent
            then settings.persistent_renewal_ttl_seconds
            else settings.nonpersistent_renewal_ttl_seconds);
    renewal_family_id = draw.family_id;
    device_id_hash = device_id_hash;
    device_label = normalize_device_label device_label;
    persistent = persistent;
    last_used_at = now;
    created_at = now;
    revoked_at = none;
    revoke_reason = none;
  }

  unfoldable pub create_session : Owner → Text → Text → Bool → ℕ → Draw → Exec Db SessionTokenPair
  create_session owner device_id device_label persistent now draw = do
    raise_if (not (owner_is_active owner)) reauthentication_required
    device_id_hash ← lift (hash_device_id crypto device_id (pepper_of settings))
    let stored = new_session owner device_id_hash device_label persistent now draw
    modify (λ db. record db { sessions = db.sessions ++ stored ∷ [] })
    pure (pair_of stored owner draw.access draw.renewal)

  -- the row of a session after its credentials are replaced, in `renew_session` and `change_pin`
  unfoldable pub rotated : ℕ → ℕ → Draw → AccessSession → AccessSession
  rotated auth_version now draw current = record current {
    auth_version = auth_version;
    access_token_hash = (issue_credential crypto draw.access).digest;
    renewal_token_hash = (issue_credential crypto draw.renewal).digest;
    access_expires_at = now + seconds settings.access_ttl_seconds;
    last_used_at = now;
    renewal_expires_at =
        if current.persistent
        then now + seconds settings.persistent_renewal_ttl_seconds
        else current.renewal_expires_at;
  }

-- the renewal token that a rotation retires
abbrev pub retired : AccessSession → ℕ → RenewalTokenHistory
retired current now = record {
  session_id = current.id;
  renewal_family_id = current.renewal_family_id;
  token_hash = current.renewal_token_hash;
  rotated_at = now;
  expires_at = current.renewal_expires_at;
  reuse_detected_at = none;
}

-- the checks of a session against a device and the current version of its account
unfoldable pub is_stale : AccessSession → ℕ → ℕ → Account → Bool
is_stale current now device_hash account =
    is_some current.revoked_at
    || leb current.renewal_expires_at now
    || not (current.device_id_hash == device_hash)
    || not (current.auth_version == account.auth_version)
