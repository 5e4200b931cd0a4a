-- ===== src/Identity/Sessions/History.antt =====
-- identity/sessions.py: the operations on sessions as a step relation: what every run of them keeps.
use prison_policy_ai.Prelude.{ℕ, Bool, String, Text, List, Option, Unique}
use prison_policy_ai.Identity.Crypto.{Crypto}
use prison_policy_ai.Identity.Models.{AccessSession, Db}
use prison_policy_ai.Identity.Accounts.Login.{LoginInput}
use prison_policy_ai.Identity.Elevation.{Actor}
use prison_policy_ai.Identity.Administration.{
  change_account_role_or_status, reset_account_pin, unlock_account,
}
use prison_policy_ai.Identity.Administration.Signouts.{revoke_account_sessions}
use prison_policy_ai.Identity.Administration.Signouts.Kept.{revoke_account_sessions-KeepsRevoked}
use prison_policy_ai.Identity.Sessions.KeptElsewhere.{
  login-sessions, change-sessions, unlock-sessions, reset-sessions,
}
use prison_policy_ai.Identity.Sessions.Defs.{IdentitySettings, Draw, Owner, create_session}
use prison_policy_ai.Identity.Sessions.Operations.{login, renew_session, revoke_session, logout_all}
use prison_policy_ai.Identity.Sessions.PinChange.{PinChange, change_pin}
use prison_policy_ai.Identity.Sessions.Revoked.{KeepsRevoked, KeepsRevoked-refl, KeepsRevoked-trans}
use prison_policy_ai.Identity.Sessions.Kept.{
  revoke_session-sessions, logout_all-sessions, create_session-sessions, renew_session-sessions,
  change_pin-sessions,
}

-- One operation that writes rows of sessions, with whatever arguments and draws, however it ends. For an
-- administrator's sign-out the ids are distinct, as the primary key demands.
pub data Step (crypto : Crypto) (settings : IdentitySettings) : Db → Db → Type 0 where
  created :
      (owner : Owner) (device_id device_label : Text) (persistent : Bool) (now : ℕ) (draw : Draw)
      (db : Db)
      → Step crypto settings db
          (create_session crypto settings owner device_id device_label persistent now draw db).1
  renewed :
      (token device_id : Text) (now : ℕ) (request_id : String) (draw : Draw) (db : Db)
      → Step crypto settings db
          (renew_session crypto settings token device_id now request_id draw db).1
  signed_out :
      (actor target now : ℕ) (request_id : String) (db : Db)
      → Step crypto settings db (revoke_session actor target now request_id db).1
  signed_out_everywhere :
      (account_id now : ℕ) (request_id : String) (db : Db)
      → Step crypto settings db (logout_all account_id now request_id db).1
  signed_in :
      (input : LoginInput) (device_id device_label : Text) (persistent : Bool) (draw : Draw)
      (db : Db)
      → Step crypto settings db
          (login crypto settings input device_id device_label persistent draw db).1
  ended_by_admin :
      (actor : Actor) (id : ℕ) (scope : String) (target : Option ℕ) (now : ℕ) (request_id : String)
      (db : Db)
      → Unique (λ (s : AccessSession). s.id) db.sessions
      → Step crypto settings db (revoke_account_sessions actor id scope target now request_id db).1
  account_changed :
      (actor : Actor) (id : ℕ) (role status : String) (now : ℕ) (request_id : String) (db : Db)
      → Step crypto settings db
          (change_account_role_or_status actor id role status now request_id db).1
  account_unlocked :
      (actor : Actor) (id now : ℕ) (request_id : String) (db : Db)
      → Step crypto settings db (unlock_account actor id now request_id db).1
  pin_reset :
      (actor : Actor) (id now : ℕ) (request_id : String) (draws : List Text) (salt : Text) (db : Db)
      → Step crypto settings db (reset_account_pin crypto actor id now request_id draws salt db).1
  pin_changed :
      (input : PinChange) (draw : Draw) (db : Db)
      → Step crypto settings db (change_pin crypto settings input draw db).1

pub data Reach (crypto : Crypto) (settings : IdentitySettings) (start : Db) : Db → Type 0 where
  here : Reach crypto settings start start
  next :
      {mid end : Db}
      → Reach crypto settings start mid
      → Step crypto settings mid end
      → Reach crypto settings start end

Step-KeepsRevoked :
    {crypto : Crypto} {settings : IdentitySettings} {db db' : Db}
    → Step crypto settings db db'
    → KeepsRevoked db.sessions db'.sessions
Step-KeepsRevoked {crypto} {settings}
      (created owner device_id device_label persistent now draw db) =
    create_session-sessions crypto settings owner device_id device_label persistent now draw db
Step-KeepsRevoked {crypto} {settings} (renewed token device_id now request_id draw db) =
    renew_session-sessions crypto settings token device_id now request_id draw db
Step-KeepsRevoked (signed_out actor target now request_id db) =
    revoke_session-sessions actor target now request_id db
Step-KeepsRevoked (signed_out_everywhere account_id now request_id db) =
    logout_all-sessions account_id now request_id db
Step-KeepsRevoked {crypto} {settings} (signed_in input device_id device_label persistent draw db) =
    login-sessions crypto input settings device_id device_label persistent draw db
Step-KeepsRevoked (ended_by_admin actor id scope target now request_id db u) =
    revoke_account_sessions-KeepsRevoked actor now request_id id scope target db u
Step-KeepsRevoked (account_changed actor id role status now request_id db) =
    change-sessions actor now request_id db id role status
Step-KeepsRevoked (account_unlocked actor id now request_id db) =
    unlock-sessions actor now request_id db id
Step-KeepsRevoked {crypto} (pin_reset actor id now request_id draws salt db) =
    reset-sessions actor now request_id db crypto id draws salt
Step-KeepsRevoked {crypto} {settings} (pin_changed input draw db) =
    change_pin-sessions crypto settings input draw db

-- A revoked session stays revoked. Whatever sign-ins, renewals, sign-outs and PIN changes follow, and
-- whatever administrators do: sign-outs of an account, changes of a role or a status, unlockings and
-- resets of a PIN; and however each of them ends: its row is there with the same account, the same time
-- of revocation and the same reason.
pub Reach-KeepsRevoked :
    {crypto : Crypto} {settings : IdentitySettings} {start end : Db}
    → Reach crypto settings start end
    → KeepsRevoked start.sessions end.sessions
Reach-KeepsRevoked {start = start} here = KeepsRevoked-refl start.sessions
Reach-KeepsRevoked {start = start} {end = end} (next {mid = mid} r step) =
    KeepsRevoked-trans start.sessions mid.sessions end.sessions (Reach-KeepsRevoked r)
      (Step-KeepsRevoked step)
