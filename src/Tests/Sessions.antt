-- ===== src/Tests/Sessions.antt =====
-- Runs of identity/sessions.py.
use prison_policy_ai.Prelude.{◌+◌, false, update_where}
use prison_policy_ai.Identity.Pins.{hash_pin}
use prison_policy_ai.Identity.Pins.{is_obvious}
use prison_policy_ai.Identity.Normalization.{is_employee_char}
use prison_policy_ai.Identity.Normalization.{is_space}
use prison_policy_ai.Identity.Normalization.{normalize_employee_number}
use prison_policy_ai.Identity.Pins.{validate_new_pin}
use prison_policy_ai.Identity.Normalization.{upper}
use prison_policy_ai.Prelude.{text_eq}
use prison_policy_ai.Identity.Sessions.PinChange.{check_pin_change}
use prison_policy_ai.Prelude.{all}
use prison_policy_ai.Identity.Tokens.{is_device_id}
use prison_policy_ai.Identity.Tokens.{hash_device_id}
use prison_policy_ai.Identity.Sessions.Operations.{rotate_session}
use prison_policy_ai.Identity.Tokens.{hash_token}
use prison_policy_ai.Prelude.{
  ◌≡◌, ◌≢◌, ◌↔◌, refl, [], none, some, Text, codes, arith, true, find, ◌==◌,
}
use prison_policy_ai.Fault.{ok, raised, reauthentication_required}
use prison_policy_ai.Identity.Pins.{verify_pin, normalize_pin}
use prison_policy_ai.Identity.Models.{Account, AccessSession, Db, session_by_id, account_by_id}
use prison_policy_ai.Identity.Sessions.Defs.{Owner, SessionTokenPair, pair_of, rotated, owner_by_id}
use prison_policy_ai.Identity.Sessions.Operations.{
  resolve_access_session, renew_session, revoke_session,
}
use prison_policy_ai.Identity.Sessions.PinChange.{PinChange, change_pin, own_session, with_new_pin}
use prison_policy_ai.Identity.Sessions.Resolve.{Resolves, resolve_access_session_iff}
use prison_policy_ai.Identity.Sessions.Revocation.{Ended, FamilyEnded}
use prison_policy_ai.Identity.Sessions.Replay.{IsConsistent, renewal_reuse-ends_family}
use prison_policy_ai.Identity.Sessions.NewPin.{change_pin_sound}
use prison_policy_ai.Identity.Sessions.Revoked.{SameEnd}
use prison_policy_ai.Identity.Sessions.History.{here, next, renewed, Reach-KeepsRevoked}
use prison_policy_ai.Tests.Samples.{
  account, member, session, db, draw, device, crypto, settings, crypto-Verifies,
}

abbrev access : Text
access = codes "access0"

abbrev renewal : Text
renewal = codes "renew0"

resolves_now : resolve_access_session crypto access 5 db ≡ (ok (session, (account, member)), db)
unfolding resolve_access_session hash_token find owner_by_id
resolves_now = refl

resolve_access_session-iff_example :
    ((stored : AccessSession) (owner : Owner)
      → (resolve_access_session crypto access 5 db ≡ (ok (stored, owner), db))
        ↔ Resolves crypto access 5 db stored owner)
    × ((resolve_access_session crypto access 5 db).1 ≡ db)
resolve_access_session-iff_example = resolve_access_session_iff crypto access 5 db

abbrev signed_out_db : Db
signed_out_db = (revoke_session 10 100 7 "r" db).1

abbrev renewed_row : AccessSession
renewed_row = rotated crypto settings 1 7 draw session

abbrev pair : SessionTokenPair
pair = pair_of renewed_row (account, member) draw.access draw.renewal

abbrev renewed_db : Db
renewed_db = (renew_session crypto settings renewal device 7 "r" draw db).1

db-IsConsistent : IsConsistent db
unfolding find
db-IsConsistent = record { ids = (tt, tt); renewals = (tt, tt); retired_apart = (refl, tt) }

renewal_reuse-ends_family_example :
    (row : AccessSession) × (session_by_id 100 renewed_db ≡ some row)
    × ((renew_session crypto settings renewal device 9 "s" draw renewed_db).0
        ≡ raised reauthentication_required)
    × FamilyEnded row.renewal_family_id
        (renew_session crypto settings renewal device 9 "s" draw renewed_db).1.sessions
unfolding renew_session rotated pair_of hash_token find rotate_session owner_by_id hash_device_id
    is_device_id all
renewal_reuse-ends_family_example =
    renewal_reuse-ends_family crypto settings renewal device 7 "r" draw db renewed_db pair
      db-IsConsistent (omega arith) refl device 9 "s" draw

abbrev input : PinChange
input = record {
  account_id = 10;
  current_session_id = 100;
  current_pin = codes "k7q2";
  new_pin = codes "z4m9";
  device_id = device;
  now = 7;
  request_id = "r";
  salt = [];
}

abbrev pin_db : Db
pin_db = (change_pin crypto settings input draw db).1

change_pin-sound_example :
    (current : AccessSession) × (a : Account) × (pin_hash : Text) × (own_session 100 10 db
      ≡ some current)
    × (current.revoked_at ≡ none)
    × (account_by_id 10 db ≡ some a)
    × (verify_pin crypto a.pin_hash (codes "k7q2") ≡ true)
    × (account_by_id 10 pin_db
        ≡ some (record a {
          pin_hash = pin_hash;
          must_change_pin = false;
          temporary_pin_expires_at = none;
          auth_version = a.auth_version + 1;
        }))
    × ((typed : Text)
        → normalize_pin typed ≡ normalize_pin (codes "z4m9")
        → verify_pin crypto pin_hash typed ≡ true)
    × Ended (λ s. (s.account_id ≡ 10) × (s.id ≢ current.id)) pin_db.sessions
unfolding change_pin find check_pin_change hash_device_id is_device_id all verify_pin normalize_pin
    text_eq upper validate_new_pin normalize_employee_number is_space is_employee_char is_obvious
    hash_pin
change_pin-sound_example =
    change_pin_sound crypto settings input draw db pin_db
      (pair_of (rotated crypto settings 2 7 draw session)
        (with_new_pin (codes "Z4M9") account, member) draw.access draw.renewal)
      crypto-Verifies refl

abbrev wrong_input : PinChange
wrong_input = record input { current_pin = codes "0000" }

-- Signed out at time 7, and then a renewal is tried.
abbrev later_db : Db
later_db = (renew_session crypto settings renewal device 9 "s" draw signed_out_db).1

Reach-KeepsRevoked_example :
    (row' : AccessSession) × (find (λ s. s.id == 100) later_db.sessions ≡ some row')
    × SameEnd (record session { revoked_at = some 7; revoke_reason = some "user_revoked" }) row'
unfolding revoke_session find owner_by_id update_where
Reach-KeepsRevoked_example =
    Reach-KeepsRevoked {crypto = crypto} {settings = settings}
      (next here (renewed renewal device 9 "s" draw signed_out_db)) 100
      (record session { revoked_at = some 7; revoke_reason = some "user_revoked" }) refl refl
