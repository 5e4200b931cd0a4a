-- ===== src/Tests/Administration.antt =====
-- Runs of the administrator's operations of identity/accounts.py.
use prison_policy_ai.Identity.Administration.{are_held}
use prison_policy_ai.Identity.Administration.{revoke_all}
use prison_policy_ai.Prelude.{
  ℕ, ◌+◌, ◌≡◌, ◌≢◌, refl, List, [], ◌∷◌, none, some, Text, String, codes, true, false, not, ◌&&◌,
  hours, find, select, any, all, text_eq,
}
use prison_policy_ai.Fault.{ok, raised, bootstrap_refused}
use prison_policy_ai.Identity.Pins.{
  verify_pin, normalize_pin, validate_new_pin, generate_temporary_pin, hash_pin, is_obvious,
}
use prison_policy_ai.Identity.Normalization.{normalize_employee_number, is_space, is_employee_char}
use prison_policy_ai.Identity.Models.{
  admin, user, active, locked, deactivated, StaffMember, Account, AccessSession, Db, account_by_id,
  staff_by_id, session_by_id,
}
use prison_policy_ai.Identity.Administration.{
  TemporaryPinResult, change_account_role_or_status, change_target, target_of, is_last_active_admin,
  reset_account_pin, unlock_account, changed, role_of, status_of, role_eq, status_eq,
}
use prison_policy_ai.Identity.Administration.Creation.{
  NewAccount, create_account_for_staff, bootstrap_first_admin, is_sha256_hex,
}
use prison_policy_ai.Identity.Administration.Signouts.{revoke_account_sessions}
use prison_policy_ai.Identity.Administration.LastAdmin.{HasAdmin, administration-HasAdmin}
use prison_policy_ai.Identity.Administration.Effects.{
  SignedOut, change_account_role_or_status_sound,
}
use prison_policy_ai.Identity.Administration.Reset.{reset_account_pin_sound}
use prison_policy_ai.Identity.Administration.Accounts.{bootstrap_first_admin-once}
use prison_policy_ai.Identity.Administration.Signouts.Order.{Ascending}
use prison_policy_ai.Identity.Administration.Signouts.Answers.{
  is_unrevoked, revoke_account_sessions-ends,
}
use prison_policy_ai.Prelude.{length, any, ◌&&◌, ◌==◌}
use prison_policy_ai.Tests.Samples.{crypto, db, account, member, session, crypto-Verifies}
use prison_policy_ai.Tests.Elevation.{actor}

abbrev draws : List Text
draws = codes "AAAAAAAA" ∷ codes "Q7A1Z9B2" ∷ []

db-HasAdmin : HasAdmin db.accounts
unfolding any
db-HasAdmin = refl

administration-HasAdmin_example :
    HasAdmin (change_account_role_or_status actor 10 "user" "active" 7 "r" db).1.accounts
    × HasAdmin (reset_account_pin crypto actor 10 7 "r" draws [] db).1.accounts
    × HasAdmin (unlock_account actor 10 7 "r" db).1.accounts
administration-HasAdmin_example =
    administration-HasAdmin crypto actor 10 "user" "active" 7 "r" draws [] db (tt, tt) db-HasAdmin

-- a second account, which is locked
abbrev second : Account
second = record account {
  id = 11;
  staff_member_id = 2;
  role = user;
  status = locked;
  failed_attempts = 5;
  locked_until = some 99;
}

abbrev two_db : Db
two_db = record db { accounts = account ∷ second ∷ [] }

abbrev third : Account
third = record second { status = active }

abbrev three_db : Db
three_db = record db {
  accounts = account ∷ third ∷ [];
  sessions = record session { account_id = 11 } ∷ [];
}

abbrev promoted_db : Db
promoted_db = (change_account_role_or_status actor 11 "admin" "active" 7 "r" three_db).1

abbrev promoted : Account
promoted = changed admin active 7 third

change_account_role_or_status-sound_example :
    (a : Account) × (account_by_id 11 three_db ≡ some a)
    × (account_by_id 11 promoted_db ≡ some promoted)
    × (role_of "admin" ≡ some promoted.role)
    × (status_of "active" ≡ some promoted.status)
    × (role_eq a.role promoted.role && status_eq a.status promoted.status ≡ false)
    × (promoted.auth_version ≡ a.auth_version + 1)
    × (role_eq a.role promoted.role && not (status_eq deactivated promoted.status) ≡ false
        → SignedOut 11 promoted_db)
    × (role_eq a.role promoted.role && not (status_eq deactivated promoted.status) ≡ true
        → promoted_db.sessions ≡ three_db.sessions)
unfolding change_account_role_or_status role_of status_of target_of find select change_target
    is_last_active_admin changed revoke_all are_held any
change_account_role_or_status-sound_example =
    change_account_role_or_status_sound actor 11 7 "r" three_db promoted_db "admin" "active"
      promoted ((λ e. cc, tt), (tt, tt)) refl

abbrev unlocked_db : Db
unlocked_db = (unlock_account actor 11 7 "r" two_db).1

abbrev reset_db : Db
reset_db = (reset_account_pin crypto actor 10 7 "r" draws [] db).1

abbrev new_pin : TemporaryPinResult
new_pin = record { account_id = 10; temporary_pin = codes "Q7A1Z9B2"; expires_at = 7 + hours 24 }

reset_account_pin-sound_example :
    (a a' : Account) × (staff : StaffMember) × (account_by_id 10 db ≡ some a)
    × (staff_by_id a.staff_member_id db ≡ some staff)
    × (account_by_id 10 reset_db ≡ some a')
    × (validate_new_pin (codes "Q7A1Z9B2") staff.employee_number ≡ ok (codes "Q7A1Z9B2"))
    × ((typed : Text)
        → normalize_pin typed ≡ normalize_pin (codes "Q7A1Z9B2")
        → verify_pin crypto a'.pin_hash typed ≡ true)
    × (a'.must_change_pin ≡ true)
    × (a'.temporary_pin_expires_at ≡ some new_pin.expires_at)
    × (new_pin.expires_at ≡ 7 + hours 24)
    × (a'.failed_attempts ≡ 0)
    × (a'.status ≢ locked)
    × (a'.auth_version ≡ a.auth_version + 1)
    × SignedOut 10 reset_db
unfolding reset_account_pin find generate_temporary_pin validate_new_pin normalize_pin all
    normalize_employee_number is_space is_employee_char text_eq is_obvious hash_pin revoke_all
    are_held any select
reset_account_pin-sound_example =
    reset_account_pin_sound crypto actor 10 7 "r" draws [] db reset_db new_pin crypto-Verifies refl

revoke_account_sessions-ends_example :
    let (answer, after) = revoke_account_sessions actor 10 "all" none 7 "r" db in
    ((ids : List ℕ) × (answer ≡ ok ids)
      × Ascending ids
      × (length ids ≡ length (select (is_unrevoked 10) db.sessions))
      × ((k : ℕ)
          → any (λ j. j == k) ids
            ≡ any (λ (s : AccessSession). is_unrevoked 10 s && s.id == k) db.sessions))
    × SignedOut 10 after
    × (account_by_id 10 after ≡ some (record account { auth_version = account.auth_version + 1 }))
    × ((session_id : ℕ) (ids : List ℕ) (after' : Db)
        → revoke_account_sessions actor 10 "one" (some session_id) 7 "r" db ≡ (ok ids, after')
        → (row : AccessSession) × (session_by_id session_id db ≡ some row)
          × (row.account_id ≡ 10)
          × (row.revoked_at ≡ none)
          × (ids ≡ session_id ∷ [])
          × (session_by_id session_id after'
              ≡ some (record row { revoked_at = some 7; revoke_reason = some "admin_action" }))
          × (after'.accounts ≡ db.accounts))
unfolding find any
revoke_account_sessions-ends_example =
    revoke_account_sessions-ends actor 7 "r" 10 db account refl refl

abbrev fresh : NewAccount
fresh = record { id = 12; draws = draws; salt = [] }

-- a second staff member has no account
abbrev hired_db : Db
hired_db = record db {
  staff = member ∷ record member { id = 2; employee_number = codes "E200" } ∷ [];
}

abbrev created_db : Db
created_db = (create_account_for_staff crypto fresh actor 2 "user" 7 "r" hired_db).1

abbrev empty_db : Db
empty_db = record db { accounts = []; sessions = [] }

abbrev sha : Text
sha = codes "00112233445566778899aabbccddeeff00112233445566778899aabbccddeeff"

abbrev first_db : Db
first_db = (bootstrap_first_admin crypto fresh 1 7 "op" sha empty_db).1

bootstrap_first_admin-once_example :
    (empty_db.accounts ≡ [])
    × ((staff : StaffMember) × (staff_by_id 1 empty_db ≡ some staff) × (staff.is_active ≡ true))
    × ((a : Account) × (first_db.accounts ≡ a ∷ [])
        × (a.staff_member_id ≡ 1)
        × (a.role ≡ admin)
        × (a.status ≡ active))
    × ((fresh' : NewAccount) (staff_id' now' : ℕ) (operation_id' : String) (reference' : Text)
        → is_sha256_hex reference' ≡ true
        → bootstrap_first_admin crypto fresh' staff_id' now' operation_id' reference' first_db
          ≡ (raised bootstrap_refused, first_db))
unfolding bootstrap_first_admin is_sha256_hex all find role_of generate_temporary_pin
    validate_new_pin normalize_pin normalize_employee_number is_space is_employee_char text_eq
    is_obvious hash_pin
bootstrap_first_admin-once_example =
    bootstrap_first_admin-once crypto fresh 1 7 "op" sha empty_db first_db
      (record new_pin { account_id = 12 }) refl
