-- ===== src/Identity/Administration/Reset.antt =====
-- A reset PIN works, and nothing of the account's old credentials does.
use prison_policy_ai.Prelude.{
  ℕ, ◌+◌, ◌≡◌, ◌≢◌, refl, List, Option, some, true, String, Text, arith, update_where, Option-cases,
  inl, inr, ◌==◌, hours,
}
use prison_policy_ai.Fault.{Result, ok, Result-cases}
use prison_policy_ai.Identity.Crypto.{Crypto, Verifies}
use prison_policy_ai.Identity.Pins.{
  hash_pin, verify_pin, generate_temporary_pin, validate_new_pin, normalize_pin,
}
use prison_policy_ai.Identity.Pins.Policy.{verify_pin-hash_pin, generate_temporary_pin-valid}
use prison_policy_ai.Identity.Models.{locked, StaffMember, Account, Db, account_by_id, staff_by_id}
use prison_policy_ai.Identity.Sessions.Defs.{revoke}
use prison_policy_ai.Identity.Sessions.Operations.{live_of}
use prison_policy_ai.Identity.Accounts.Lockout.{reset_failed_attempts}
use prison_policy_ai.Identity.Elevation.{Actor}
use prison_policy_ai.Identity.Administration.{
  TemporaryPinResult, drawn, with_temporary_pin, reset_account_pin, revoke_all,
}
use prison_policy_ai.Identity.Administration.Effects.{SignedOut, account-update, revoked-SignedOut}

drawn-some : (o : Option (Result Text)) (pin : Text) → drawn o ≡ ok pin → o ≡ some (ok pin)
drawn-some o pin h = elim (Option-cases o) [
  | inl e ↦ ground (arith, e)
  | inr (r, e) ↦ ground (arith, e)
]

module _ (crypto : Crypto) (actor : Actor) (id now : ℕ) (request_id : String) (draws : List Text)
    (salt : Text) where
  -- what a reset writes: a PIN that it drew, or nothing
  reset-writes :
      (db after : Db) (result : TemporaryPinResult)
      → reset_account_pin crypto actor id now request_id draws salt db ≡ (ok result, after)
      → (account : Account) × (staff : StaffMember) × (pin_hash : Text) × (account_by_id id db
          ≡ some account)
        × (staff_by_id account.staff_member_id db ≡ some staff)
        × (generate_temporary_pin staff.employee_number draws ≡ some (ok result.temporary_pin))
        × (hash_pin crypto salt result.temporary_pin ≡ ok pin_hash)
        × (result.expires_at ≡ now + hours 24)
        × (after.accounts
            ≡ update_where
                (λ (a : Account). a.id == account.id)
                (with_temporary_pin pin_hash now)
                db.accounts)
        × (after.sessions
            ≡ update_where (live_of account.id) (revoke now "admin_action") db.sessions)
  unfolding reset_account_pin revoke_all
  reset-writes db after result h = elim (Option-cases (account_by_id id db)) [
    | inl gone ↦ absurd (ground arith)
    | inr (account, at) ↦ elim (Option-cases (staff_by_id account.staff_member_id db)) [
      | inl gone ↦ absurd (ground arith)
      | inr (staff, known) ↦
          elim (Result-cases (drawn (generate_temporary_pin staff.employee_number draws))) [
            | inr (f, e) ↦ absurd (ground arith)
            | inl (pin, e) ↦ elim (Result-cases (hash_pin crypto salt pin)) [
              | inr (f, e') ↦ absurd (ground arith)
              | inl (pin_hash, e') ↦
                  let same : result.temporary_pin ≡ pin = ground arith in
                  (
                    account,
                    staff,
                    pin_hash,
                    at,
                    known,
                    rw same (drawn-some (generate_temporary_pin staff.employee_number draws) pin e),
                    rw same e',
                    ground arith,
                    ground arith,
                    ground arith,
                  )
            ]
          ]
    ]
  ]

  -- The PIN that a reset returns is the account's: the policy accepts it, and the stored hash verifies it in
  -- every spelling of its letters (as argon2's hashes do). It is to be changed within the 24 hours that
  -- the answer names; the account has no failed attempts, is not locked and has the next version, and
  -- every session of it is revoked.
  pub reset_account_pin_sound :
      (db after : Db) (result : TemporaryPinResult)
      → Verifies crypto
      → reset_account_pin crypto actor id now request_id draws salt db ≡ (ok result, after)
      → (account account' : Account) × (staff : StaffMember) × (account_by_id id db ≡ some account)
        × (staff_by_id account.staff_member_id db ≡ some staff)
        × (account_by_id id after ≡ some account')
        × (validate_new_pin result.temporary_pin staff.employee_number ≡ ok result.temporary_pin)
        × ((typed : Text)
            → normalize_pin typed ≡ normalize_pin result.temporary_pin
            → verify_pin crypto account'.pin_hash typed ≡ true)
        × (account'.must_change_pin ≡ true)
        × (account'.temporary_pin_expires_at ≡ some result.expires_at)
        × (result.expires_at ≡ now + hours 24)
        × (account'.failed_attempts ≡ 0)
        × (account'.status ≢ locked)
        × (account'.auth_version ≡ account.auth_version + 1)
        × SignedOut id after
  unfolding with_temporary_pin reset_failed_attempts
  reset_account_pin_sound db after result law h =
      let (account, staff, pin_hash, at, known, pin, hashed, until, accounts, sessions) =
        reset-writes db after result h in
      let (same, own) =
        account-update (with_temporary_pin pin_hash now) id db account (λ x. refl) at in
      let valid =
        generate_temporary_pin-valid staff.employee_number draws result.temporary_pin pin in
      (
        account,
        with_temporary_pin pin_hash now account,
        staff,
        at,
        known,
        rw accounts own,
        valid,
        λ typed spelled.
            verify_pin-hash_pin crypto salt result.temporary_pin typed pin_hash law hashed spelled,
        refl,
        rw until refl,
        until,
        refl,
        ground arith,
        refl,
        revoked-SignedOut account id now db after same sessions,
      )
