-- ===== src/Identity/Sessions/NewPin.antt =====
-- What `change_pin` does to the account and to its sessions.
use prison_policy_ai.Prelude.{
  false, ℕ, ◌≡◌, ◌≢◌, refl, true, none, some, Text, List, [], ◌∷◌, arith, find_sound, update_where,
  Option-cases, inl, inr, ◌==◌, subst, sym, ◌∙◌, ◌+◌, ==_iff, find-update_own,
}
use prison_policy_ai.Fault.{Fault, ok, raised, Result-cases, Exec-cases}
use prison_policy_ai.Identity.Crypto.{Crypto, Verifies}
use prison_policy_ai.Identity.Pins.{hash_pin, verify_pin, validate_new_pin, normalize_pin}
use prison_policy_ai.Identity.Pins.Policy.{validate_new_pin-normal, verify_pin-hash_pin}
use prison_policy_ai.Identity.Models.{Account, AccessSession, Db, account_by_id}
use prison_policy_ai.Identity.Sessions.Defs.{
  IdentitySettings, Draw, SessionTokenPair, Owner, rotated, revoke,
}
use prison_policy_ai.Identity.Sessions.PinChange.{
  PinChange, change_pin, check_pin_change, replace_pin, with_new_pin, own_session, other_live,
}
use prison_policy_ai.Identity.Sessions.Revocation.{Ended}

module _ (crypto : Crypto) (settings : IdentitySettings) (input : PinChange) (draw : Draw) where
  check_pin_change_sound :
      (current : AccessSession) (account : Account) (db after : Db) (owner : Owner)
      (pin_hash : Text)
      → check_pin_change crypto settings input draw current account db
        ≡ (ok (owner, pin_hash), after)
      → (after ≡ db)
        × (owner.0 ≡ account)
        × (current.revoked_at ≡ none)
        × (verify_pin crypto account.pin_hash input.current_pin ≡ true)
        × ((n : Text) × (validate_new_pin input.new_pin (owner.1).employee_number ≡ ok n)
            × (hash_pin crypto input.salt n ≡ ok pin_hash))
  unfolding check_pin_change
  check_pin_change_sound current account db after owner pin_hash h = (
    ground arith,
    ground arith,
    ground arith,
    ground arith,
    elim (Result-cases (validate_new_pin input.new_pin (owner.1).employee_number)) [
      | inl (n, e) ↦ (n, e, ground arith)
      | inr (f, e) ↦ absurd (ground arith)
    ],
  )

  -- The checks write nothing, however they end.
  check_pin_change-pure :
      (current : AccessSession) (account : Account) (db : Db)
      → (check_pin_change crypto settings input draw current account db).1 ≡ db
  unfolding check_pin_change
  check_pin_change-pure current account db = ground arith

  -- A change that is refused leaves the whole database as it was.
  pub change_pin-atomic :
      (db after : Db) (f : Fault)
      → change_pin crypto settings input draw db ≡ (raised f, after)
      → after ≡ db
  unfolding change_pin
  change_pin-atomic db after f h =
      elim (Option-cases (own_session input.current_session_id input.account_id db)) [
        | inl gone ↦ ground arith
        | inr (current, found) ↦ elim (Option-cases (account_by_id input.account_id db)) [
          | inl gone ↦ ground arith
          | inr (account, at) ↦ ground (arith, check_pin_change-pure current account db)
        ]
      ]

  others-Ended :
      (pin_version current_id : ℕ) (rows : List AccessSession)
      → Ended
          (λ s. (s.account_id ≡ input.account_id) × (s.id ≢ current_id))
          (update_where
            (λ (s : AccessSession). s.id == current_id)
            (rotated crypto settings pin_version input.now draw)
            (update_where
              (other_live input.account_id current_id)
              (revoke input.now "pin_changed")
              rows))
  unfolding update_where rotated
  others-Ended pin_version current_id [] = tt
  others-Ended pin_version current_id (row ∷ rows) =
      (λ other. ground arith, others-Ended pin_version current_id rows)

  -- the writes of a change, once the rows are found
  pub change_pin-writes :
      (current : AccessSession) (account : Account) (db after : Db) (pair : SessionTokenPair)
      → own_session input.current_session_id input.account_id db ≡ some current
      → account_by_id input.account_id db ≡ some account
      → change_pin crypto settings input draw db ≡ (ok pair, after)
      → (owner : Owner) × (pin_hash : Text) × (check_pin_change crypto settings input draw current
            account db
          ≡ (ok (owner, pin_hash), db))
        × (after.accounts
            ≡ (replace_pin crypto settings input draw current account pin_hash db).accounts)
        × (after.sessions
            ≡ (replace_pin crypto settings input draw current account pin_hash db).sessions)
  unfolding change_pin
  change_pin-writes current account db after pair found at h =
      elim (Exec-cases (check_pin_change crypto settings input draw current account db)) [
        | inr (f, s, e) ↦ absurd (ground arith)
        | inl ((owner, pin_hash), s, e) ↦
            let kept : s ≡ db = (check_pin_change_sound current account db s owner pin_hash e).0 in
            (
              owner,
              pin_hash,
              subst
                  (λ d.
                    check_pin_change crypto settings input draw current account db
                    ≡ (ok (owner, pin_hash), d))
                  kept e,
              ground (arith, kept, e),
              ground (arith, kept, e),
            )
      ]

  -- A PIN changes only by one who shows the old PIN on a session of the account that is not revoked.
  -- The account then has the next version, no forced change and no deadline of a temporary PIN, and it
  -- stores a hash that verifies the new PIN in every spelling of its letters (as argon2's hashes do);
  -- every session of the account but the one at hand is revoked.
  pub change_pin_sound :
      (db after : Db) (pair : SessionTokenPair)
      → Verifies crypto
      → change_pin crypto settings input draw db ≡ (ok pair, after)
      → (current : AccessSession) × (account : Account) × (pin_hash : Text) × (own_session
            input.current_session_id input.account_id db
          ≡ some current)
        × (current.revoked_at ≡ none)
        × (account_by_id input.account_id db ≡ some account)
        × (verify_pin crypto account.pin_hash input.current_pin ≡ true)
        × (account_by_id input.account_id after
            ≡ some (record account {
              pin_hash = pin_hash;
              must_change_pin = false;
              temporary_pin_expires_at = none;
              auth_version = account.auth_version + 1;
            }))
        × ((typed : Text)
            → normalize_pin typed ≡ normalize_pin input.new_pin
            → verify_pin crypto pin_hash typed ≡ true)
        × Ended (λ s. (s.account_id ≡ input.account_id) × (s.id ≢ current.id)) after.sessions
  unfolding change_pin replace_pin
  change_pin_sound db after pair law h =
      elim (Option-cases (own_session input.current_session_id input.account_id db)) [
        | inl gone ↦ absurd (ground arith)
        | inr (current, found) ↦ elim (Option-cases (account_by_id input.account_id db)) [
          | inl gone ↦ absurd (ground arith)
          | inr (account, at) ↦
              let (owner, pin_hash, checked, accounts, sessions) =
                change_pin-writes current account db after pair found at h in
              let (_, _, live, old_pin, (n, accepted, hashed)) =
                check_pin_change_sound current account db db owner pin_hash checked in
              let id_is : account.id ≡ input.account_id =
                (==_iff account.id input.account_id).0
                  (find_sound (λ (a : Account). a.id == input.account_id) db.accounts account at) in
              (
                current,
                account,
                pin_hash,
                found,
                live,
                at,
                old_pin,
                rw (accounts, ← id_is)
                    (find-update_own (λ (a : Account). a.id) (with_new_pin pin_hash) db.accounts
                      account (λ y. refl)
                      (subst (λ k. account_by_id k db ≡ some account) (sym id_is) at)),
                λ typed same. verify_pin-hash_pin crypto input.salt n typed pin_hash law hashed (
                    same
                    ∙ (validate_new_pin-normal input.new_pin (owner.1).employee_number n accepted).0
                    ∙ sym
                        (validate_new_pin-normal input.new_pin (owner.1).employee_number n
                          accepted).1),
                rw sessions (others-Ended (account.auth_version + 1) current.id db.sessions),
              )
        ]
      ]
