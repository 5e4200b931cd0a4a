-- ===== src/Identity/Administration/Accounts.antt =====
-- Which accounts can come to be: one for a staff member, and the first administrator only once.
use prison_policy_ai.Prelude.{
  ℕ, ◌+◌, ◌≡◌, refl, sym, subst, List, [], ◌∷◌, ◌++◌, none, some, true, String, Text, arith,
  find_sound, length, Unique, Unique-append, Lacks-find, Option-cases, inl, inr, ◌==◌, ==_iff,
  hours,
}
use prison_policy_ai.Fault.{ok, raised, bootstrap_refused, Result-cases, Exec-cases}
use prison_policy_ai.Identity.Crypto.{Crypto}
use prison_policy_ai.Identity.Models.{admin, active, StaffMember, Account, Db, staff_by_id}
use prison_policy_ai.Identity.Pins.{hash_pin, generate_temporary_pin}
use prison_policy_ai.Identity.Elevation.{Actor}
use prison_policy_ai.Identity.Administration.{TemporaryPinResult, role_of, drawn}
use prison_policy_ai.Identity.Administration.Creation.{
  NewAccount, account_of, new_account, add_account, create_account, create_account_for_staff,
  bootstrap_first_admin, is_sha256_hex,
}

length-nil : (xs : List Account) → length xs ≡ 0 → xs ≡ []
length-nil [] h = refl
length-nil (x ∷ xs) h = ground arith

module _ (crypto : Crypto) (fresh : NewAccount) where
  -- an insert that succeeds adds one account, active and with a temporary PIN
  add_account-adds :
      (staff : StaffMember) (role : String) (now : ℕ) (db after : Db) (result : TemporaryPinResult)
      → add_account crypto fresh staff role now db ≡ (ok result, after)
      → (account : Account) × (account.staff_member_id ≡ staff.id)
        × (account.id ≡ fresh.id)
        × (role_of role ≡ some account.role)
        × (account.status ≡ active)
        × (account.must_change_pin ≡ true)
        × (account.temporary_pin_expires_at ≡ some (now + hours 24))
        × (after ≡ record db { accounts = db.accounts ++ account ∷ [] })
  unfolding add_account
  add_account-adds staff role now db after result h = elim (Option-cases (role_of role)) [
    | inl bad ↦ absurd (ground arith)
    | inr (r, e) ↦
        elim (Result-cases (drawn (generate_temporary_pin staff.employee_number fresh.draws))) [
          | inr (f, e') ↦ absurd (ground arith)
          | inl (pin, e') ↦ elim (Result-cases (hash_pin crypto fresh.salt pin)) [
            | inr (f, e'') ↦ absurd (ground arith)
            | inl (pin_hash, e'') ↦ (
              new_account fresh.id staff.id r pin_hash now,
              refl,
              refl,
              e,
              refl,
              refl,
              refl,
              ground arith,
            )
          ]
        ]
  ]

  -- An account is created only for an active staff member without one: then it is the last row of the
  -- accounts, active, of the role that was asked for, and with a PIN to be changed within 24 hours. If
  -- no two accounts were of one staff member before, none are afterwards.
  create_account_for_staff-adds :
      (actor : Actor) (staff_id : ℕ) (role : String) (now : ℕ) (request_id : String) (db after : Db)
      (result : TemporaryPinResult)
      → create_account_for_staff crypto fresh actor staff_id role now request_id db
        ≡ (ok result, after)
      → (staff : StaffMember) × (account : Account) × (staff_by_id staff_id db ≡ some staff)
        × (staff.is_active ≡ true)
        × (account_of staff_id db ≡ none)
        × (account.staff_member_id ≡ staff_id)
        × (role_of role ≡ some account.role)
        × (account.status ≡ active)
        × (account.must_change_pin ≡ true)
        × (account.temporary_pin_expires_at ≡ some (now + hours 24))
        × (after.accounts ≡ db.accounts ++ account ∷ [])
        × (Unique (λ (a : Account). a.staff_member_id) db.accounts
            → Unique (λ (a : Account). a.staff_member_id) after.accounts)
  unfolding create_account_for_staff create_account
  create_account_for_staff-adds actor staff_id role now request_id db after result h =
      elim (Option-cases (staff_by_id staff_id db)) [
        | inl gone ↦ absurd (ground arith)
        | inr (staff, known) ↦
            let same : staff.id ≡ staff_id =
              (==_iff staff.id staff_id).0
                (find_sound (λ (s : StaffMember). s.id == staff_id) db.staff staff known) in
            let again : staff_by_id staff.id db ≡ some staff =
              subst (λ k. staff_by_id k db ≡ some staff) (sym same) known in
            let none_yet : account_of staff_id db ≡ none = ground (arith, known) in
            let again_none : account_of staff.id db ≡ none =
              subst (λ k. account_of k db ≡ none) (sym same) none_yet in
            elim (Exec-cases (add_account crypto fresh staff role now db)) [
              | inr (f, s, e) ↦ absurd (ground (arith, known, again, none_yet, again_none, e))
              | inl (r, s, e) ↦
                  let (account, of_staff, _, is_role, on, must, until, adds) =
                    add_account-adds staff role now db s r e in
                  let accounts : after.accounts ≡ db.accounts ++ account ∷ [] =
                    ground (arith, known, again, none_yet, again_none, e, adds) in
                  (
                    staff,
                    account,
                    known,
                    ground (arith, known, again),
                    none_yet,
                    ground (arith, of_staff, same),
                    is_role,
                    on,
                    must,
                    until,
                    accounts,
                    λ u. rw accounts (
                        Unique-append (λ (a : Account). a.staff_member_id) db.accounts account u
                          (Lacks-find (λ (a : Account). a.staff_member_id) account.staff_member_id
                            db.accounts (rw (of_staff, same) none_yet))),
                  )
            ]
      ]

  -- The first administrator is made only while there is no account at all, for a known active staff
  -- member. Then there is exactly one account, which is an active administrator's, and every later
  -- call with a well-formed reference is refused and writes nothing.
  pub bootstrap_first_admin-once :
      (staff_id now : ℕ) (operation_id : String) (reference : Text) (db after : Db)
      (result : TemporaryPinResult)
      → bootstrap_first_admin crypto fresh staff_id now operation_id reference db
        ≡ (ok result, after)
      → (db.accounts ≡ [])
        × ((staff : StaffMember) × (staff_by_id staff_id db ≡ some staff)
            × (staff.is_active ≡ true))
        × ((account : Account) × (after.accounts ≡ account ∷ [])
            × (account.staff_member_id ≡ staff_id)
            × (account.role ≡ admin)
            × (account.status ≡ active))
        × ((fresh' : NewAccount) (staff_id' now' : ℕ) (operation_id' : String) (reference' : Text)
            → is_sha256_hex reference' ≡ true
            → bootstrap_first_admin crypto fresh' staff_id' now' operation_id' reference' after
              ≡ (raised bootstrap_refused, after))
  unfolding bootstrap_first_admin
  bootstrap_first_admin-once staff_id now operation_id reference db after result h =
      elim (Option-cases (staff_by_id staff_id db)) [
        | inl gone ↦ absurd (ground arith)
        | inr (staff, known) ↦
            let same : staff.id ≡ staff_id =
              (==_iff staff.id staff_id).0
                (find_sound (λ (s : StaffMember). s.id == staff_id) db.staff staff known) in
            let empty : length db.accounts ≡ 0 = ground (arith, known) in
            elim (Exec-cases (add_account crypto fresh staff "admin" now db)) [
              | inr (f, s, e) ↦ absurd (ground (arith, known, e))
              | inl (r, s, e) ↦
                  let (account, of_staff, _, is_role, on, _, _, adds) =
                    add_account-adds staff "admin" now db s r e in
                  let accounts : after.accounts ≡ db.accounts ++ account ∷ [] =
                    ground (arith, known, e, adds) in
                  let is_empty : db.accounts ≡ [] = length-nil db.accounts empty in
                  let one : after.accounts ≡ account ∷ [] = ground (arith, accounts, is_empty) in
                  (
                    is_empty,
                    (staff, known, ground (arith, known)),
                    (
                      account,
                      one,
                      ground (arith, of_staff, same),
                      unfold role_of in ground (arith, is_role),
                      on,
                    ),
                    λ fresh' staff_id' now' operation_id' reference' valid.
                        ground (arith, one, valid),
                  )
            ]
      ]
