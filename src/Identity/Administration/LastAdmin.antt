-- ===== src/Identity/Administration/LastAdmin.antt =====
-- No administrative operation takes away the last active administrator.
use prison_policy_ai.Prelude.{
  ℕ, ◌≡◌, sym, List, [], ◌∷◌, some, Bool, true, false, ◌&&◌, String, Text, arith, any, select, find,
  find_sound, update_where, Unique, Lacks, Bool-cases, Option-cases, inl, inr, ◌⊎◌, subst, ◌==◌,
  ==_iff,
}
use prison_policy_ai.Fault.{Result-cases}
use prison_policy_ai.Identity.Crypto.{Crypto}
use prison_policy_ai.Identity.Pins.{hash_pin, generate_temporary_pin}
use prison_policy_ai.Identity.Accounts.Lockout.{reset_failed_attempts}
use prison_policy_ai.Identity.Models.{
  Role, Status, Account, Db, account_by_id, staff_by_id, is_admin, is_active,
}
use prison_policy_ai.Identity.Elevation.{Actor}
use prison_policy_ai.Identity.Administration.{
  is_active_admin, is_other, is_last_active_admin, lock_active_admins, target_of, drawn, changed,
  with_temporary_pin, with_unlock, change_account_role_or_status, change_target, reset_account_pin,
  unlock_account, role_of, status_of, revoke_all,
}

abbrev pub HasAdmin : List Account → Type 0
HasAdmin accounts = any is_active_admin accounts ≡ true

any-update_where :
    (p : Account → Bool) (f : Account → Account) (xs : List Account)
    → ((x : Account) → is_active_admin x ≡ true → is_active_admin (f x) ≡ true)
    → HasAdmin xs
    → HasAdmin (update_where p f xs)
unfolding any update_where
any-update_where p f [] keeps h = h
any-update_where p f (x ∷ xs) keeps h = ground (arith, keeps x, any-update_where p f xs keeps)

-- another active administrator stays, whatever becomes of the target
any-other :
    (target : Account) (f : Account → Account) (xs : List Account)
    → any (is_other target) (select is_active_admin xs) ≡ true
    → HasAdmin (update_where (λ a. a.id == target.id) f xs)
unfolding any update_where select
any-other target f [] h = ground arith
any-other target f (x ∷ xs) h = ground (arith, any-other target f xs)

any-Lacks :
    (target : Account) (xs : List Account)
    → Lacks (λ (a : Account). a.id) target.id xs
    → HasAdmin xs
    → any (is_other target) (select is_active_admin xs) ≡ true
unfolding any select
any-Lacks target [] l h = ground arith
any-Lacks target (x ∷ xs) l h = ground (arith, l.0, any-Lacks target xs l.1)

-- where the target is not one itself
any-not_target :
    (target : Account) (xs : List Account)
    → Unique (λ (a : Account). a.id) xs
    → find (λ (a : Account). a.id == target.id) xs ≡ some target
    → is_active_admin target ≡ false
    → HasAdmin xs
    → any (is_other target) (select is_active_admin xs) ≡ true
unfolding any select find
any-not_target target [] u found n h = ground arith
any-not_target target (x ∷ xs) u found n h = elim (Bool-cases (x.id == target.id)) [
  | inl here ↦
      let same : x ≡ target = ground arith in
      let off : is_active_admin x ≡ false = rw same n in
      let others =
        any-Lacks target xs
          (subst (λ (a : Account). Lacks (λ (b : Account). b.id) a.id xs) same u.0)
          (ground (arith, off)) in
      ground (arith, off, others)
  | inr later ↦ ground (arith, any-not_target target xs u.1)
]

find-select :
    (p q : Account → Bool) (xs : List Account) (x : Account)
    → find p (select q xs) ≡ some x
    → q x ≡ true
unfolding find select
find-select p q [] x h = ground arith
find-select p q (y ∷ xs) x h = elim (Bool-cases (q y)) [
  | inl e ↦ ground (arith, find-select p q xs x)
  | inr e ↦ ground (arith, find-select p q xs x)
]

changed-HasAdmin :
    (target : Account) (role : Role) (status : Status) (now : ℕ) (xs : List Account)
    → HasAdmin xs
    → any (is_other target) (select is_active_admin xs) ≡ true
      ⊎ (is_admin role && is_active status ≡ true)
    → HasAdmin (update_where (λ a. a.id == target.id) (changed role status now) xs)
unfolding changed
changed-HasAdmin target role status now xs h (inl others) =
    any-other target (changed role status now) xs others
changed-HasAdmin target role status now xs h (inr stays) =
    any-update_where (λ a. a.id == target.id) (changed role status now) xs (λ x _. stays) h

-- the guard of a change leaves another administrator, or the target is one afterwards
target-guarded :
    (target_account_id : ℕ) (role : Role) (status : Status) (db : Db) (target : Account)
    → Unique (λ (a : Account). a.id) db.accounts
    → HasAdmin db.accounts
    → target_of target_account_id db ≡ some target
    → is_last_active_admin target (lock_active_admins db) role status ≡ false
    → any (is_other target) (select is_active_admin db.accounts) ≡ true
      ⊎ (is_admin role && is_active status ≡ true)
unfolding target_of is_last_active_admin
target-guarded target_account_id role status db target u h at guard =
    elim (Bool-cases (is_active_admin target)) [
      | inl on ↦ ground (arith, on)
      | inr off ↦
          elim (Option-cases (
            find (λ (a : Account). a.id == target_account_id)
              (select is_active_admin db.accounts))) [
                | inr (a, e) ↦
                    let on =
                      find-select (λ (a : Account). a.id == target_account_id) is_active_admin
                        db.accounts a e in
                    absurd (ground (arith, on, off))
                | inl gone ↦
                    let found : find (λ (a : Account). a.id == target_account_id) db.accounts
                        ≡ some target =
                      ground arith in
                    let is_id = (==_iff target.id target_account_id).0 (
                      find_sound (λ (a : Account). a.id == target_account_id) db.accounts target
                        found) in
                    inl (
                      any-not_target target db.accounts u
                        (subst (λ k. find (λ (a : Account). a.id == k) db.accounts ≡ some target)
                          (sym is_id) found)
                        off h)
              ]
    ]

module _ (crypto : Crypto) (actor : Actor) (target_account_id now : ℕ) (request_id : String)
    (db : Db) (u : Unique (λ (a : Account). a.id) db.accounts) (h : HasAdmin db.accounts) where
  change_target-HasAdmin :
      (target : Account) (role : Role) (status : Status)
      → target_of target_account_id db ≡ some target
      → HasAdmin
          (change_target actor target
            (lock_active_admins db)
            role
            status
            now
            request_id
            db).1.accounts
  unfolding change_target revoke_all
  change_target-HasAdmin target role status at =
      elim (Bool-cases (is_last_active_admin target (lock_active_admins db) role status)) [
        | inl last ↦ ground (arith, last, h)
        | inr guard ↦
            let next =
              changed-HasAdmin target role status now db.accounts h
                (target-guarded target_account_id role status db target u h at guard) in
            ground (arith, guard, next, h)
      ]

  change-HasAdmin :
      (role_name status_name : String)
      → HasAdmin
          (change_account_role_or_status actor target_account_id role_name status_name now
            request_id db).1.accounts
  unfolding change_account_role_or_status
  change-HasAdmin role_name status_name = elim (Option-cases (role_of role_name)) [
    | inl bad ↦ ground (arith, bad, h)
    | inr (role, e) ↦ elim (Option-cases (status_of status_name)) [
      | inl bad ↦ ground (arith, e, bad, h)
      | inr (status, e') ↦ elim (Option-cases (target_of target_account_id db)) [
        | inl gone ↦ ground (arith, e, e', gone, h)
        | inr (target, at) ↦ ground (arith, e, e', at, change_target-HasAdmin target role status at)
      ]
    ]
  ]

  reset-HasAdmin :
      (draws : List Text) (salt : Text)
      → HasAdmin
          (reset_account_pin crypto actor target_account_id now request_id draws salt db).1.accounts
  unfolding reset_account_pin revoke_all
  reset-HasAdmin draws salt = elim (Option-cases (account_by_id target_account_id db)) [
    | inl gone ↦ ground (arith, gone, h)
    | inr (account, found) ↦ elim (Option-cases (staff_by_id account.staff_member_id db)) [
      | inl gone ↦ ground (arith, found, gone, h)
      | inr (staff, known) ↦
          elim (Result-cases (drawn (generate_temporary_pin staff.employee_number draws))) [
            | inr (f, e) ↦ ground (arith, found, known, e, h)
            | inl (pin, e) ↦ elim (Result-cases (hash_pin crypto salt pin)) [
              | inr (f, e') ↦ ground (arith, found, known, e, e', h)
              | inl (pin_hash, e') ↦
                  let next =
                    any-update_where (λ a. a.id == account.id) (with_temporary_pin pin_hash now)
                      db.accounts
                      (λ x on.
                        unfold with_temporary_pin reset_failed_attempts in ground (arith, on))
                      h in
                  ground (arith, found, known, e, e', next, h)
            ]
          ]
    ]
  ]

  unlock-HasAdmin : HasAdmin (unlock_account actor target_account_id now request_id db).1.accounts
  unfolding unlock_account revoke_all with_unlock
  unlock-HasAdmin = elim (Option-cases (account_by_id target_account_id db)) [
    | inl gone ↦ ground (arith, gone, h)
    | inr (account, found) ↦
        let next =
          any-update_where (λ a. a.id == account.id) (with_unlock now) db.accounts
            (λ x. ground arith) h in
        ground (arith, found, next, h)
  ]

-- Where there is an active administrator, there is one after every change of a role or a status, after
-- every reset of a PIN and after every unlocking, whoever asks for whichever account and whatever the
-- answer. The ids of the accounts are distinct, as their primary key demands.
pub administration-HasAdmin :
    (crypto : Crypto) (actor : Actor) (target_account_id : ℕ) (role status : String) (now : ℕ)
    (request_id : String) (draws : List Text) (salt : Text) (db : Db)
    → Unique (λ (a : Account). a.id) db.accounts
    → HasAdmin db.accounts
    → HasAdmin
        (change_account_role_or_status actor target_account_id role status now request_id
          db).1.accounts
      × HasAdmin
          (reset_account_pin crypto actor target_account_id now request_id draws salt db).1.accounts
      × HasAdmin (unlock_account actor target_account_id now request_id db).1.accounts
administration-HasAdmin crypto actor target_account_id role status now request_id draws salt db u
      h =
    (
      change-HasAdmin crypto actor target_account_id now request_id db u h role status,
      reset-HasAdmin crypto actor target_account_id now request_id db u h draws salt,
      unlock-HasAdmin crypto actor target_account_id now request_id db u h,
    )
