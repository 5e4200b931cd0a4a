-- ===== src/Identity/Sessions/Revocation.antt =====
-- Sign-out: `revoke_session` ends a family of sessions, `logout_all` every session of an account.
use prison_policy_ai.Prelude.{
  ℕ, ◌≡◌, ◌≢◌, refl, true, some, String, Text, [], arith, is_some, All, update_where,
  find-update_where, Option-cases, inl, inr, ◌==◌, List, ◌∷◌, All-find, find_sound, length, select,
}
use prison_policy_ai.Fault.{ok}
use prison_policy_ai.Identity.Crypto.{Crypto}
use prison_policy_ai.Identity.Models.{AccessSession, Account, Db, session_by_id, account_by_id}
use prison_policy_ai.Identity.Sessions.Defs.{Owner, in_family, revoke}
use prison_policy_ai.Identity.Sessions.Operations.{
  resolve_access_session, is_usable, revoke_session, logout_all, live_of, next_version,
}
use prison_policy_ai.Identity.Sessions.Resolve.{resolve_access_session_iff}

-- every row that has the property is revoked
abbrev pub Ended : (AccessSession → Type 0) → List AccessSession → Type 0
Ended P rows = All (λ row. P row → is_some row.revoked_at ≡ true) rows

abbrev pub FamilyEnded : ℕ → List AccessSession → Type 0
FamilyEnded family rows = Ended (λ row. row.renewal_family_id ≡ family) rows

pub update_where-FamilyEnded :
    (current : AccessSession) (now : ℕ) (reason : String) (rows : List AccessSession)
    → FamilyEnded current.renewal_family_id
        (update_where (in_family current) (revoke now reason) rows)
unfolding update_where
update_where-FamilyEnded current now reason [] = tt
update_where-FamilyEnded current now reason (row ∷ rows) =
    (λ same. ground arith, update_where-FamilyEnded current now reason rows)

pub update_where-AccountEnded :
    (account_id now : ℕ) (reason : String) (rows : List AccessSession)
    → Ended
        (λ row. row.account_id ≡ account_id)
        (update_where (live_of account_id) (revoke now reason) rows)
unfolding update_where
update_where-AccountEnded account_id now reason [] = tt
update_where-AccountEnded account_id now reason (row ∷ rows) =
    (λ same. ground arith, update_where-AccountEnded account_id now reason rows)

-- A token of a revoked row is refused.
pub resolve-Ended :
    (P : AccessSession → Type 0) (crypto : Crypto) (token : Text) (now : ℕ) (db : Db)
    (row : AccessSession) (owner : Owner)
    → Ended P db.sessions
    → resolve_access_session crypto token now db ≡ (ok (row, owner), db)
    → ¬ (P row)
unfolding is_usable
resolve-Ended P crypto token now db row owner ended h p =
    let valid = ((resolve_access_session_iff crypto token now db).0 row owner).0 h in
    let gone : is_some row.revoked_at ≡ true =
      All-find (λ r. P r → is_some r.revoked_at ≡ true)
        (λ s. s.access_token_hash == crypto.sha256 token) db.sessions row ended valid.1 p in
    ground (arith, valid.3, gone)

-- A sign-out of one session succeeds only for the account that the session belongs to. Then every
-- session of its family is revoked, and a session of another family with another id is as before.
revoke_session-ends :
    (actor target now : ℕ) (request_id : String) (db after : Db) (count : ℕ)
    → revoke_session actor target now request_id db ≡ (ok count, after)
    → (row : AccessSession) × (session_by_id target db ≡ some row)
      × (row.account_id ≡ actor)
      × FamilyEnded row.renewal_family_id after.sessions
      × ((id : ℕ) (other : AccessSession)
          → session_by_id id db ≡ some other
          → other.renewal_family_id ≢ row.renewal_family_id
          → other.id ≢ row.id
          → session_by_id id after ≡ some other)
unfolding revoke_session
revoke_session-ends actor target now request_id db after count h =
    elim (Option-cases (session_by_id target db)) [
      | inl missing ↦ ground arith
      | inr (row, found) ↦
          let e : after.sessions
              ≡ update_where (in_family row) (revoke now "user_revoked") db.sessions =
            ground arith in
          (
            row,
            found,
            ground arith,
            rw e (update_where-FamilyEnded row now "user_revoked" db.sessions),
            λ id other at apart unlike.
                rw
                  (
                    e,
                    find-update_where (λ s. s.id == id) (in_family row) (revoke now "user_revoked")
                        db.sessions (λ x. refl),
                    at,
                  )
                  (ground arith),
          )
    ]

-- After `logout_all` every session of the account is revoked, the account has the next version, and
-- the answer counts the sessions that were not revoked before. No access token is accepted as one of
-- the account at any later time.
logout_all-ends :
    (account_id now : ℕ) (request_id : String) (db after : Db) (count : ℕ)
    → logout_all account_id now request_id db ≡ (ok count, after)
    → (count ≡ length (select (live_of account_id) db.sessions))
      × Ended (λ row. row.account_id ≡ account_id) after.sessions
      × ((account : Account)
          → account_by_id account_id db ≡ some account
          → account_by_id account_id after ≡ some (next_version account))
      × ((crypto : Crypto) (token : Text) (t : ℕ) (row : AccessSession) (owner : Owner)
          → resolve_access_session crypto token t after ≡ (ok (row, owner), after)
          → row.account_id ≢ account_id)
unfolding logout_all
logout_all-ends account_id now request_id db after count h =
    let e : after.sessions
        ≡ update_where (live_of account_id) (revoke now "logout_all") db.sessions =
      ground arith in
    let a : after.accounts
        ≡ update_where (λ (x : Account). x.id == account_id) next_version db.accounts =
      ground arith in
    let ended : Ended (λ row. row.account_id ≡ account_id) after.sessions =
      rw e (update_where-AccountEnded account_id now "logout_all" db.sessions) in
    (
      ground arith,
      ended,
      λ account found.
          rw
            (
              a,
              find-update_where (λ (x : Account). x.id == account_id)
                  (λ (x : Account). x.id == account_id) next_version db.accounts (λ x. refl),
              found,
            )
            (ground
              (arith, find_sound (λ (x : Account). x.id == account_id) db.accounts account found)),
      λ crypto token t row owner r.
          resolve-Ended (λ s. s.account_id ≡ account_id) crypto token t after row owner ended r,
    )
