-- ===== src/Identity/Administration/Signouts/Ends.antt =====
-- An administrator's sign-out of an account leaves no session of it.
use prison_policy_ai.Prelude.{
  ℕ, ◌≡◌, refl, sym, subst, List, [], ◌∷◌, none, some, Bool, true, false, String, arith, All, any,
  find, find_sound, select, update_where, find-update_own, map, is_some, Bool-cases, Option-cases,
  ◌⊎◌, inl, inr, ◌==◌, ==_iff,
}
use prison_policy_ai.Fault.{ok}
use prison_policy_ai.Identity.Models.{AccessSession, Account, Db, account_by_id, session_by_id}
use prison_policy_ai.Identity.Sessions.Defs.{revoke}
use prison_policy_ai.Identity.Sessions.Operations.{live_of, next_version}
use prison_policy_ai.Identity.Sessions.Revocation.{Ended}
use prison_policy_ai.Identity.Elevation.{Actor}
use prison_policy_ai.Identity.Administration.{are_held}
use prison_policy_ai.Identity.Administration.Effects.{SignedOut, account-update}
use prison_policy_ai.Identity.Administration.Signouts.{
  insert_by_id, order_by_id, revoke_row, revoke_rows, selected_rows, end_versions,
  revoke_account_sessions,
}

-- a row with this id is among them
abbrev pub has_id : ℕ → List AccessSession → Bool
has_id id rows = any (λ (r : AccessSession). r.id == id) rows

-- every session of the account is revoked, or one of the rows still to be revoked
abbrev Covered : ℕ → List AccessSession → List AccessSession → Type 0
Covered account_id rows sessions =
    All
      (λ (s : AccessSession).
        s.account_id ≡ account_id → (is_some s.revoked_at ≡ true) ⊎ (has_id s.id rows ≡ true))
      sessions

has_id-insert :
    (id : ℕ) (row : AccessSession) (rows : List AccessSession)
    → has_id id (insert_by_id row rows) ≡ has_id id (row ∷ rows)
unfolding insert_by_id any
has_id-insert id row [] = refl
has_id-insert id row (x ∷ xs) = ground (arith, has_id-insert id row xs)

pub has_id-order :
    (id : ℕ) (rows : List AccessSession) → has_id id (order_by_id rows) ≡ has_id id rows
unfolding order_by_id any
has_id-order id [] = refl
has_id-order id (x ∷ xs) = ground (arith, has_id-insert id x (order_by_id xs), has_id-order id xs)

-- the rows that are not revoked cover all
live-Covered :
    (account_id : ℕ) (sessions rows : List AccessSession)
    → ((id : ℕ) → has_id id (select (live_of account_id) sessions) ≡ true → has_id id rows ≡ true)
    → Covered account_id rows sessions
unfolding select any
live-Covered account_id [] rows more = tt
live-Covered account_id (s ∷ sessions) rows more = (
  λ own. elim (Bool-cases (is_some s.revoked_at)) [
    | inl gone ↦ inl gone
    | inr live ↦ inr (more s.id (ground (arith, own, live, ==_iff s.id s.id)))
  ],
  live-Covered account_id sessions rows (λ id h. more id (ground (arith, h))),
)

revoke-Covered :
    (account_id now : ℕ) (row : AccessSession) (rows sessions : List AccessSession)
    → Covered account_id (row ∷ rows) sessions
    → Covered account_id rows
        (update_where (λ (s : AccessSession). s.id == row.id) (revoke now "admin_action") sessions)
unfolding update_where any
revoke-Covered account_id now row rows [] c = tt
revoke-Covered account_id now row rows (s ∷ sessions) c = (
  elim (Bool-cases (s.id == row.id)) [
    | inl same ↦ rw same (λ own. inl refl)
    | inr other ↦ rw other (λ own. elim (c.0 own) [
      | inl gone ↦ inl gone
      | inr later ↦ inr (ground (arith, other, later))
    ])
  ],
  revoke-Covered account_id now row rows sessions c.1,
)

nothing-Covered :
    (account_id : ℕ) (sessions : List AccessSession)
    → Covered account_id [] sessions
    → Ended (λ row. row.account_id ≡ account_id) sessions
unfolding any
nothing-Covered account_id [] c = tt
nothing-Covered account_id (s ∷ sessions) c = (
  λ own. elim (c.0 own) [ inl gone ↦ gone | inr none_left ↦ absurd (ground arith) ],
  nothing-Covered account_id sessions c.1,
)

module _ (actor : Actor) (now : ℕ) (request_id : String) where
  revoke_rows-Ended :
      (account_id : ℕ) (rows : List AccessSession) (db : Db)
      → Covered account_id rows db.sessions
      → SignedOut account_id (revoke_rows actor now request_id rows db).1
        × ((revoke_rows actor now request_id rows db).0 ≡ ok tt)
        × ((revoke_rows actor now request_id rows db).1.accounts ≡ db.accounts)
  unfolding revoke_rows revoke_row
  revoke_rows-Ended account_id [] db c = (nothing-Covered account_id db.sessions c, refl, refl)
  revoke_rows-Ended account_id (row ∷ rows) db c =
      revoke_rows-Ended account_id rows (revoke_row actor now request_id row db).1
        (revoke-Covered account_id now row rows db.sessions c)

  pub signout_all :
      (id : ℕ) (db : Db) (account : Account)
      → account_by_id id db ≡ some account
      → are_held db (order_by_id (select (live_of id) db.sessions)) ≡ false
      → let after = (revoke_account_sessions actor id "all" none now request_id db).1 in
        ((revoke_account_sessions actor id "all" none now request_id db).0
          ≡ ok (
              map
                (λ (row : AccessSession). row.id)
                (order_by_id (select (live_of id) db.sessions))))
        × SignedOut id after
        × (account_by_id id after ≡ some (next_version account))
  unfolding revoke_account_sessions selected_rows end_versions
  signout_all id db account at free =
      let rows = order_by_id (select (live_of id) db.sessions) in
      let (ended, went, accounts) = revoke_rows-Ended id rows db (
        live-Covered id db.sessions rows
          (λ k h. rw (has_id-order k (select (live_of id) db.sessions)) h)) in
      let (same, own) = account-update next_version id db account (λ x. refl) at in
      let s = (revoke_rows actor now request_id rows db).1 in
      let all_of = (revoke_account_sessions actor id "all" none now request_id db).1 in
      let e : all_of.sessions ≡ s.sessions = ground (arith, at, free, went) in
      let e' : all_of.accounts
          ≡ update_where (λ (a : Account). a.id == account.id) next_version db.accounts =
        ground (arith, at, free, went, accounts) in
      (ground (arith, at, free, went), rw e ended, rw e' own)

  pub signout_one :
      (id : ℕ) (db : Db) (session_id : ℕ) (ids : List ℕ) (after' : Db)
      → revoke_account_sessions actor id "one" (some session_id) now request_id db
        ≡ (ok ids, after')
      → (row : AccessSession) × (session_by_id session_id db ≡ some row)
        × (row.account_id ≡ id)
        × (row.revoked_at ≡ none)
        × (ids ≡ session_id ∷ [])
        × (session_by_id session_id after' ≡ some (revoke now "admin_action" row))
        × (after'.accounts ≡ db.accounts)
  unfolding revoke_account_sessions selected_rows end_versions revoke_rows revoke_row
  signout_one id db session_id ids after' h = elim (Option-cases (account_by_id id db)) [
    | inl gone ↦ absurd (ground arith)
    | inr (account, at) ↦ elim (Option-cases (session_by_id session_id db)) [
      | inl gone ↦ absurd (ground arith)
      | inr (row, found) ↦
          let same : row.id ≡ session_id =
            (==_iff row.id session_id).0
              (find_sound (λ (s : AccessSession). s.id == session_id) db.sessions row found) in
          let e : after'.sessions
              ≡ update_where (λ (s : AccessSession). s.id == row.id) (revoke now "admin_action")
                  db.sessions =
            ground arith in
          (
            row,
            found,
            ground arith,
            ground arith,
            ground (arith, same),
            rw e (
                subst
                  (λ k.
                    find (λ (s : AccessSession). s.id == k)
                      (update_where (λ (s : AccessSession). s.id == row.id)
                        (revoke now "admin_action") db.sessions)
                    ≡ some (revoke now "admin_action" row))
                  same
                  (find-update_own (λ (s : AccessSession). s.id) (revoke now "admin_action")
                    db.sessions row (λ y. refl)
                    (subst (λ k. session_by_id k db ≡ some row) (sym same) found))),
            ground arith,
          )
    ]
  ]
