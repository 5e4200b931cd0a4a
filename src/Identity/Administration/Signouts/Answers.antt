-- ===== src/Identity/Administration/Signouts/Answers.antt =====
-- identity/accounts.py: `revoke_account_sessions`, of all sessions and of one.
use prison_policy_ai.Prelude.{
  ℕ, ◌+◌, ◌≡◌, List, [], ◌∷◌, Bool, false, ◌∙◌, none, some, String, any, select, length, is_none,
  ◌==◌, ◌&&◌,
}
use prison_policy_ai.Fault.{ok}
use prison_policy_ai.Identity.Models.{AccessSession, Account, Db, account_by_id, session_by_id}
use prison_policy_ai.Identity.Sessions.Operations.{live_of}
use prison_policy_ai.Identity.Elevation.{Actor}
use prison_policy_ai.Identity.Administration.{are_held}
use prison_policy_ai.Identity.Administration.Effects.{SignedOut}
use prison_policy_ai.Identity.Administration.Signouts.{order_by_id, revoke_account_sessions}
use prison_policy_ai.Identity.Administration.Signouts.Ends.{signout_all, signout_one}
use prison_policy_ai.Identity.Administration.Signouts.Order.{
  any-order_by_id, Ascending, row_ids, order_by_id-Ascending, order_by_id-length,
  order_by_id-members,
}

-- a row of the account that is not revoked
abbrev pub is_unrevoked : ℕ → AccessSession → Bool
is_unrevoked account_id s = s.account_id == account_id && is_none s.revoked_at

none_held :
    (id : ℕ) (db : Db)
    → any (λ s. is_unrevoked id s && any (λ k. k == s.id) db.held_sessions) db.sessions ≡ false
    → are_held db (order_by_id (select (live_of id) db.sessions)) ≡ false
unfolding are_held
none_held id db free =
    any-order_by_id (λ row. any (λ k. k == row.id) db.held_sessions) (live_of id) db.sessions ∙ free

module _ (actor : Actor) (now : ℕ) (request_id : String) where
  -- A sign-out of all sessions of an account that there is succeeds, where no other transaction holds a
  -- session of it that is not revoked. It names, in ascending order, the ids of the account's sessions that were not revoked,
  -- as many as they are; it leaves every session of the account revoked, and raises the version of the
  -- account by one. A sign-out of one session succeeds only for one that is the account's and is not
  -- revoked; it revokes this session with the time and the reason and leaves the accounts as they are.
  pub revoke_account_sessions-ends :
      (id : ℕ) (db : Db) (account : Account)
      → account_by_id id db ≡ some account
      → any (λ s. is_unrevoked id s && any (λ k. k == s.id) db.held_sessions) db.sessions ≡ false
      → let (answer, after) = revoke_account_sessions actor id "all" none now request_id db in
        ((ids : List ℕ) × (answer ≡ ok ids)
          × Ascending ids
          × (length ids ≡ length (select (is_unrevoked id) db.sessions))
          × ((k : ℕ)
              → any (λ j. j == k) ids
                ≡ any (λ (s : AccessSession). is_unrevoked id s && s.id == k) db.sessions))
        × SignedOut id after
        × (account_by_id id after
            ≡ some (record account { auth_version = account.auth_version + 1 }))
        × ((session_id : ℕ) (ids : List ℕ) (after' : Db)
            → revoke_account_sessions actor id "one" (some session_id) now request_id db
              ≡ (ok ids, after')
            → (row : AccessSession) × (session_by_id session_id db ≡ some row)
              × (row.account_id ≡ id)
              × (row.revoked_at ≡ none)
              × (ids ≡ session_id ∷ [])
              × (session_by_id session_id after'
                  ≡ some
                      (record row { revoked_at = some now; revoke_reason = some "admin_action" }))
              × (after'.accounts ≡ db.accounts))
  revoke_account_sessions-ends id db account at free =
      let (answer, ended, own) =
        signout_all actor now request_id id db account at (none_held id db free) in
      let rows = select (live_of id) db.sessions in
      (
        (
          row_ids (order_by_id rows),
          answer,
          order_by_id-Ascending rows,
          order_by_id-length rows,
          λ k. order_by_id-members (live_of id) k db.sessions,
        ),
        ended,
        own,
        signout_one actor now request_id id db,
      )
