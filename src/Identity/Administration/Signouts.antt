-- ===== src/Identity/Administration/Signouts.antt =====
-- identity/accounts.py: `revoke_account_sessions`.
pub mod Ends
pub mod Kept
pub mod Order
pub mod Answers
use text.Mathlib.Text.{◌==◌ as str_eq}
use prison_policy_ai.Prelude.{
  ℕ, ◌+◌, List, [], ◌∷◌, ◌++◌, Option, none, some, Bool, true, false, not, ◌&&◌, ◌||◌, String, leb,
  ◌==◌, find, select, if◌then◌else◌, is_none, is_some, length, map,
}
use prison_policy_ai.Fault.{
  Result, ok, raised, Exec, pure, raise, raise_if, gets, require, modify, value_error, lookup_error,
  account_conflict, lock_not_available, ◌>>=◌, ◌>>◌,
}
use prison_policy_ai.Identity.Models.{
  AccessSession, Account, Db, Detail, word, number, account_by_id, session_by_id, update_account,
  update_session, append_audit,
}
use prison_policy_ai.Identity.Sessions.Defs.{revoke}
use prison_policy_ai.Identity.Sessions.Operations.{live_of, next_version}
use prison_policy_ai.Identity.Elevation.{Actor}
use prison_policy_ai.Identity.Administration.{admin_event, are_held}

-- ORDER BY id
unfoldable pub insert_by_id : AccessSession → List AccessSession → List AccessSession
insert_by_id row [] = row ∷ []
insert_by_id row (x ∷ xs) =
    let rest = insert_by_id row xs in if leb row.id x.id then row ∷ x ∷ xs else x ∷ rest

unfoldable pub order_by_id : List AccessSession → List AccessSession
order_by_id [] = []
order_by_id (x ∷ xs) = insert_by_id x (order_by_id xs)

unfoldable pub revoke_row : Actor → ℕ → String → AccessSession → Exec Db (Unit {0})
revoke_row actor now request_id row = do
  modify (update_session row.id (revoke now "admin_action"))
  append_audit (
      admin_event actor "auth.session_revoked" "session" row.id
        (("reason", word "admin_action") ∷ []) request_id)

-- `for row in rows`
unfoldable pub revoke_rows : Actor → ℕ → String → List AccessSession → Exec Db (Unit {0})
unfolding revoke_row
revoke_rows actor now request_id [] = pure tt
revoke_rows actor now request_id (row ∷ rows) =
    let rest = revoke_rows actor now request_id rows in revoke_row actor now request_id row >> rest

unfoldable pub selected_rows : ℕ → String → Option ℕ → Exec Db (List AccessSession)
selected_rows target_account_id scope (some target_session_id) =
    if str_eq scope "one"
    then (do
      target ← require (session_by_id target_session_id) lookup_error
      held ← gets (λ db. are_held db (target ∷ []))
      raise_if held lock_not_available
      raise_if (not (target.account_id == target_account_id)) lookup_error
      raise_if (is_some target.revoked_at) account_conflict
      pure (target ∷ []))
    else raise value_error
selected_rows target_account_id scope none =
    if str_eq scope "all"
    then (do
      rows ← gets (λ db. order_by_id (select (live_of target_account_id) db.sessions))
      held ← gets (λ db. are_held db rows)
      raise_if held lock_not_available
      pure rows)
    else raise value_error

unfoldable pub end_versions : Actor → ℕ → String → String → ℕ → Exec Db (Unit {0})
end_versions actor account_id scope request_id count =
    if str_eq scope "all"
    then (do
      modify (update_account account_id next_version)
      append_audit (
          admin_event actor "auth.logout_all" "account" account_id
            (("session_count", number count) ∷ []) request_id))
    else pure tt

unfoldable pub revoke_account_sessions :
    Actor → ℕ → String → Option ℕ → ℕ → String → Exec Db (List ℕ)
unfolding revoke_rows selected_rows end_versions
revoke_account_sessions actor target_account_id scope target_session_id now request_id = do
  account ← require (account_by_id target_account_id) lookup_error
  rows ← selected_rows target_account_id scope target_session_id
  revoke_rows actor now request_id rows
  end_versions actor account.id scope request_id (length rows)
  pure (map (λ (row : AccessSession). row.id) rows)
