-- ===== src/Identity/Sessions/Resolve.antt =====
-- When an access token is accepted.
use prison_policy_ai.Prelude.{ℕ, ◌≡◌, ◌≢◌, ◌↔◌, true, some, Text, [], arith}
use prison_policy_ai.Fault.{ok}
use prison_policy_ai.Identity.Crypto.{Crypto}
use prison_policy_ai.Identity.Tokens.{hash_token}
use prison_policy_ai.Identity.Models.{AccessSession, Db}
use prison_policy_ai.Identity.Sessions.Defs.{Owner, owner_by_id, by_access_hash}
use prison_policy_ai.Identity.Sessions.Operations.{resolve_access_session, is_usable}

module _ (crypto : Crypto) (token : Text) (now : ℕ) (db : Db) where
  -- the row and the owner that a token names, and that they pass every check
  abbrev pub Resolves : AccessSession → Owner → Type 0
  Resolves stored owner =
      (token ≢ [])
      × (by_access_hash (crypto.sha256 token) db ≡ some stored)
      × (owner_by_id stored.account_id db ≡ some owner)
      × (is_usable stored owner now ≡ true)

  resolve-accepts :
      (stored : AccessSession) (owner : Owner)
      → Resolves stored owner
      → resolve_access_session crypto token now db ≡ (ok (stored, owner), db)
  unfolding resolve_access_session hash_token is_usable
  resolve-accepts stored owner (t, s, o, u) = ground arith

  resolve_sound :
      (stored : AccessSession) (owner : Owner) (after : Db)
      → resolve_access_session crypto token now db ≡ (ok (stored, owner), after)
      → Resolves stored owner × (after ≡ db)
  unfolding resolve_access_session hash_token is_usable
  resolve_sound stored owner after h =
      ((ground arith, ground arith, ground arith, ground arith), ground arith)

  -- An access token is accepted exactly when it is not empty and the row of its digest is not
  -- revoked, has not expired, and carries the current version of an active account of an active
  -- staff member. The answer is that row with its owner, and nothing is written in any case.
  pub resolve_access_session_iff :
      ((stored : AccessSession) (owner : Owner)
        → (resolve_access_session crypto token now db ≡ (ok (stored, owner), db))
          ↔ Resolves stored owner)
      × ((resolve_access_session crypto token now db).1 ≡ db)
  unfolding resolve_access_session
  resolve_access_session_iff = (
    λ stored owner. (λ h. (resolve_sound stored owner db h).0, resolve-accepts stored owner),
    ground arith,
  )
