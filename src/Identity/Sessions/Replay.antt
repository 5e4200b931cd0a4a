-- ===== src/Identity/Sessions/Replay.antt =====
-- Rotation of renewal tokens: a token that has been used is refused, and its use ends the family.
use prison_policy_ai.Prelude.{
  ℕ, ◌≡◌, ◌≢◌, refl, none, some, String, Text, [], ◌∷◌, ◌++◌, arith, find, find_sound, find-append,
  update_where, Option-cases, inl, inr, ◌==◌, ==_iff, Unique, find_replaced, find_by_key,
  find-update_own, All, All-find, subst,
}
use prison_policy_ai.Fault.{ok, raised, reauthentication_required}
use prison_policy_ai.Identity.Crypto.{Crypto}
use prison_policy_ai.Identity.Tokens.{hash_token}
use prison_policy_ai.Identity.Models.{AccessSession, RenewalTokenHistory, Db, session_by_id}
use prison_policy_ai.Identity.Sessions.Defs.{
  IdentitySettings, Draw, SessionTokenPair, pair_of, by_renewal_hash, by_history_hash, in_family,
  revoke, rotated, retired,
}
use prison_policy_ai.Identity.Sessions.Operations.{refuse_renewal, rotate_session, renew_session}
use prison_policy_ai.Identity.Sessions.Revocation.{FamilyEnded, update_where-FamilyEnded}

-- A token that is no current one is always refused.
pub refuse_renewal-raised :
    (digest now : ℕ) (request_id : String) (db : Db)
    → (refuse_renewal digest now request_id db).0 ≡ raised reauthentication_required
unfolding refuse_renewal
refuse_renewal-raised digest now request_id db = ground arith

-- A retired token is refused, and every session of its family is revoked.
refuse_renewal-ends :
    (digest now : ℕ) (request_id : String) (db : Db) (entry : RenewalTokenHistory)
    (row : AccessSession)
    → by_history_hash digest db ≡ some entry
    → session_by_id entry.session_id db ≡ some row
    → ((refuse_renewal digest now request_id db).0 ≡ raised reauthentication_required)
      × FamilyEnded row.renewal_family_id (refuse_renewal digest now request_id db).1.sessions
unfolding refuse_renewal
refuse_renewal-ends digest now request_id db entry row found at =
    let e : (refuse_renewal digest now request_id db).1.sessions
        ≡ update_where (in_family row) (revoke now "renewal_reuse") db.sessions =
      ground arith in
    (ground arith, rw e (update_where-FamilyEnded row now "renewal_reuse" db.sessions))

module _ (crypto : Crypto) (settings : IdentitySettings) where
  -- What a successful renewal has found and written.
  abbrev pub Rotates : Text → ℕ → Draw → Db → SessionTokenPair → Db → AccessSession → Type 0
  Rotates token now draw db pair after row =
      (token ≢ [])
      × (by_renewal_hash (crypto.sha256 token) db ≡ some row)
      × (row.revoked_at ≡ none)
      × (pair.session_id ≡ row.id)
      × (after.sessions
          ≡ update_where (λ (s : AccessSession). s.id == row.id)
              (rotated crypto settings row.auth_version now draw) db.sessions)
      × (after.history ≡ db.history ++ retired row now ∷ [])
      × (after.accounts ≡ db.accounts)

  pub rotate_session-Rotates :
      (row : AccessSession) (token device_id : Text) (now : ℕ) (request_id : String) (draw : Draw)
      (db after : Db) (pair : SessionTokenPair)
      → token ≢ []
      → by_renewal_hash (crypto.sha256 token) db ≡ some row
      → rotate_session crypto settings row device_id now request_id draw db ≡ (ok pair, after)
      → Rotates token now draw db pair after row
  unfolding rotate_session pair_of rotated
  rotate_session-Rotates row token device_id now request_id draw db after pair t found h =
      (t, found, ground arith, ground arith, ground arith, ground arith, ground arith)

  pub renew_session-Rotates :
      (token device_id : Text) (now : ℕ) (request_id : String) (draw : Draw) (db after : Db)
      (pair : SessionTokenPair)
      → renew_session crypto settings token device_id now request_id draw db ≡ (ok pair, after)
      → (row : AccessSession) × Rotates token now draw db pair after row
  unfolding renew_session hash_token
  renew_session-Rotates token device_id now request_id draw db after pair h =
      elim (Option-cases (by_renewal_hash (crypto.sha256 token) db)) [
        | inl missing ↦
            absurd (ground (arith, refuse_renewal-raised (crypto.sha256 token) now request_id db))
        | inr (row, found) ↦ (
          row,
          rotate_session-Rotates row token device_id now request_id draw db after pair
              (ground arith) found (ground arith),
        )
      ]

renew_session-refuses :
    (crypto : Crypto) (settings : IdentitySettings) (token device_id : Text) (now : ℕ)
    (request_id : String) (draw : Draw) (db : Db)
    → token ≢ []
    → by_renewal_hash (crypto.sha256 token) db ≡ none
    → renew_session crypto settings token device_id now request_id draw db
      ≡ refuse_renewal (crypto.sha256 token) now request_id db
unfolding renew_session hash_token
renew_session-refuses crypto settings token device_id now request_id draw db t missing =
    ground arith

-- The columns that the database holds unique, and that no retired digest is a current one.
pub record IsConsistent (db : Db) : Type 0 where
  pub ids : Unique (λ (s : AccessSession). s.id) db.sessions
  pub renewals : Unique (λ (s : AccessSession). s.renewal_token_hash) db.sessions
  pub retired_apart :
      All (λ (s : AccessSession). by_history_hash s.renewal_token_hash db ≡ none) db.sessions

module _ (crypto : Crypto) (settings : IdentitySettings) (token : Text) where
  -- After a rotation the old digest is found in the history only.
  Rotates-retires :
      (now : ℕ) (draw : Draw) (db after : Db) (pair : SessionTokenPair) (row : AccessSession)
      → IsConsistent db
      → crypto.sha256 draw.renewal ≢ crypto.sha256 token
      → Rotates crypto settings token now draw db pair after row
      → (by_renewal_hash (crypto.sha256 token) after ≡ none)
        × (by_history_hash (crypto.sha256 token) after ≡ some (retired row now))
        × (session_by_id row.id after
            ≡ some (rotated crypto settings row.auth_version now draw row))
  unfolding rotated find
  Rotates-retires now draw db after pair row ok_db fresh r =
      let digest = crypto.sha256 token in
      let is_digest : row.renewal_token_hash ≡ digest =
        (==_iff row.renewal_token_hash digest).0 (
          find_sound (λ (s : AccessSession). s.renewal_token_hash == digest) db.sessions row r.1) in
      let apart : by_history_hash digest db ≡ none =
        subst (λ k. by_history_hash k db ≡ none) is_digest
          (All-find (λ (s : AccessSession). by_history_hash s.renewal_token_hash db ≡ none)
            (λ (s : AccessSession). s.renewal_token_hash == digest) db.sessions row
            ok_db.retired_apart r.1) in
      (
        rw r.4 (
            find_replaced (λ (s : AccessSession). s.id)
              (λ (s : AccessSession). s.renewal_token_hash)
              (rotated crypto settings row.auth_version now draw) digest db.sessions row ok_db.ids
              ok_db.renewals r.1 fresh),
        rw
            (
              r.5,
              find-append (λ (h : RenewalTokenHistory). h.token_hash == digest) db.history
                  (retired row now ∷ []),
              apart,
            )
            (ground (arith, is_digest)),
        rw r.4 (
            find-update_own (λ (s : AccessSession). s.id)
              (rotated crypto settings row.auth_version now draw) db.sessions row (λ y. refl)
              (find_by_key (λ (s : AccessSession). s.id)
                (λ (s : AccessSession). s.renewal_token_hash == digest) db.sessions row ok_db.ids
                r.1)),
      )

  -- A renewal token works once. Take a consistent database and a renewal that has succeeded with
  -- this token, and whose new token has another digest. Whoever presents the old token again, at
  -- any time and from any device, is told to sign in again, and then every session of the family of
  -- the renewed session is revoked, the renewed one too.
  pub renewal_reuse-ends_family :
      (device_id : Text) (now : ℕ) (request_id : String) (draw : Draw) (db after : Db)
      (pair : SessionTokenPair)
      → IsConsistent db
      → crypto.sha256 draw.renewal ≢ crypto.sha256 token
      → renew_session crypto settings token device_id now request_id draw db ≡ (ok pair, after)
      → (device_id' : Text) (now' : ℕ) (request_id' : String) (draw' : Draw)
      → (row : AccessSession) × (session_by_id pair.session_id after ≡ some row)
        × ((renew_session crypto settings token device_id' now' request_id' draw' after).0
            ≡ raised reauthentication_required)
        × FamilyEnded row.renewal_family_id
            (renew_session crypto settings token device_id' now' request_id' draw' after).1.sessions
  unfolding rotated
  renewal_reuse-ends_family device_id now request_id draw db after pair ok_db fresh h device_id'
        now' request_id' draw' =
      let (row, r) =
        renew_session-Rotates crypto settings token device_id now request_id draw db after pair h in
      let (gone, kept, at) = Rotates-retires now draw db after pair row ok_db fresh r in
      let ended =
        refuse_renewal-ends (crypto.sha256 token) now' request_id' after (retired row now)
          (rotated crypto settings row.auth_version now draw row) kept at in
      let refuses =
        renew_session-refuses crypto settings token device_id' now' request_id' draw' after r.0
          gone in
      (
        rotated crypto settings row.auth_version now draw row,
        rw r.3 at,
        rw refuses ended.0,
        rw refuses ended.1,
      )
