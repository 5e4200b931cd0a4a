-- ===== src/Identity/Browser/Csrf.antt =====
-- The CSRF value of a browser session changes with its credentials.
use prison_policy_ai.Prelude.{
  ℕ, ◌≡◌, ◌≢◌, refl, sym, ap, ◌∙◌, subst, [], ◌∷◌, some, String, Text, arith, find, find_sound,
  update_where, find-update_own, Option-cases, inl, inr, ◌==◌, ==_iff,
}
use prison_policy_ai.Fault.{ok, raised, csrf_invalid, Result-cases, Exec-cases}
use prison_policy_ai.Identity.Crypto.{Crypto}
use prison_policy_ai.Identity.Tokens.{hash_token}
use prison_policy_ai.Identity.Models.{
  Account, AccessSession, BrowserSessionBinding, Db, account_by_id, session_by_id, binding_by_id,
}
use prison_policy_ai.Identity.Sessions.Defs.{
  IdentitySettings, Draw, by_renewal_hash, by_history_hash, owner_by_id,
}
use prison_policy_ai.Identity.Sessions.Operations.{renew_session, refuse_renewal, rotate_session}
use prison_policy_ai.Identity.Browser.{
  BrowserActor, BrowserCookiePair, actor_of, resolved, validate_browser_csrf, renew_browser_session,
  rebound,
}

refuse_renewal-bindings :
    (digest now : ℕ) (request_id : String) (db : Db)
    → (refuse_renewal digest now request_id db).1.bindings ≡ db.bindings
unfolding refuse_renewal
refuse_renewal-bindings digest now request_id db = elim (Option-cases (by_history_hash digest db)) [
  | inl gone ↦ ground arith
  | inr (history, found) ↦ elim (Option-cases (session_by_id history.session_id db)) [
    | inl gone ↦ ground arith
    | inr (current, at) ↦ elim (Option-cases (owner_by_id current.account_id db)) [
      | inl gone ↦ ground arith
      | inr (owner, of) ↦ ground arith
    ]
  ]
]

module _ (crypto : Crypto) (settings : IdentitySettings) where
  rotate_session-bindings :
      (current : AccessSession) (device_id : Text) (now : ℕ) (request_id : String) (draw : Draw)
      (db : Db)
      → (rotate_session crypto settings current device_id now request_id draw db).1.bindings
        ≡ db.bindings
  unfolding rotate_session
  rotate_session-bindings current device_id now request_id draw db =
      elim (Option-cases (owner_by_id current.account_id db)) [
        | inl gone ↦ ground arith
        | inr (owner, found) ↦ ground arith
      ]

  renew_session-bindings :
      (token device_id : Text) (now : ℕ) (request_id : String) (draw : Draw) (db : Db)
      → (renew_session crypto settings token device_id now request_id draw db).1.bindings
        ≡ db.bindings
  unfolding renew_session
  renew_session-bindings token device_id now request_id draw db =
      elim (Result-cases (hash_token crypto token)) [
        | inr (f, e) ↦ ground arith
        | inl (digest, e) ↦ elim (Option-cases (by_renewal_hash digest db)) [
          | inl gone ↦ ground (arith, refuse_renewal-bindings digest now request_id db)
          | inr (current, found) ↦
              ground (arith, rotate_session-bindings current device_id now request_id draw db)
        ]
      ]

  resolved-finds :
      (session_id : ℕ) (db after : Db) (stored : AccessSession) (account : Account)
      → resolved session_id db ≡ (ok (stored, account), after)
      → (after ≡ db) × (stored.id ≡ session_id)
  unfolding resolved
  resolved-finds session_id db after stored account h =
      elim (Option-cases (session_by_id session_id db)) [
        | inl gone ↦ absurd (ground arith)
        | inr (row, found) ↦
            let is_id =
              (==_iff row.id session_id).0
                (find_sound (λ (s : AccessSession). s.id == session_id) db.sessions row found) in
            elim (Option-cases (account_by_id row.account_id db)) [
              | inl gone ↦ absurd (ground arith)
              | inr (a, at) ↦ (ground arith, ground (arith, is_id))
            ]
      ]

  validate-reads :
      (actor : BrowserActor) (token : Text) (db after : Db)
      → validate_browser_csrf crypto actor token db ≡ (ok tt, after)
      → (after ≡ db)
        × ((other : Db)
            → other.bindings ≡ db.bindings
            → validate_browser_csrf crypto actor token other ≡ (ok tt, other))
        × ((row : BrowserSessionBinding) × (binding_by_id actor.session_id db ≡ some row))
  unfolding validate_browser_csrf
  validate-reads actor token db after h = elim (Option-cases (binding_by_id actor.session_id db)) [
    | inl gone ↦ absurd (ground arith)
    | inr (row, found) ↦ elim (Result-cases (hash_token crypto token)) [
      | inr (f, e) ↦ absurd (ground arith)
      | inl (digest, e) ↦ (ground arith, λ other same. rw same (ground arith), (row, found))
    ]
  ]

  bound-validates :
      (actor : BrowserActor) (csrf : Text) (db : Db) (row : BrowserSessionBinding)
      → csrf ≢ []
      → binding_by_id actor.session_id db ≡ some row
      → row.csrf_token_hash ≡ crypto.sha256 csrf
      → (validate_browser_csrf crypto actor csrf db ≡ (ok tt, db))
        × ((token : Text)
            → crypto.sha256 token ≢ crypto.sha256 csrf
            → validate_browser_csrf crypto actor token db ≡ (raised csrf_invalid, db))
  unfolding validate_browser_csrf hash_token
  bound-validates actor [] db row t found same = absurd (t refl)
  bound-validates actor (c ∷ csrf) db row t found same = (
    ground (arith, found, same),
    λ token other. elim (Result-cases (hash_token crypto token)) [
      | inr (f, e) ↦ ground (arith, found, e)
      | inl (digest, e) ↦ ground (arith, found, same, other, e)
    ],
  )

  -- A renewal in the browser needs the CSRF token that the session is bound to. It binds the session to
  -- the new token: the new one, if it is not empty, is accepted then, and every token with another
  -- digest is refused.
  pub renew_browser_session_rotates :
      (renewal_token device_id csrf_token : Text) (now : ℕ) (request_id : String) (draw : Draw)
      (csrf : Text) (db after : Db) (actor : BrowserActor) (cookies : BrowserCookiePair)
      → csrf ≢ []
      → renew_browser_session crypto settings renewal_token device_id csrf_token now request_id draw
          csrf db
        ≡ (ok (actor, cookies), after)
      → (validate_browser_csrf crypto actor csrf_token db ≡ (ok tt, db))
        × (cookies.csrf_token ≡ csrf)
        × (validate_browser_csrf crypto actor csrf after ≡ (ok tt, after))
        × ((token : Text)
            → crypto.sha256 token ≢ crypto.sha256 csrf
            → validate_browser_csrf crypto actor token after ≡ (raised csrf_invalid, after))
  unfolding renew_browser_session
  renew_browser_session_rotates renewal_token device_id csrf_token now request_id draw csrf db after
        actor cookies t h =
      elim (Exec-cases
        (renew_session crypto settings renewal_token device_id now request_id draw db)) [
          | inr (f, s, e) ↦ absurd (ground arith)
          | inl (pair, s, e) ↦
              let kept : s.bindings ≡ db.bindings =
                ground
                  (arith, renew_session-bindings renewal_token device_id now request_id draw db) in
              elim (Exec-cases (resolved pair.session_id s)) [
                | inr (f, s', e') ↦ absurd (ground arith)
                | inl ((stored, account), s', e') ↦
                    let (same_db, is_id) = resolved-finds pair.session_id s s' stored account e' in
                    elim (Exec-cases
                      (validate_browser_csrf crypto (actor_of stored account) csrf_token s')) [
                        | inr (f, s'', e'') ↦ absurd (ground arith)
                        | inl (_, s'', e'') ↦
                            let (same', again, (row, found)) =
                              validate-reads (actor_of stored account) csrf_token s' s'' e'' in
                            let at : binding_by_id pair.session_id s'' ≡ some row =
                              subst (λ k. binding_by_id k s'' ≡ some row) is_id
                                (subst (λ d. binding_by_id stored.id d ≡ some row) (sym same')
                                  found) in
                            let is_key : row.session_id ≡ pair.session_id =
                              (==_iff row.session_id pair.session_id).0 (
                                find_sound
                                  (λ (b : BrowserSessionBinding). b.session_id == pair.session_id)
                                  s''.bindings row at) in
                            let writes : (after.bindings
                                  ≡ update_where
                                      (λ (b : BrowserSessionBinding).
                                        b.session_id == row.session_id)
                                      (rebound (crypto.sha256 csrf) now) s''.bindings)
                                × (actor.session_id ≡ stored.id)
                                × (actor ≡ actor_of stored account)
                                × (cookies.csrf_token ≡ csrf) =
                              (
                                ground (arith, e, e', e'', at),
                                ground (arith, e, e', e'', at),
                                ground (arith, e, e', e'', at),
                                ground (arith, e, e', e'', at),
                              ) in
                            let own =
                              find-update_own (λ (b : BrowserSessionBinding). b.session_id)
                                (rebound (crypto.sha256 csrf) now) s''.bindings row (λ y. refl)
                                (subst (λ k. binding_by_id k s'' ≡ some row) (sym is_key) at) in
                            let bound : binding_by_id actor.session_id after
                                ≡ some (rebound (crypto.sha256 csrf) now row) =
                              rw writes.0 (
                                subst
                                  (λ k.
                                    find (λ (b : BrowserSessionBinding). b.session_id == k)
                                      (update_where
                                        (λ (b : BrowserSessionBinding).
                                          b.session_id == row.session_id)
                                        (rebound (crypto.sha256 csrf) now) s''.bindings)
                                    ≡ some (rebound (crypto.sha256 csrf) now row))
                                  (is_key ∙ sym (writes.1 ∙ is_id)) own) in
                            let (accepted, others) =
                              bound-validates actor csrf after
                                (rebound (crypto.sha256 csrf) now row) t bound refl in
                            (
                              subst
                                  (λ a. validate_browser_csrf crypto a csrf_token db ≡ (ok tt, db))
                                  (sym writes.2)
                                  (again db (sym (ap (λ (d : Db). d.bindings) same_db ∙ kept))),
                              writes.3,
                              accepted,
                              others,
                            )
                      ]
              ]
        ]
