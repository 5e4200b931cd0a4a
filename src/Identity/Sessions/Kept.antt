-- ===== src/Identity/Sessions/Kept.antt =====
-- identity/sessions.py: each operation on sessions keeps the revoked rows.
use prison_policy_ai.Prelude.{
  ℕ, ◌≡◌, refl, Bool, String, Text, List, arith, update_where, Option-cases, inl, inr, ◌⊎◌, ◌==◌,
  subst, ◌+◌,
}
use prison_policy_ai.Fault.{Exec-cases, Result-cases}
use prison_policy_ai.Identity.Crypto.{Crypto}
use prison_policy_ai.Identity.Tokens.{hash_token, hash_device_id}
use prison_policy_ai.Identity.Models.{AccessSession, Db, session_by_id, account_by_id}
use prison_policy_ai.Identity.Sessions.Defs.{
  IdentitySettings, Draw, Owner, new_session, create_session, pepper_of, by_renewal_hash,
  by_history_hash, revoke, rotated,
}
use prison_policy_ai.Identity.Sessions.Operations.{
  refuse_renewal, rotate_session, renew_session, revoke_session, logout_all, live_of,
}
use prison_policy_ai.Identity.Sessions.PinChange.{
  PinChange, change_pin, replace_pin, other_live, own_session,
}
use prison_policy_ai.Identity.Sessions.NewPin.{change_pin-atomic, change_pin-writes}
use prison_policy_ai.Identity.Sessions.Revoked.{
  KeepsRevoked, KeepsRevoked-refl, KeepsRevoked-trans, KeepsRevoked-append, KeepsRevoked-update,
  KeepsRevoked-revoke_family, KeepsRevoked-rotated,
}

module _ (crypto : Crypto) (settings : IdentitySettings) where
  -- A rotation either writes its row's credentials or leaves the sessions alone.
  pub rotate_session-sessions :
      (row : AccessSession) (device_id : Text) (now : ℕ) (request_id : String) (draw : Draw)
      (db : Db)
      → ((rotate_session crypto settings row device_id now request_id draw db).1.sessions
          ≡ db.sessions)
        ⊎ ((rotate_session crypto settings row device_id now request_id draw db).1.sessions
            ≡ update_where
                (λ (s : AccessSession). s.id == row.id)
                (rotated crypto settings row.auth_version now draw)
                db.sessions)
  unfolding rotate_session
  rotate_session-sessions row device_id now request_id draw db =
      elim (Exec-cases (rotate_session crypto settings row device_id now request_id draw db)) [
        | inl (pair, s, e) ↦ inr (ground arith)
        | inr (f, s, e) ↦ inl (ground arith)
      ]

-- A table that is left alone, or is updated so that the revoked rows are kept.
pub from_cases :
    {rows rows' updated : List AccessSession}
    → (rows' ≡ rows) ⊎ (rows' ≡ updated)
    → KeepsRevoked rows updated
    → KeepsRevoked rows rows'
from_cases {rows} (inl same) k = rw same (KeepsRevoked-refl rows)
from_cases {rows} (inr new) k = rw new k

-- A refused renewal leaves the sessions alone, or revokes the family of a reused token.
pub refuse_renewal-sessions :
    (digest now : ℕ) (request_id : String) (db : Db)
    → KeepsRevoked db.sessions (refuse_renewal digest now request_id db).1.sessions
unfolding refuse_renewal
refuse_renewal-sessions digest now request_id db = elim (Option-cases (by_history_hash digest db)) [
  | inl none_kept ↦ from_cases (inl (ground arith)) (KeepsRevoked-refl db.sessions)
  | inr (entry, e) ↦ elim (Option-cases (session_by_id entry.session_id db)) [
    | inl gone ↦ from_cases (inl (ground arith)) (KeepsRevoked-refl db.sessions)
    | inr (row, r) ↦
        from_cases (inr (ground arith))
          (KeepsRevoked-revoke_family row now "renewal_reuse" db.sessions)
  ]
]

pub revoke_session-sessions :
    (actor target now : ℕ) (request_id : String) (db : Db)
    → KeepsRevoked db.sessions (revoke_session actor target now request_id db).1.sessions
unfolding revoke_session
revoke_session-sessions actor target now request_id db =
    elim (Option-cases (session_by_id target db)) [
      | inl gone ↦ from_cases (inl (ground arith)) (KeepsRevoked-refl db.sessions)
      | inr (row, r) ↦ elim (Exec-cases (revoke_session actor target now request_id db)) [
        | inl (n, s, e) ↦
            from_cases (inr (ground arith))
              (KeepsRevoked-revoke_family row now "user_revoked" db.sessions)
        | inr (f, s, e) ↦ from_cases (inl (ground arith)) (KeepsRevoked-refl db.sessions)
      ]
    ]

pub logout_all-sessions :
    (account_id now : ℕ) (request_id : String) (db : Db)
    → KeepsRevoked db.sessions (logout_all account_id now request_id db).1.sessions
unfolding logout_all
logout_all-sessions account_id now request_id db =
    elim (Exec-cases (logout_all account_id now request_id db)) [
      | inl (n, s, e) ↦ from_cases (inr (ground arith)) (
          KeepsRevoked-update (live_of account_id) (revoke now "logout_all") db.sessions (λ x. refl)
            (λ x hit gone. absurd (ground arith)))
      | inr (f, s, e) ↦ from_cases (inl (ground arith)) (KeepsRevoked-refl db.sessions)
    ]

module _ (crypto : Crypto) (settings : IdentitySettings) where
  pub create_session-sessions :
      (owner : Owner) (device_id device_label : Text) (persistent : Bool) (now : ℕ) (draw : Draw)
      (db : Db)
      → KeepsRevoked db.sessions
          (create_session crypto settings owner device_id device_label persistent now draw
            db).1.sessions
  unfolding create_session
  create_session-sessions owner device_id device_label persistent now draw db =
      elim (Result-cases (hash_device_id crypto device_id (pepper_of settings))) [
        | inl (digest, d) ↦
            elim (Exec-cases (
              create_session crypto settings owner device_id device_label persistent now draw db)) [
                | inl (pair, s, e) ↦ from_cases (inr (ground arith)) (
                    KeepsRevoked-append db.sessions
                      (new_session crypto settings owner digest device_label persistent now draw))
                | inr (f, s, e) ↦ from_cases (inl (ground arith)) (KeepsRevoked-refl db.sessions)
              ]
        | inr (f, d) ↦ from_cases (inl (ground arith)) (KeepsRevoked-refl db.sessions)
      ]

  pub renew_session-sessions :
      (token device_id : Text) (now : ℕ) (request_id : String) (draw : Draw) (db : Db)
      → KeepsRevoked db.sessions
          (renew_session crypto settings token device_id now request_id draw db).1.sessions
  unfolding renew_session hash_token
  renew_session-sessions token device_id now request_id draw db =
      elim (Option-cases (by_renewal_hash (crypto.sha256 token) db)) [
        | inl missing ↦ elim (Result-cases (hash_token crypto token)) [
          | inl (digest, t) ↦
              subst (KeepsRevoked db.sessions) (ground arith)
                (refuse_renewal-sessions (crypto.sha256 token) now request_id db)
          | inr (f, t) ↦ from_cases (inl (ground arith)) (KeepsRevoked-refl db.sessions)
        ]
        | inr (row, found) ↦ elim (Result-cases (hash_token crypto token)) [
          | inl (digest, t) ↦ subst (KeepsRevoked db.sessions) (ground arith) (
              from_cases
                (rotate_session-sessions crypto settings row device_id now request_id draw db)
                (KeepsRevoked-rotated crypto settings row.auth_version now row.id draw db.sessions))
          | inr (f, t) ↦ from_cases (inl (ground arith)) (KeepsRevoked-refl db.sessions)
        ]
      ]

  pub change_pin-sessions :
      (input : PinChange) (draw : Draw) (db : Db)
      → KeepsRevoked db.sessions (change_pin crypto settings input draw db).1.sessions
  unfolding change_pin replace_pin
  change_pin-sessions input draw db = elim (Exec-cases (change_pin crypto settings input draw db)) [
    | inr (f, s, e) ↦
        from_cases (inl (ground (arith, change_pin-atomic crypto settings input draw db s f)))
          (KeepsRevoked-refl db.sessions)
    | inl (pair, s, e) ↦
        elim (Option-cases (own_session input.current_session_id input.account_id db)) [
          | inl gone ↦ absurd (ground arith)
          | inr (current, found) ↦ elim (Option-cases (account_by_id input.account_id db)) [
            | inl gone ↦ absurd (ground arith)
            | inr (account, at) ↦
                let w =
                  change_pin-writes crypto settings input draw current account db s pair found at
                    e in
                from_cases (inr (ground (arith, w.4))) (
                  KeepsRevoked-trans db.sessions
                    (update_where (other_live input.account_id current.id)
                      (revoke input.now "pin_changed") db.sessions)
                    (replace_pin crypto settings input draw current account w.1 db).sessions
                    (KeepsRevoked-update (other_live input.account_id current.id)
                      (revoke input.now "pin_changed") db.sessions (λ x. refl)
                      (λ x hit gone. absurd (ground arith)))
                    (KeepsRevoked-rotated crypto settings (account.auth_version + 1) input.now
                      current.id draw
                      (update_where (other_live input.account_id current.id)
                        (revoke input.now "pin_changed") db.sessions)))
          ]
        ]
  ]
