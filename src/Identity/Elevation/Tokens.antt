-- ===== src/Identity/Elevation/Tokens.antt =====
-- A step-up token is spent once, by the session and for the purpose that it was issued for.
use text.Mathlib.TextPositions.{eq_refl}
use prison_policy_ai.Prelude.{
  ℕ, ◌+◌, ◌≡◌, ◌≢◌, ◌<◌, refl, none, some, String, Text, [], ◌∷◌, ◌++◌, arith, find, find-append,
  update_where, find-update_where, Option-cases, inl, inr, ◌==◌, ==_iff, minutes, true,
}
use prison_policy_ai.Fault.{ok, raised, step_up_required}
use prison_policy_ai.Identity.Crypto.{Crypto}
use prison_policy_ai.Identity.Tokens.{hash_token}
use prison_policy_ai.Identity.Models.{Db, AdminStepUpToken}
use prison_policy_ai.Identity.Elevation.{
  Actor, StepUpDraw, ElevationResult, confirm_admin_pin, consume_step_up, is_step_up_purpose,
  by_token_hash, is_spendable, spent, step_up_row,
}

module _ (crypto : Crypto) (token : Text) where
  -- Only a stored, unused, unrevoked and unexpired token is accepted, from the session and for the
  -- purpose that it was issued for. Then it is used up: whoever presents it again, for any purpose
  -- and at any time, is refused, and nothing more is written.
  pub consume_step_up-once :
      (actor : Actor) (purpose : String) (now : ℕ) (db after : Db)
      → consume_step_up crypto actor token purpose now db ≡ (ok tt, after)
      → ((row : AdminStepUpToken) × (by_token_hash (crypto.sha256 token) db ≡ some row)
          × (is_spendable row actor purpose now ≡ true))
        × ((actor' : Actor) (purpose' : String) (now' : ℕ)
            → consume_step_up crypto actor' token purpose' now' after
              ≡ (raised step_up_required, after))
  unfolding consume_step_up hash_token
  consume_step_up-once actor purpose now db after h =
      elim (Option-cases (by_token_hash (crypto.sha256 token) db)) [
        | inl gone ↦ absurd (ground arith)
        | inr (row, found) ↦
            let e : after.step_ups
                ≡ update_where (λ (t : AdminStepUpToken). t.id == row.id) (spent now) db.step_ups =
              ground arith in
            let used : by_token_hash (crypto.sha256 token) after ≡ some (spent now row) =
              rw
                (
                  e,
                  find-update_where (λ (t : AdminStepUpToken). t.token_hash == crypto.sha256 token)
                      (λ (t : AdminStepUpToken). t.id == row.id) (spent now) db.step_ups
                      (λ x. refl),
                  found,
                )
                (ground arith) in
            ((row, found, ground arith), λ actor' purpose' now'. ground (arith, used))
      ]

  -- A confirmation with a step-up purpose issues a token that the same session can spend for that
  -- purpose within five minutes, if it is not empty and its digest is not that of a stored token.
  pub consume-confirm :
      (actor : Actor) (pin : Text) (purpose : String) (now : ℕ) (request_id : String) (token_id : ℕ)
      (db after : Db) (result : ElevationResult)
      → token ≢ []
      → by_token_hash (crypto.sha256 token) db ≡ none
      → is_step_up_purpose purpose ≡ true
      → confirm_admin_pin crypto actor pin purpose now request_id
          (record { raw = token; token_id = token_id })
          db
        ≡ (ok result, after)
      → (result.step_up_token ≡ some token)
        × ((now' : ℕ)
            → now' < now + minutes 5
            → (consume_step_up crypto actor token purpose now' after).0 ≡ ok tt)
  unfolding confirm_admin_pin consume_step_up hash_token step_up_row
  consume-confirm actor pin purpose now request_id token_id db after result t fresh p h =
      let draw : StepUpDraw = record { raw = token; token_id = token_id } in
      let e : after.step_ups ≡ db.step_ups ++ step_up_row crypto actor purpose now draw ∷ [] =
        ground arith in
      let found : by_token_hash (crypto.sha256 token) after
          ≡ some (step_up_row crypto actor purpose now draw) =
        rw
          (
            e,
            find-append (λ (x : AdminStepUpToken). x.token_hash == crypto.sha256 token) db.step_ups
                (step_up_row crypto actor purpose now draw ∷ []),
            fresh,
          )
          (unfold find in ground (arith, ==_iff (crypto.sha256 token) (crypto.sha256 token))) in
      (ground arith, λ now' soon. ground (arith, found, eq_refl purpose))
