-- ===== src/Web/Auth/Commit.antt =====
-- What the API routes keep: they catch the refusal inside the scope, so that it commits.
use prison_policy_ai.Prelude.{
  ℕ, ◌≡◌, refl, ap, Bool, true, false, Text, String, arith, Bool-cases, inl, inr,
}
use prison_policy_ai.Fault.{
  Fault, ok, raised, Exec, Exec-cases, lift, ◌>>=◌, invalid_credentials, reauthentication_required,
  rate_limited,
}
use prison_policy_ai.Identity.Crypto.{Crypto}
use prison_policy_ai.Identity.Models.{Db}
use prison_policy_ai.Identity.Sessions.Defs.{IdentitySettings, Draw, SessionTokenPair}
use prison_policy_ai.Identity.Sessions.Operations.{renew_session}
use prison_policy_ai.Web.Auth.{
  SignIn, session_scope, caught, api_login, api_login_body, api_renew, is_pending_login,
  is_pending_renewal,
}

-- a scope whose block catches some exceptions, and their raise after it
caught-commits :
    {A : Type 0} (is_pending : Fault → Bool) (body : Exec Db A) (db : Db)
    → let outer = (session_scope (caught is_pending body) >>= lift) db in
      (outer.0 ≡ (body db).0)
      × ((a : A) → (body db).0 ≡ ok a → outer.1 ≡ (body db).1)
      × ((f : Fault) → (body db).0 ≡ raised f → is_pending f ≡ true → outer.1 ≡ (body db).1)
      × ((f : Fault) → (body db).0 ≡ raised f → is_pending f ≡ false → outer.1 ≡ db)
unfolding session_scope caught
caught-commits is_pending body db = elim (Exec-cases (body db)) [
  | inl (a, s, e) ↦ (ground arith, ground arith, ground arith, ground arith)
  | inr (f, s, e) ↦ elim (Bool-cases (is_pending f)) [
    | inl p ↦ (
      ground arith,
      ground arith,
      λ g h q. ground arith,
      λ g h q. let same : f ≡ g = ground arith in absurd (ground (arith, ap is_pending same)),
    )
    | inr p ↦ (
      ground arith,
      ground arith,
      λ g h q. let same : f ≡ g = ground arith in absurd (ground (arith, ap is_pending same)),
      λ g h q. ground arith,
    )
  ]
]

module _ (crypto : Crypto) (settings : IdentitySettings) where
  -- The API's routes answer as `login` (after the rate limits) and `renew_session` do, and commit what
  -- these wrote where they succeed, where the credentials are refused or the rate limit is reached, and
  -- where a renewal is refused. After any other exception the database is as it was.
  pub api-commits :
      (limits_enabled : Bool) (s : SignIn) (renewal_token device_id : Text) (now : ℕ)
      (request_id : String) (draw : Draw) (db : Db)
      → let body = api_login_body crypto settings limits_enabled s db in
        let sign_in = api_login crypto settings limits_enabled s db in
        let inner = renew_session crypto settings renewal_token device_id now request_id draw db in
        let outer = api_renew crypto settings renewal_token device_id now request_id draw db in
        ((sign_in.0 ≡ body.0)
          × ((pair : SessionTokenPair) → body.0 ≡ ok pair → sign_in.1 ≡ body.1)
          × (body.0 ≡ raised invalid_credentials → sign_in.1 ≡ body.1)
          × (body.0 ≡ raised rate_limited → sign_in.1 ≡ body.1)
          × ((f : Fault) → body.0 ≡ raised f → is_pending_login f ≡ false → sign_in.1 ≡ db))
        × (outer.0 ≡ inner.0)
        × ((pair : SessionTokenPair) → inner.0 ≡ ok pair → outer.1 ≡ inner.1)
        × (inner.0 ≡ raised reauthentication_required → outer.1 ≡ inner.1)
        × ((f : Fault) → inner.0 ≡ raised f → is_pending_renewal f ≡ false → outer.1 ≡ db)
  unfolding api_renew api_login
  api-commits limits_enabled s renewal_token device_id now request_id draw db =
      let (same, kept, refused, lost) =
        caught-commits is_pending_login (api_login_body crypto settings limits_enabled s) db in
      let (same', kept', refused', lost') =
        caught-commits is_pending_renewal
          (renew_session crypto settings renewal_token device_id now request_id draw) db in
      (
        (
          same,
          kept,
          λ h. refused invalid_credentials h refl,
          λ h. refused rate_limited h refl,
          lost,
        ),
        same',
        kept',
        λ h. refused' reauthentication_required h refl,
        lost',
      )
