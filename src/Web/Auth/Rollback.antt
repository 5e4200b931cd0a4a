-- ===== src/Web/Auth/Rollback.antt =====
-- What the browser routes forget: an exception that leaves `session_scope` rolls the session back.
use prison_policy_ai.Prelude.{
  ℕ, ◌≡◌, ◌≢◌, refl, List, [], ◌∷◌, none, Bool, Text, String, arith, All, inl, inr, text_eq_refl,
}
use prison_policy_ai.Fault.{Fault, raised, Exec, Exec-cases, type_error}
use prison_policy_ai.Identity.Crypto.{Crypto}
use prison_policy_ai.Identity.Models.{Db}
use prison_policy_ai.Identity.Sessions.Defs.{IdentitySettings, Draw}
use prison_policy_ai.Web.Auth.{
  SignIn, session_scope, web_login, web_login_body, web_renew, web_renew_body, web_renew_status,
}

scope-rolls_back :
    {A : Type 0} (body : Exec Db A) (db : Db) (f : Fault)
    → (session_scope body db).0 ≡ raised f
    → (session_scope body db).1 ≡ db
unfolding session_scope
scope-rolls_back body db f h = elim (Exec-cases (body db)) [
  | inl (a, s, e) ↦ ground arith
  | inr (g, s, e) ↦ ground arith
]

module _ (crypto : Crypto) (settings : IdentitySettings) (limits_enabled : Bool) where
  -- the database after the sign-in requests, one after the other
  unfoldable pub web_logins : List SignIn → Db → Db
  web_logins [] db = db
  web_logins (s ∷ requests) db =
      web_logins requests (web_login crypto settings limits_enabled s db).1

  -- Every refused sign-in of a browser leaves the whole database as it was: the count of failed
  -- attempts, the lock, the audit event and the rate limit's hits are lost. So after any number of
  -- requests that are refused on the database at hand, it is unchanged, and the next request is
  -- answered as if they had not been.
  pub web_login-forgets :
      (requests : List SignIn) (db : Db)
      → All
          (λ s. (f : Fault) × ((web_login crypto settings limits_enabled s db).0 ≡ raised f))
          requests
      → (web_logins requests db ≡ db)
        × ((s : SignIn)
            → web_login crypto settings limits_enabled s (web_logins requests db)
              ≡ web_login crypto settings limits_enabled s db)
  unfolding web_login web_logins
  web_login-forgets [] db h = (refl, λ s. refl)
  web_login-forgets (s ∷ requests) db ((f, refused), h) =
      rw (scope-rolls_back (web_login_body crypto settings limits_enabled s) db f refused)
        (web_login-forgets requests db h)

module _ (crypto : Crypto) (settings : IdentitySettings) where
  -- A refused renewal of a browser leaves the database as it was, whatever `renew_session` wrote for it,
  -- and whatever it raises. Without a renewal cookie the route raises a TypeError, and no clause of the
  -- route answers one.
  pub web_renew-forgets :
      (header cookie renewal_token device_id : Text) (now : ℕ) (request_id : String) (draw : Draw)
      (csrf : Text) (db : Db)
      → ((f : Fault)
          → (web_renew crypto settings header cookie renewal_token device_id now request_id draw
              csrf db).0
            ≡ raised f
          → (web_renew crypto settings header cookie renewal_token device_id now request_id draw
              csrf db).1
            ≡ db)
        × (header ≢ []
            → (web_renew crypto settings header header [] device_id now request_id draw csrf db).0
              ≡ raised type_error)
        × (web_renew_status type_error ≡ none)
  unfolding web_renew web_renew_status
  web_renew-forgets header cookie renewal_token device_id now request_id draw csrf db = (
    λ f h. ground (
      arith,
      scope-rolls_back
          (web_renew_body crypto settings renewal_token device_id header now request_id draw csrf)
          db f,
    ),
    no_cookie header,
    refl,
  )
    where
      no_cookie :
          (header : Text)
          → header ≢ []
          → (web_renew crypto settings header header [] device_id now request_id draw csrf db).0
            ≡ raised type_error
      no_cookie [] t = absurd (t refl)
      no_cookie (c ∷ rest) t = ground (arith, text_eq_refl (c ∷ rest))
